-- ===== src/Examples/Protocol/Drain.antt =====
-- The bytes that UART0_Handler of example 06 hands to `handle`.
use embedded_systems_resourc.Base.{
  ℕ, zero, suc, ◌+◌, ◌<◌, ◌≡◌, refl, ap, ◌∙◌, Option, none, some, List, [], ◌∷◌, ◌++◌, append_assoc,
  length, length-append, take, drop, u8, arith,
}
use embedded_systems_resourc.Frame.{Parser}
use embedded_systems_resourc.Examples.Protocol.{handle, handle_all, drain}

abbrev pub low_bytes : List ℕ → List ℕ
low_bytes [] = []
low_bytes (b ∷ bs) = u8 b ∷ low_bytes bs

abbrev pub joined : List (List ℕ) → List ℕ
joined [] = []
joined (batch ∷ batches) = batch ++ joined batches

-- What a run of the loop gives when the first `n` batches have come in before it ends.
record Drained (fifo : List ℕ) (arriving : List (List ℕ)) (p : Parser)
    (r : Option (Parser × List ℕ × List (List ℕ))) : Type 0 where
  pub came : ℕ
  pub in_order :
      let fed = handle_all p (low_bytes (fifo ++ joined (take came arriving))) in
      r ≡ some (fed.0, fed.1, drop came arriving)

drained :
    (fuel : ℕ) (fifo : List ℕ) (arriving : List (List ℕ)) (p : Parser)
    → length fifo + length (joined arriving) < fuel
    → Drained fifo arriving p (drain fuel fifo arriving p)
unfolding drain handle_all
drained zero fifo arriving p h = absurd (omega arith)
drained (suc fuel) [] arriving p h = record { came = 0; in_order = refl }
drained (suc fuel) (b ∷ fifo) [] p h =
    let (q, text) = handle p (u8 b) in
    let rest = drained fuel fifo [] q (omega arith) in
    record {
      came = rest.came;
      in_order =
          ap (λ r. elim r [ none ↦ none | some (r', more, left) ↦ some (r', text ++ more, left) ])
            rest.in_order;
    }
drained (suc fuel) (b ∷ fifo) (batch ∷ arriving) p h =
    let (q, text) = handle p (u8 b) in
    let rest =
      drained fuel (fifo ++ batch) arriving q
        (omega (arith, length-append fifo batch, length-append batch (joined arriving))) in
    record {
      came = suc rest.came;
      in_order =
          ap (λ r. elim r [ none ↦ none | some (r', more, left) ↦ some (r', text ++ more, left) ])
            rest.in_order
          ∙ ap
              (λ l. some (
                (handle_all q (low_bytes l)).0,
                text ++ (handle_all q (low_bytes l)).1,
                drop rest.came arriving,
              ))
              (append_assoc fifo batch (joined (take rest.came arriving)));
    }

-- `UART0_Handler` returns once the receive queue is empty, for every sequence of batches that come in
-- while it runs: the bytes handed to `handle` are those that were in the queue and then those of
-- the batches that came in, in order and each once, and the other batches are still to come.
pub uart0_handler-in_order :
    (fuel : ℕ) (fifo : List ℕ) (arriving : List (List ℕ)) (p : Parser)
    → length fifo + length (joined arriving) < fuel
    → (n : ℕ) × (let fed = handle_all p (low_bytes (fifo ++ joined (take n arriving))) in
        drain fuel fifo arriving p ≡ some (fed.0, fed.1, drop n arriving))
uart0_handler-in_order fuel fifo arriving p h =
    let r = drained fuel fifo arriving p h in (r.came, r.in_order)
