-- ===== src/Spi/Duplex.antt =====
-- spi_transfer_buf against a device that is ready in time and answers each byte as it comes.
use embedded_systems_resourc.Base.{
  ℕ, zero, suc, ◌+◌, ◌^◌, ◌≤◌, ◌<◌, ◌≡◌, refl, sym, ap, ap₂, ◌∙◌, Option, none, some, List, [], ◌∷◌,
  ◌++◌, append_assoc, append-nil, length-append, replicate, length-replicate, drop-cons, arith, u32,
  Device, length, get_or, set, take, drop,
}
use embedded_systems_resourc.Spi.{
  Register, Accesses, transfer, out_byte, transfer_from, transfer_buf,
}
use embedded_systems_resourc.Spi.Transfer.{sent, taken, Answers, transfer_one}

-- The bytes that `spi_transfer_buf` sends from `i` on, and the answers that they meet after others.
abbrev pub outs : Option (List ℕ) → ℕ → ℕ → List ℕ
outs tx i zero = []
outs tx i (suc left) = out_byte tx i ∷ outs tx (suc i) left

abbrev pub replies : (List ℕ → ℕ) → List ℕ → List ℕ → List ℕ
replies answer before [] = []
replies answer before (x ∷ xs) =
    answer (before ++ (x ∷ [])) ∷ replies answer (before ++ (x ∷ [])) xs

next_index : (i : ℕ) → i + 1 < 2 ^ 32 → u32 (i + 1) ≡ suc i
next_index i h = omega arith

set_middle :
    (xs ys : List ℕ) (y v : ℕ) (i : ℕ)
    → length xs ≡ i
    → set (xs ++ (y ∷ ys)) i v ≡ (xs ++ (v ∷ [])) ++ ys
set_middle [] ys y v zero e = refl
set_middle [] ys y v (suc i) e = absurd (omega arith)
set_middle (x ∷ xs) ys y v zero e = absurd (omega arith)
set_middle (x ∷ xs) ys y v (suc i) e = ap (◌∷◌ x) (set_middle xs ys y v i (omega arith))

module _ (hw : Device Register) (answer : List ℕ → ℕ) (device : Answers hw answer) where
  -- What was stored, and what went over the bus.
  record Moved (h : Accesses) (out : List ℕ) (rx : Option (List ℕ)) (r : Option (List ℕ) × Accesses)
      : Type 0 where
    pub stored : r.0 ≡ rx
    pub all_sent : sent r.1 ≡ sent h ++ out
    pub all_taken : taken r.1 ≡ taken h + length out

  transfer_from_lem :
      (left i : ℕ) (tx : Option (List ℕ)) (done rest : List ℕ) (h : Accesses)
      → length done ≡ i
      → left ≤ length rest
      → i + left < 2 ^ 32
      → Moved h
          (outs tx i left)
          (some (done ++ (replies answer (sent h) (outs tx i left) ++ drop left rest)))
          (transfer_from hw left i tx (some (done ++ rest)) h)
  unfolding transfer_from
  transfer_from_lem zero i tx done rest h e p q = record {
    stored = refl;
    all_sent = sym (append-nil (sent h));
    all_taken = omega arith;
  }
  transfer_from_lem (suc left) i tx done [] h e p q = absurd (omega arith)
  transfer_from_lem (suc left) i tx done (y ∷ rest) h e p q =
      let x = out_byte tx i in
      let (got, now_sent, now_taken) = transfer_one hw answer device x h in
      let r = transfer hw x h in
      let a = answer (sent h ++ (x ∷ [])) in
      let next = outs tx (suc i) left in
      let same =
        ap₂ (λ j b. transfer_from hw left j tx (some b) r.1) (next_index i (omega arith))
          (ap (λ v. set (done ++ (y ∷ rest)) i v) got ∙ set_middle done rest y a i e) in
      let on =
        transfer_from_lem left (suc i) tx (done ++ (a ∷ [])) rest r.1
          (length-append done (a ∷ []) ∙ omega arith) (omega arith) (omega arith) in
      record {
        stored =
            ap (λ (s : Option (List ℕ) × Accesses). s.0) same
            ∙ on.stored
            ∙ ap some (append_assoc done (a ∷ []) _)
            ∙ ap (λ before. some (done ++ (a ∷ (replies answer before next ++ drop left rest))))
                now_sent;
        all_sent =
            ap (λ (s : Option (List ℕ) × Accesses). sent s.1) same
            ∙ on.all_sent
            ∙ ap (λ l. l ++ next) now_sent
            ∙ append_assoc (sent h) (x ∷ []) next;
        all_taken =
            ap (λ (s : Option (List ℕ) × Accesses). taken s.1) same
            ∙ omega (arith, on.all_taken, now_taken);
      }

  -- A null `rx` changes nothing on the bus.
  without_rx :
      (left i : ℕ) (tx : Option (List ℕ)) (rx : List ℕ) (h : Accesses)
      → transfer_from hw left i tx none h ≡ (none, (transfer_from hw left i tx (some rx) h).1)
  unfolding transfer_from
  without_rx zero i tx rx h = refl
  without_rx (suc left) i tx rx h =
      without_rx left (u32 (i + 1)) tx (set rx i (transfer hw (out_byte tx i) h).0)
        (transfer hw (out_byte tx i) h).1

-- What is in the receive buffer in the end: the answers, then what was there behind them.
abbrev pub filled : (List ℕ → ℕ) → Option (List ℕ) → List ℕ → List ℕ → Option (List ℕ)
filled answer none before out = none
filled answer (some rx) before out = some (replies answer before out ++ drop (length out) rx)

-- The bytes that `spi_transfer_buf` is to send: those of `tx`, or as many fillers.
abbrev pub to_send : Option (List ℕ) → ℕ → List ℕ
to_send none len = replicate len 0xff
to_send (some tx) len = take len tx

outs-length : (tx : Option (List ℕ)) (i left : ℕ) → length (outs tx i left) ≡ left
outs-length tx i zero = refl
outs-length tx i (suc left) = ap suc (outs-length tx (suc i) left)

outs-to_send :
    (tx : List ℕ) (i left : ℕ)
    → i + left ≤ length tx
    → outs (some tx) i left ≡ take left (drop i tx)
outs-to_send tx i zero h = refl
outs-to_send tx i (suc left) h =
    ap (◌∷◌ (get_or tx i 0)) (outs-to_send tx (suc i) left (omega arith))
    ∙ ap (take (suc left)) (sym (drop-cons tx i 0 (omega arith)))

outs-fillers : (i left : ℕ) → outs none i left ≡ replicate left 0xff
outs-fillers i zero = refl
outs-fillers i (suc left) = ap (◌∷◌ 0xff) (outs-fillers (suc i) left)

-- Whether a buffer that is not null holds `len` bytes.
abbrev pub Holds : Option (List ℕ) → ℕ → Type 0
Holds none len = Unit
Holds (some buf) len = len ≤ length buf

outs-all : (tx : Option (List ℕ)) (len : ℕ) → Holds tx len → outs tx 0 len ≡ to_send tx len
outs-all none len h = outs-fillers 0 len
outs-all (some tx) len h = outs-to_send tx 0 len (omega arith)

-- Against a device that is ready within the waits and answers each byte with one that depends on the
-- bytes sent up to it, `spi_transfer_buf` sends the bytes of `tx`, or fillers, in order, reads the
-- data register once for each, and leaves the answers in `rx`, in order, with what stood behind them.
pub transfer_buf_lem :
    (hw : Device Register) (answer : List ℕ → ℕ) (tx rx : Option (List ℕ)) (len : ℕ) (h : Accesses)
    → Answers hw answer
    → Holds tx len
    → Holds rx len
    → len < 2 ^ 32
    → let r = transfer_buf hw tx rx len h in
      let out = to_send tx len in
      (r.0 ≡ filled answer rx (sent h) out)
      × (sent r.1 ≡ sent h ++ out)
      × (taken r.1 ≡ taken h + len)
unfolding transfer_buf
transfer_buf_lem hw answer tx (some rx) len h device t r p =
    let all = outs-all tx len t in
    let moved = transfer_from_lem hw answer device len 0 tx [] rx h refl r (omega arith) in
    (
      moved.stored
          ∙ ap₂ (λ out n. some (replies answer (sent h) out ++ drop n rx)) all
              (sym (outs-length tx 0 len) ∙ ap length all),
      moved.all_sent ∙ ap (λ out. sent h ++ out) all,
      omega (arith, moved.all_taken, outs-length tx 0 len),
    )
transfer_buf_lem hw answer tx none len h device t r p =
    let all = outs-all tx len t in
    let some_rx : List ℕ = replicate len 0 in
    let same : transfer_from hw len 0 tx none h
        ≡ (none, (transfer_from hw len 0 tx (some some_rx) h).1) =
      without_rx hw answer device len 0 tx some_rx h in
    let moved =
      transfer_from_lem hw answer device len 0 tx [] some_rx h refl
        (omega (arith, length-replicate {A = ℕ} len 0)) (omega arith) in
    (
      ap (λ (s : Option (List ℕ) × Accesses). s.0) same,
      ap (λ (s : Option (List ℕ) × Accesses). sent s.1) same
          ∙ moved.all_sent
          ∙ ap (λ out. sent h ++ out) all,
      ap (λ (s : Option (List ℕ) × Accesses). taken s.1) same
          ∙ omega (arith, moved.all_taken, outs-length tx 0 len),
    )
