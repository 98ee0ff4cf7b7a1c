-- ===== src/Isotp/Rx/Sound.antt =====
-- isotp_rx_frame, frame by frame: what the receiver holds and reports against the frames it has seen.
use embedded_systems_resourc.Base.{
  ℕ, suc, ◌+◌, ◌≤◌, ◌<◌, ◌≡◌, ◌≢◌, refl, sym, ap, ap₂, subst, ◌∙◌, some, List, ◌∷◌, ◌||◌, arith,
  length, length-drop, take, drop, get_or, memcpy, ltb, ◌==◌, ◌!=◌, bit_and, dec_lt,
  AllBytes-get_or,
}
use embedded_systems_resourc.Isotp.{Event}
use embedded_systems_resourc.Isotp.Rx.{
  State, Rx, single, first, ff_length, in_sequence, consecutive, frame, build_fc, abort,
}
use embedded_systems_resourc.Isotp.Rx.Spells.{CanFrame, Sized, pci_byte, Ignored, Partial, Spells}
use embedded_systems_resourc.Isotp.Rx.Kinds.{low_nibble, by_cases, frame-Ignored}
use embedded_systems_resourc.Isotp.Rx.Steps.{
  ff_length_lem, copied, taken, in_sequence-last, in_sequence-more,
}
use embedded_systems_resourc.Isotp.Rx.Held.{
  held-next, length-held-next, held-more, Collected-moved, Knows, Follows,
}

-- An error, or a message that is given up.
rejected :
    {limit : ℕ} {seen : List CanFrame} {r : Event × Rx}
    → r.0 ≢ Event.message
    → r.1.state ≡ State.idle
    → r.1.buffer_limit ≡ limit
    → Follows limit r seen
rejected ne idle lim = record { limited = lim; trace = λ w. absurd cc; done = λ m. absurd (ne m) }

-- A first frame that is accepted, and the six bytes in the buffer.
first-Partial :
    {limit : ℕ} {before : List CanFrame} (bytes : List ℕ) (dlc : ℕ)
    → dlc ≤ length bytes
    → dlc ≤ 8
    → 16 ≤ pci_byte bytes
    → pci_byte bytes < 32
    → get_or bytes 1 0 < 256
    → (buf : List ℕ) → 6 ≤ length buf
    → 8 ≤ dlc
    → 8 ≤ ff_length bytes
    → ff_length bytes ≤ limit
    → Partial limit
        (ff_length bytes)
        ((some bytes, dlc) ∷ before)
        1
        (take 6 (memcpy buf 0 (drop 2 bytes) 6))
first-Partial {limit} {before} bytes dlc sized few ff ff' byte buf room full low fits =
    let len : ℕ = ff_length bytes in
    let len_lem = ff_length_lem bytes byte in
    subst
      (λ d. Partial limit len ((some bytes, d) ∷ before) 1 (take 6 (memcpy buf 0 (drop 2 bytes) 6)))
      (omega arith)
      (subst (Partial limit len ((some bytes, 8) ∷ before) 1)
        (sym (copied 6 buf (drop 2 bytes) room (omega (arith, length-drop 2 bytes))))
        (Partial.opened (omega arith) (omega arith) low fits))

module _ {limit : ℕ} {rx : Rx} {before : List CanFrame} (k : Knows limit rx before) where
  pub Ignored-Follows : (f : CanFrame) → Ignored f → Follows limit (frame rx f.0 f.1) (f ∷ before)
  Ignored-Follows f h =
      let (quiet, u) = frame-Ignored rx f h in
      record {
        limited = u.limit ∙ k.limited;
        trace = λ w.
            let w' : rx.state ≡ State.wait_cf = sym u.state ∙ w in
            let (j, part, number) = k.trace w' in
            let more = held-more rx k.valid w' in
            Collected-moved u.total (ap₂ take u.received u.buf) u.number
              (j, Partial.passed part more h, number);
        done = λ m. absurd (quiet m);
      }

  pub single-Follows :
      (bytes : List ℕ) (dlc : ℕ)
      → Sized (some bytes, dlc)
      → dlc ≤ 8
      → pci_byte bytes < 16
      → Follows limit (single rx bytes dlc) ((some bytes, dlc) ∷ before)
  unfolding single abort
  single-Follows bytes dlc sized few sf =
      let len : ℕ = bit_and (pci_byte bytes) 0x0f in
      let len_lem : len ≡ pci_byte bytes = low_nibble (pci_byte bytes) ∙ omega arith in
      let P : Event × Rx → Type 0 = λ r. Follows limit r ((some bytes, dlc) ∷ before) in
      by_cases P (len == 0 || (ltb 7 len || ltb dlc (len + 1)))
        (λ bad. rejected (λ e. cc) refl k.limited)
        (λ good.
          by_cases P (ltb rx.buffer_limit len) (λ big. rejected (λ e. cc) refl k.limited)
            (λ fits. record {
              limited = k.limited;
              trace = λ w. absurd cc;
              done = λ m.
                  subst (Spells limit ((some bytes, dlc) ∷ before))
                    (sym (
                      copied len rx.buf (drop 1 bytes) (ground (arith, k.valid.sized))
                        (ground (arith, length-drop 1 bytes))))
                    (Spells.single {bytes = bytes} (sym len_lem) (ground (arith, k.limited))
                      (ground arith));
            }))

  pub first-Follows :
      (bytes : List ℕ) (dlc : ℕ)
      → Sized (some bytes, dlc)
      → dlc ≤ 8
      → 16 ≤ pci_byte bytes
      → pci_byte bytes < 32
      → Follows limit (first rx bytes dlc) ((some bytes, dlc) ∷ before)
  unfolding first abort build_fc
  first-Follows bytes dlc sized few ff ff' =
      let len : ℕ = ff_length bytes in
      let P : Event × Rx → Type 0 = λ r. Follows limit r ((some bytes, dlc) ∷ before) in
      by_cases P (ltb dlc 8) (λ bad. rejected (λ e. cc) refl k.limited)
        (λ full.
          by_cases P (ltb len 8) (λ bad. rejected (λ e. cc) refl k.limited)
            (λ good.
              by_cases P (ltb rx.buffer_limit len) (λ big. rejected (λ e. cc) refl k.limited)
                (λ fits. record {
                  limited = k.limited;
                  trace = λ w. (
                    1,
                    first-Partial bytes dlc sized.0 few ff ff' (AllBytes-get_or bytes 1 sized.1)
                        rx.buf (omega (arith, k.valid.sized)) (ground arith) (ground arith)
                        (ground (arith, k.limited)),
                    refl,
                  );
                  done = λ m. absurd cc;
                })))

  in_sequence-Follows :
      (bytes : List ℕ) (dlc : ℕ)
      → Sized (some bytes, dlc)
      → 1 ≤ dlc
      → dlc ≤ 8
      → rx.state ≡ State.wait_cf
      → pci_byte bytes ≡ 32 + rx.next_sn
      → Follows limit (in_sequence rx bytes dlc) ((some bytes, dlc) ∷ before)
  in_sequence-Follows bytes dlc sized some_byte few w number =
      let v = k.valid in
      let n : ℕ = taken rx bytes dlc v some_byte few in
      let (j, part, count) = k.trace w in
      let part_more = held-more rx v w in
      let next = held-next rx bytes dlc v some_byte few sized.0 in
      elim (dec_lt (rx.received + n) rx.total_len) [
        | yes more ↦
            let a = in_sequence-more rx bytes dlc v some_byte few more in
            record {
              limited = a.limit ∙ k.limited;
              trace = λ w'.
                  Collected-moved a.total (ap₂ take a.received a.buf ∙ next) a.number (
                    suc j,
                    Partial.added part part_more (some_byte, few, omega arith),
                    omega arith,
                  );
              done = λ m. absurd (a.quiet m);
            }
        | no last ↦
            subst (λ r. Follows limit r ((some bytes, dlc) ∷ before))
              (sym (in_sequence-last rx bytes dlc v some_byte few (omega arith)))
              (record {
                limited = k.limited;
                trace = λ w'. absurd cc;
                done = λ m. subst (Spells limit ((some bytes, dlc) ∷ before)) (sym next) (
                    Spells.joined part part_more (some_byte, few, omega arith)
                      (ap length (sym next)
                        ∙ length-held-next rx bytes dlc v some_byte few
                        ∙ omega (arith, v.received, last)));
              })
      ]

  pub consecutive-Follows :
      (bytes : List ℕ) (dlc : ℕ)
      → Sized (some bytes, dlc)
      → 1 ≤ dlc
      → dlc ≤ 8
      → 32 ≤ pci_byte bytes
      → pci_byte bytes < 48
      → (st : State) → rx.state ≡ st
      → Follows limit (consecutive st rx bytes dlc) ((some bytes, dlc) ∷ before)
  unfolding consecutive abort
  consecutive-Follows bytes dlc sized some_byte few cf cf' State.idle e =
      rejected (λ e. cc) e k.limited
  consecutive-Follows bytes dlc sized some_byte few cf cf' State.wait_cf e =
      by_cases (λ r. Follows limit r ((some bytes, dlc) ∷ before))
        (bit_and (pci_byte bytes) 0x0f != rx.next_sn) (λ bad. rejected (λ e. cc) refl k.limited)
        (λ good.
          in_sequence-Follows bytes dlc sized some_byte few e
            (ground (arith, low_nibble (pci_byte bytes))))
