-- ===== src/Isotp/Rx/Held.antt =====
-- The bytes that the receiver of isotp.c holds, and what the frames so far make of them.
use embedded_systems_resourc.Base.{
  ℕ, ◌+◌, ◌%◌, ◌≤◌, ◌<◌, ◌≡◌, refl, sym, subst, ◌∙◌, List, arith, length, length-take, length-drop,
  length-memcpy, take, take-memcpy, drop, memcpy,
}
use embedded_systems_resourc.Isotp.{Event}
use embedded_systems_resourc.Isotp.Rx.{State, Rx}
use embedded_systems_resourc.Isotp.Rx.Inv.{IsValid}
use embedded_systems_resourc.Isotp.Rx.Spells.{CanFrame, extended, Partial, Spells}
use embedded_systems_resourc.Isotp.Rx.Steps.{with_next, taken}

-- What is in the buffer so far.
abbrev pub held : Rx → List ℕ
held rx = take rx.received rx.buf

-- The frames spell the beginning `payload` of a message of `total` bytes, and `number` comes next.
abbrev pub Collected : ℕ → List CanFrame → ℕ → List ℕ → ℕ → Type 0
Collected limit seen total payload number =
    (k : ℕ) × Partial limit total seen k payload × (number ≡ k % 16)

pub Collected-moved :
    {limit : ℕ} {seen : List CanFrame} {total total' : ℕ} {payload payload' : List ℕ}
    {number number' : ℕ}
    → total' ≡ total
    → payload' ≡ payload
    → number' ≡ number
    → Collected limit seen total payload number
    → Collected limit seen total' payload' number'
Collected-moved {limit} {seen} {total} {total'} {payload} {payload'} {number} {number'} t p n c =
    subst (λ x. Collected limit seen x payload' number') (sym t)
      (subst (λ x. Collected limit seen total x number') (sym p)
        (subst (λ x. Collected limit seen total payload x) (sym n) c))

abbrev pub Holding : ℕ → Rx → List CanFrame → Type 0
Holding limit rx seen = Collected limit seen rx.total_len (held rx) rx.next_sn

pub record Knows (limit : ℕ) (rx : Rx) (seen : List CanFrame) : Type 0 where
  pub valid : IsValid rx
  pub limited : rx.buffer_limit ≡ limit
  pub trace : rx.state ≡ State.wait_cf → Holding limit rx seen

-- After a frame: its event, and the receiver.
pub record Follows (limit : ℕ) (r : Event × Rx) (seen : List CanFrame) : Type 0 where
  pub limited : r.1.buffer_limit ≡ limit
  pub trace : r.1.state ≡ State.wait_cf → Holding limit r.1 seen
  pub done : r.0 ≡ Event.message → Spells limit seen (held r.1)

pub length-held : (rx : Rx) → IsValid rx → length (held rx) ≡ rx.received
length-held rx v =
    omega (arith, length-take rx.received rx.buf, v.sized, v.limit, v.total, v.received)

pub held-more : (rx : Rx) → IsValid rx → rx.state ≡ State.wait_cf → length (held rx) < rx.total_len
held-more rx v w = omega (arith, length-held rx v, v.waiting w)

pub length-held-next :
    (rx : Rx) (bytes : List ℕ) (dlc : ℕ) (v : IsValid rx) (some_byte : 1 ≤ dlc) (few : dlc ≤ 8)
    → length (held (with_next rx bytes (taken rx bytes dlc v some_byte few)))
      ≡ rx.received + taken rx bytes dlc v some_byte few
length-held-next rx bytes dlc v some_byte few =
    let n : ℕ = taken rx bytes dlc v some_byte few in
    omega (
      arith,
      length-take (rx.received + n) (memcpy rx.buf rx.received (drop 1 bytes) n),
      length-memcpy n rx.buf rx.received (drop 1 bytes),
      v.sized,
      v.limit,
      v.total,
      v.received,
    )

-- What the receiver holds after a consecutive frame in sequence.
pub held-next :
    (rx : Rx) (bytes : List ℕ) (dlc : ℕ) (v : IsValid rx) (some_byte : 1 ≤ dlc) (few : dlc ≤ 8)
    → dlc ≤ length bytes
    → held (with_next rx bytes (taken rx bytes dlc v some_byte few))
      ≡ extended rx.total_len (held rx) bytes dlc
held-next rx bytes dlc v some_byte few sized =
    take-memcpy (taken rx bytes dlc v some_byte few) rx.buf rx.received (drop 1 bytes)
      (omega (arith, v.sized, v.limit, v.total, v.received)) (omega (arith, length-drop 1 bytes))
    ∙ rw (length-held rx v) refl
