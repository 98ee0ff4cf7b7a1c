-- ===== src/Isotp/Rx/Kinds.antt =====
-- Which case of isotp_rx_frame a frame goes to, and the frames that change nothing.
use embedded_systems_resourc.Base.{
  ℕ, ◌+◌, ◌%◌, ◌≤◌, ◌<◌, ◌≡◌, ◌≢◌, refl, subst, inl, inr, none, some, List, Bool, true, false, ◌||◌,
  arith, u32, ltb, ◌==◌, if◌then◌else◌, bit_and, ◌>>>◌, bit_and_mask,
}
use embedded_systems_resourc.Isotp.{Event, can_dlc}
use embedded_systems_resourc.Isotp.Rx.{Rx, single, first, consecutive, dispatch, frame}
use embedded_systems_resourc.Isotp.Rx.Spells.{CanFrame, pci_byte, Ignored}

pub low_nibble : (b : ℕ) → bit_and b 0x0f ≡ b % 16
low_nibble b = bit_and_mask 4 b

module _ (rx : Rx) (bytes : List ℕ) (dlc : ℕ) (some_byte : 1 ≤ dlc) (few : dlc ≤ 8) where
  pub frame-single : pci_byte bytes < 16 → frame rx (some bytes) dlc ≡ single rx bytes dlc
  unfolding frame dispatch
  frame-single h = ground arith

  pub frame-first :
      16 ≤ pci_byte bytes → pci_byte bytes < 32 → frame rx (some bytes) dlc ≡ first rx bytes dlc
  unfolding frame dispatch
  frame-first h k = ground arith

  pub frame-consecutive :
      32 ≤ pci_byte bytes
      → pci_byte bytes < 48
      → frame rx (some bytes) dlc ≡ consecutive rx.state rx bytes dlc
  unfolding frame dispatch
  frame-consecutive h k = ground arith

-- Nothing of a message that is being received changes.
pub record Unchanged (rx rx' : Rx) : Type 0 where
  pub state : rx'.state ≡ rx.state
  pub buf : rx'.buf ≡ rx.buf
  pub total : rx'.total_len ≡ rx.total_len
  pub received : rx'.received ≡ rx.received
  pub number : rx'.next_sn ≡ rx.next_sn
  pub limit : rx'.buffer_limit ≡ rx.buffer_limit

-- Both outcomes of a test.
pub by_test :
    (P : Event × Rx → Type 0) (b : Bool) {x y : Event × Rx} → P x → P y → P (if b then x else y)
by_test P true p q = p
by_test P false p q = q

-- Both outcomes of a test, each with what the test found.
pub by_cases :
    (P : Event × Rx → Type 0) (b : Bool) {x y : Event × Rx}
    → (b ≡ true → P x)
    → (b ≡ false → P y)
    → P (if b then x else y)
by_cases P true p q = p refl
by_cases P false p q = q refl

abbrev Quiet : Rx → Event × Rx → Type 0
Quiet rx r = (r.0 ≢ Event.message) × Unchanged rx r.1

error-Quiet :
    (rx : Rx) → Quiet rx (Event.err_length, record rx { err_length = u32 (rx.err_length + 1) })
error-Quiet rx = (
  λ e. cc,
  record { state = refl; buf = refl; total = refl; received = refl; number = refl; limit = refl },
)

control-Quiet : (rx : Rx) → Quiet rx (Event.none, rx)
control-Quiet rx = (
  λ e. cc,
  record { state = refl; buf = refl; total = refl; received = refl; number = refl; limit = refl },
)

dispatch-Quiet :
    (rx : Rx) (bytes : List ℕ) (dlc : ℕ)
    → 48 ≤ pci_byte bytes
    → Quiet rx (dispatch (pci_byte bytes >>> 4) rx bytes dlc)
unfolding dispatch
dispatch-Quiet rx bytes dlc h =
    subst (Quiet rx)
      {x = if (pci_byte bytes >>> 4) == 3
        then (Event.none, rx)
        else (Event.err_length, record rx { err_length = u32 (rx.err_length + 1) })}
      (ground arith)
      (by_test (Quiet rx) ((pci_byte bytes >>> 4) == 3) (control-Quiet rx) (error-Quiet rx))

pub frame-Ignored :
    (rx : Rx) (f : CanFrame)
    → Ignored f
    → ((frame rx f.0 f.1).0 ≢ Event.message) × Unchanged rx (frame rx f.0 f.1).1
unfolding frame
frame-Ignored rx (none, dlc) h = error-Quiet rx
frame-Ignored rx (some bytes, dlc) (inl empty) = rw empty (error-Quiet rx)
frame-Ignored rx (some bytes, dlc) (inr (inl long)) =
    let bad : (dlc == 0 || ltb can_dlc dlc) ≡ true = ground arith in rw bad (error-Quiet rx)
frame-Ignored rx (some bytes, dlc) (inr (inr other)) =
    by_test (Quiet rx) (dlc == 0 || ltb can_dlc dlc) (error-Quiet rx)
      (dispatch-Quiet rx bytes dlc other)
