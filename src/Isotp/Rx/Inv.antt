-- ===== src/Isotp/Rx/Inv.antt =====
-- The invariant of the receiver: no frame, however malformed, makes it write outside its buffer.
use embedded_systems_resourc.Base.{
  ℕ, ◌+◌, ◌≤◌, ◌<◌, ◌≡◌, refl, Option, none, some, List, [], ◌∷◌, arith, length, length-memcpy,
  length-replicate, get_or, drop, ltb, ◌==◌, ◌||◌, bit_and, ◌!=◌, ◌>>>◌, Bool-cases, inl, inr,
}
use embedded_systems_resourc.Isotp.{max_payload, can_dlc}
use embedded_systems_resourc.Isotp.Rx.{
  State, Rx, init, single, first, cf_take, in_sequence, consecutive, dispatch, frame, frames,
}

pub record IsValid (rx : Rx) : Type 0 where
  pub sized : length rx.buf ≡ max_payload
  pub limit : rx.buffer_limit ≤ max_payload
  pub total : rx.total_len ≤ rx.buffer_limit
  pub received : rx.received ≤ rx.total_len
  pub waiting : rx.state ≡ State.wait_cf → rx.received < rx.total_len

pub init-IsValid : (limit bs st : ℕ) → IsValid (init limit bs st)
unfolding init
init-IsValid limit bs st = record {
  sized = length-replicate {A = ℕ} max_payload 0;
  limit = ground arith;
  total = omega arith;
  received = omega arith;
  waiting = λ e. cc;
}

pub single-IsValid :
    (rx : Rx) (bytes : List ℕ) (dlc : ℕ) → IsValid rx → IsValid (single rx bytes dlc).1
unfolding single
single-IsValid rx bytes dlc v =
    ground (arith, length-memcpy (bit_and (get_or bytes 0 0) 0x0f) rx.buf 0 (drop 1 bytes))

pub first-IsValid :
    (rx : Rx) (bytes : List ℕ) (dlc : ℕ) → IsValid rx → IsValid (first rx bytes dlc).1
unfolding first
first-IsValid rx bytes dlc v = ground (arith, length-memcpy 6 rx.buf 0 (drop 2 bytes))

pub cf_take_fits :
    (rx : Rx) (dlc : ℕ)
    → IsValid rx
    → 0 < dlc
    → dlc ≤ can_dlc
    → (rx.received + cf_take rx dlc ≤ rx.total_len) × (cf_take rx dlc < dlc)
cf_take_fits rx dlc v p q = ground (arith, v.limit, v.total, v.received)

pub in_sequence-IsValid :
    (rx : Rx) (bytes : List ℕ) (dlc : ℕ)
    → IsValid rx
    → rx.state ≡ State.wait_cf
    → 0 < dlc
    → dlc ≤ can_dlc
    → IsValid (in_sequence rx bytes dlc).1
unfolding in_sequence
in_sequence-IsValid rx bytes dlc v w p q = ground (
  arith,
  cf_take_fits rx dlc v p q,
  v.waiting w,
  length-memcpy (cf_take rx dlc) rx.buf rx.received (drop 1 bytes),
)

consecutive-IsValid :
    (st : State) (rx : Rx) (bytes : List ℕ) (dlc : ℕ)
    → IsValid rx
    → rx.state ≡ st
    → 0 < dlc
    → dlc ≤ can_dlc
    → IsValid (consecutive st rx bytes dlc).1
unfolding consecutive
consecutive-IsValid State.idle rx bytes dlc v e p q = ground arith
consecutive-IsValid State.wait_cf rx bytes dlc v e p q =
    elim (Bool-cases (bit_and (get_or bytes 0 0) 0x0f != rx.next_sn)) [
      | inl bad ↦ rw bad (ground arith)
      | inr good ↦ rw good (in_sequence-IsValid rx bytes dlc v e p q)
    ]

dispatch-IsValid :
    (pci : ℕ) (rx : Rx) (bytes : List ℕ) (dlc : ℕ)
    → IsValid rx
    → 0 < dlc
    → dlc ≤ can_dlc
    → IsValid (dispatch pci rx bytes dlc).1
unfolding dispatch
dispatch-IsValid pci rx bytes dlc v p q = ground (
  arith,
  single-IsValid rx bytes dlc v,
  first-IsValid rx bytes dlc v,
  consecutive-IsValid rx.state rx bytes dlc v refl p q,
)

-- `isotp_rx_frame` keeps the invariant on every frame: NULL, any DLC, any PCI, in any state.
pub frame-IsValid :
    (rx : Rx) (data_ptr : Option (List ℕ)) (dlc : ℕ)
    → IsValid rx
    → IsValid (frame rx data_ptr dlc).1
unfolding frame
frame-IsValid rx none dlc v = ground arith
frame-IsValid rx (some bytes) dlc v = elim (Bool-cases (dlc == 0 || ltb can_dlc dlc)) [
  | inl bad ↦ rw bad (ground arith)
  | inr good ↦
      rw good
        (dispatch-IsValid (get_or bytes 0 0 >>> 4) rx bytes dlc v (ground arith) (ground arith))
]

frames-IsValid :
    (rx : Rx) (received : List (Option (List ℕ) × ℕ)) → IsValid rx → IsValid (frames rx received)
unfolding frames
frames-IsValid rx [] v = v
frames-IsValid rx ((data_ptr, dlc) ∷ more) v =
    frames-IsValid (frame rx data_ptr dlc).1 more (frame-IsValid rx data_ptr dlc v)

-- From `isotp_rx_init` on, whatever frames arrive, what the receiver holds fits the declared length,
-- the declared length fits the limit, and the limit fits the buffer; and the bytes that the next
-- consecutive frame of DLC 1 to 8 would add fit the declared length and the frame that they are
-- copied from.
pub frames_in_bounds :
    (limit bs st : ℕ) (received : List (Option (List ℕ) × ℕ)) (dlc : ℕ)
    → 0 < dlc
    → dlc ≤ can_dlc
    → let rx = frames (init limit bs st) received in
      (length rx.buf ≡ max_payload)
      × (rx.buffer_limit ≤ max_payload)
      × (rx.total_len ≤ rx.buffer_limit)
      × (rx.received ≤ rx.total_len)
      × (rx.received + cf_take rx dlc ≤ rx.total_len)
      × (1 + cf_take rx dlc ≤ dlc)
frames_in_bounds limit bs st received dlc p q =
    let rx = frames (init limit bs st) received in
    let v = frames-IsValid (init limit bs st) received (init-IsValid limit bs st) in
    let (fits, within) = cf_take_fits rx dlc v p q in
    (v.sized, v.limit, v.total, v.received, fits, omega arith)
