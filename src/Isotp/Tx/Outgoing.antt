-- ===== src/Isotp/Tx/Outgoing.antt =====
-- The frames of the sender of isotp.c, one by one, against what they mean to a receiver.
use embedded_systems_resourc.Base.{
  ℕ, ◌+◌, ◌-◌, ◌/◌, ◌%◌, ◌≤◌, ◌<◌, ◌≡◌, refl, sym, ap, Bool, subst, ◌∙◌, true, false, some, List,
  ◌∷◌, ◌++◌, arith, length, length-take, length-drop, take, drop, take-length, take-add, replicate,
  memcpy, min, u8, bit_and, bit_or, ◌<<<◌, ◌>>>◌, bit_and_mask, bit_or_sum, if◌then◌else◌,
}
use embedded_systems_resourc.Isotp.{max_payload, can_dlc, pci_sf, pci_ff}
use embedded_systems_resourc.Isotp.Rx.Spells.{CanFrame, Continues, extended, Partial, Spells}
use embedded_systems_resourc.Isotp.Rx.Steps.{copied}
use embedded_systems_resourc.Isotp.Tx.{State, Tx}

module _ (limit : ℕ) (msg : List ℕ) where
  -- What the frames sent so far are the beginning of.
  abbrev pub Begun : Tx → List CanFrame → Type 0
  Begun tx frames =
      (k : ℕ) × Partial limit (length msg) frames k (take tx.sent msg)
      × (tx.next_sn ≡ k % 16)
      × (6 ≤ tx.sent)
      × (tx.sent < length msg)

  abbrev pub Told : State → Tx → List CanFrame → Type 0
  Told State.idle tx frames = (tx.sent ≡ 0) × (tx.next_sn ≡ 1)
  Told State.wait_fc tx frames = Begun tx frames
  Told State.sending tx frames = Begun tx frames
  Told State.done tx frames = Spells limit frames msg
  Told State.aborted tx frames = Unit {0}

  pub record Knows (tx : Tx) (frames : List CanFrame) : Type 0 where
    pub payload : tx.payload ≡ msg
    pub total : tx.total_len ≡ length msg
    pub told : Told tx.state tx frames

-- Both outcomes of a test.
pub by_test :
    {A : Type 0} (P : A → Type 0) (b : Bool) {x y : A} → P x → P y → P (if b then x else y)
by_test P true p q = p
by_test P false p q = q

-- The first byte of a single frame, and of a first frame.
pub sf_head : (n : ℕ) → n ≤ 7 → u8 (bit_or (pci_sf <<< 4) (bit_and n 0x0f)) ≡ n
sf_head n h =
    ap (λ m. u8 (bit_or (pci_sf <<< 4) m)) (bit_and_mask 4 n)
    ∙ ap u8 (bit_or_sum 4 0 (n % 16) (omega arith))
    ∙ omega arith

pub ff_head :
    (n : ℕ) → n ≤ max_payload → u8 (bit_or (pci_ff <<< 4) (bit_and (n >>> 8) 0x0f)) ≡ 16 + n / 256
ff_head n h =
    ap (λ m. u8 (bit_or (pci_ff <<< 4) m)) (bit_and_mask 4 (n >>> 8))
    ∙ ap u8 (bit_or_sum 4 1 ((n >>> 8) % 16) (omega arith))
    ∙ omega arith

module _ (limit : ℕ) (msg : List ℕ) (fits : length msg ≤ limit) (word : limit ≤ max_payload)
    (frames : List CanFrame) where
  -- A short message, after its length.
  pub single_frame :
      1 ≤ length msg
      → length msg ≤ 7
      → Spells limit
          ((some (length msg ∷ memcpy (replicate 7 0xcc) 0 msg (length msg)), can_dlc) ∷ frames)
          msg
  single_frame some_bytes short =
      subst
        (Spells limit
          ((some (length msg ∷ memcpy (replicate 7 0xcc) 0 msg (length msg)), can_dlc) ∷ frames))
        (copied (length msg) (replicate 7 0xcc) msg short (omega arith) ∙ take-length msg)
        (Spells.single {bytes = length msg ∷ memcpy (replicate 7 0xcc) 0 msg (length msg)} refl
          (some_bytes, short, fits) (omega arith))

  -- The beginning of a long one, after the length.
  pub first_frame :
      (rest : List ℕ)
      → 6 ≤ length rest
      → 8 ≤ length msg
      → Partial limit
          (length msg)
          ((some ((16 + length msg / 256) ∷ (length msg % 256) ∷ memcpy rest 0 msg 6), can_dlc)
            ∷ frames)
          1
          (take 6 msg)
  first_frame rest room long =
      subst
        (Partial limit (length msg)
          ((some ((16 + length msg / 256) ∷ (length msg % 256) ∷ memcpy rest 0 msg 6), can_dlc)
            ∷ frames)
          1)
        (copied 6 rest msg room (omega arith))
        (Partial.opened {bytes = (16 + length msg / 256) ∷ (length msg % 256) ∷ memcpy rest 0 msg 6}
          refl refl long fits)

  -- How many bytes go out next, and the frame with them.
  abbrev pub chunk : ℕ → ℕ
  chunk sent = min (length msg - sent) 7

  abbrev pub frame_from : ℕ → ℕ → List ℕ
  frame_from sn sent = (32 + sn) ∷ memcpy (replicate 7 0xcc) 0 (drop sent msg) (chunk sent)

  pub extended-take :
      (sn sent : ℕ)
      → sent < length msg
      → extended (length msg) (take sent msg) (frame_from sn sent) can_dlc
        ≡ take (sent + chunk sent) msg
  extended-take sn sent more =
      let n = chunk sent in
      let rest = memcpy (replicate 7 0xcc) 0 (drop sent msg) n in
      ap (λ l. take sent msg ++ take (min (length msg - l) 7) rest)
        (length-take sent msg ∙ omega arith)
      ∙ ap (λ l. take sent msg ++ l)
          (copied n (replicate 7 0xcc) (drop sent msg) (omega arith)
            (omega (arith, length-drop sent msg)))
      ∙ sym (take-add sent n msg)

  pub continues : (j sn sent : ℕ) → sn ≡ j % 16 → Continues j (frame_from sn sent) can_dlc
  continues j sn sent e = (omega arith, omega arith, omega (arith, e))
