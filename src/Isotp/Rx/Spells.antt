-- ===== src/Isotp/Rx/Spells.antt =====
-- What ISO 15765-2 has a sequence of received frames mean, without the receiver of isotp.c: the latest
-- frame stands first, and a frame is its bytes, NULL or not, and its DLC.
use embedded_systems_resourc.Base.{
  ℕ, suc, ◌+◌, ◌-◌, ◌/◌, ◌%◌, ◌≤◌, ◌<◌, ◌≡◌, ◌⊎◌, Option, none, some, List, [], ◌∷◌, ◌++◌, min,
  length, take, drop, get_or, AllBytes,
}

abbrev pub CanFrame : Type 0
CanFrame = Option (List ℕ) × ℕ

-- The bytes behind the pointer are as many as the DLC says.
abbrev pub Sized : CanFrame → Type 0
Sized (none, dlc) = Unit {0}
Sized (some bytes, dlc) = (dlc ≤ length bytes) × AllBytes bytes

abbrev pub AllSized : List CanFrame → Type 0
AllSized [] = Unit {0}
AllSized (f ∷ fs) = Sized f × AllSized fs

-- The first byte, the PCI.
abbrev pub pci_byte : List ℕ → ℕ
pci_byte bytes = get_or bytes 0 0

-- No data, a DLC that CAN does not have, a flow control frame, or a type that is not defined.
abbrev pub Ignored : CanFrame → Type 0
Ignored (none, dlc) = Unit {0}
Ignored (some bytes, dlc) = (dlc ≡ 0) ⊎ ((8 < dlc) ⊎ (48 ≤ pci_byte bytes))

-- A consecutive frame with sequence number `k`, modulo 16.
abbrev pub Continues : ℕ → List ℕ → ℕ → Type 0
Continues k bytes dlc = (1 ≤ dlc) × (dlc ≤ 8) × (pci_byte bytes ≡ 32 + k % 16)

-- The payload with the bytes of one more consecutive frame.
abbrev pub extended : ℕ → List ℕ → List ℕ → ℕ → List ℕ
extended total payload bytes dlc =
    payload ++ take (min (total - length payload) (dlc - 1)) (drop 1 bytes)

-- The frames end in the beginning of a message of `total` bytes: a first frame and consecutive frames
-- numbered from 1, with nothing between them but frames that are ignored. `k` is the next number.
pub data Partial (limit total : ℕ) : List CanFrame → ℕ → List ℕ → Type 0 where
  opened :
      {bytes : List ℕ} {before : List CanFrame}
      → pci_byte bytes ≡ 16 + total / 256
      → get_or bytes 1 0 ≡ total % 256
      → 8 ≤ total
      → total ≤ limit
      → Partial limit total ((some bytes, 8) ∷ before) 1 (take 6 (drop 2 bytes))
  added :
      {bytes : List ℕ} {dlc k : ℕ} {before : List CanFrame} {payload : List ℕ}
      → Partial limit total before k payload
      → length payload < total
      → Continues k bytes dlc
      → Partial limit total ((some bytes, dlc) ∷ before) (suc k) (extended total payload bytes dlc)
  passed :
      {f : CanFrame} {k : ℕ} {before : List CanFrame} {payload : List ℕ}
      → Partial limit total before k payload
      → length payload < total
      → Ignored f
      → Partial limit total (f ∷ before) k payload

-- The frames end in a message, at the latest of them: a single frame, or the last consecutive frame.
pub data Spells (limit : ℕ) : List CanFrame → List ℕ → Type 0 where
  single :
      {bytes : List ℕ} {n dlc : ℕ} {before : List CanFrame}
      → pci_byte bytes ≡ n
      → (1 ≤ n) × (n ≤ 7) × (n ≤ limit)
      → (n < dlc) × (dlc ≤ 8)
      → Spells limit ((some bytes, dlc) ∷ before) (take n (drop 1 bytes))
  joined :
      {total : ℕ} {bytes : List ℕ} {dlc k : ℕ} {before : List CanFrame} {payload : List ℕ}
      → Partial limit total before k payload
      → length payload < total
      → Continues k bytes dlc
      → length (extended total payload bytes dlc) ≡ total
      → Spells limit ((some bytes, dlc) ∷ before) (extended total payload bytes dlc)
