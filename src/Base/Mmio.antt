-- ===== src/Base/Mmio.antt =====
-- Memory-mapped registers: the accesses that a driver makes, and the read-modify-write of C's `|=`.
use Prim.Native.Nat.{ℕ, zero, suc, ◌-◌, bit_and}
use mathlib.Core.Bool.{Bool}
use mathlib.Core.List.{List, ◌∷◌}
use embedded_systems_resourc.Base.Word.{◌!=◌}

-- One access; a history has the latest first.
pub data Access (R : Type 0) : Type 0 where
  read_of : R → Access R
  write_of : R → ℕ → Access R

-- A peripheral: what a read of a register returns after the accesses made so far.
abbrev pub Device : Type 0 → Type 0
Device R = List (Access R) → R → ℕ

-- `reg = f(reg)`
abbrev pub modify : {R : Type 0} → Device R → R → (ℕ → ℕ) → List (Access R) → List (Access R)
modify hw reg f h = write_of reg (f (hw h reg)) ∷ read_of reg ∷ h

-- `v & ~mask`
abbrev pub without : ℕ → ℕ → ℕ
without mask v = v - bit_and v mask

-- `v & mask` as a condition.
abbrev pub has : ℕ → ℕ → Bool
has mask v = bit_and v mask != 0

-- After `k` reads of a register.
abbrev pub polled : {R : Type 0} → R → ℕ → List (Access R) → List (Access R)
polled reg zero h = h
polled reg (suc k) h = polled reg k (read_of reg ∷ h)
