-- ===== src/Board/Critical.antt =====
-- irq_save and irq_restore of code/qemu-cortex-m/common/lm3s6965.h: critical sections by PRIMASK, whose
-- bit 0 masks the interrupts; `cpsid i` sets it and `cpsie i` clears it.
use embedded_systems_resourc.Base.{
  ℕ, zero, suc, ◌+◌, ◌<◌, ◌≡◌, refl, sym, ap, ap₂, ◌∙◌, List, [], ◌∷◌, ◌++◌, arith, ◌==◌,
  if◌then◌else◌, bit_and,
}
use mathlib.Core.List.{map, map-append}

-- `irq_save`: the PRIMASK that it returns, and the one that it leaves.
unfoldable pub irq_save : ℕ → ℕ × ℕ
irq_save primask = (primask, 1)

-- `irq_restore`, on a saved PRIMASK and the one in force.
unfoldable pub irq_restore : ℕ → ℕ → ℕ
irq_restore saved primask = if bit_and saved 1 == 0 then 0 else primask

-- Code with critical sections in it: accesses to what it shares with an interrupt handler, and
-- sections between irq_save and irq_restore.
pub data Code : Type 0 where
  done : Code
  access : (rest : Code) → Code
  section : (body rest : Code) → Code

-- PRIMASK after the code.
unfoldable pub run : Code → ℕ → ℕ
unfolding irq_save irq_restore
run done primask = primask
run (access rest) primask = run rest primask
run (section body rest) primask =
    let (saved, masked) = irq_save primask in run rest (irq_restore saved (run body masked))

-- PRIMASK at each access.
unfoldable pub at_accesses : Code → ℕ → List ℕ
unfolding irq_save irq_restore
at_accesses done primask = []
at_accesses (access rest) primask = primask ∷ at_accesses rest primask
at_accesses (section body rest) primask =
    let (saved, masked) = irq_save primask in
    at_accesses body masked ++ at_accesses rest (irq_restore saved (run body masked))

-- How many sections are open at each access.
pub depths : ℕ → Code → List ℕ
depths depth done = []
depths depth (access rest) = depth ∷ depths depth rest
depths depth (section body rest) = depths (depth + 1) body ++ depths depth rest

-- PRIMASK inside and outside of sections.
abbrev pub mask_at : ℕ → ℕ → ℕ
mask_at primask depth = if depth == 0 then primask else 1

restored : (primask : ℕ) → primask < 2 → irq_restore primask 1 ≡ primask
unfolding irq_restore
restored zero h = refl
restored (suc zero) h = refl
restored (suc (suc p)) h = absurd (omega arith)

run-same : (c : Code) (primask : ℕ) → primask < 2 → run c primask ≡ primask
unfolding run irq_save
run-same done primask h = refl
run-same (access rest) primask h = run-same rest primask h
run-same (section body rest) primask h =
    let back = ap (irq_restore primask) (run-same body 1 (omega arith)) ∙ restored primask h in
    ap (run rest) back ∙ run-same rest primask h

-- Below an open section every access is masked.
open_masked : (c : Code) (depth : ℕ) → at_accesses c 1 ≡ map (mask_at 1) (depths depth c)
unfolding at_accesses depths irq_save
open_masked done depth = refl
open_masked (access rest) depth = ap₂ (◌∷◌) (ground arith) (open_masked rest depth)
open_masked (section body rest) depth =
    ap₂ (◌++◌) (open_masked body (depth + 1)) (
      ap (at_accesses rest)
        (ap (irq_restore 1) (run-same body 1 (omega arith)) ∙ restored 1 (omega arith))
      ∙ open_masked rest depth)
    ∙ sym (map-append (mask_at 1) (depths (depth + 1) body) (depths depth rest))

masks_below :
    (c : Code) (primask depth : ℕ)
    → map (mask_at 1) (depths (depth + 1) c) ≡ map (mask_at primask) (depths (depth + 1) c)
unfolding depths
masks_below done primask depth = refl
masks_below (access rest) primask depth = ap₂ (◌∷◌) (ground arith) (masks_below rest primask depth)
masks_below (section body rest) primask depth =
    map-append (mask_at 1) (depths (depth + 1 + 1) body) (depths (depth + 1) rest)
    ∙ ap₂ (◌++◌) (masks_below body primask (depth + 1)) (masks_below rest primask depth)
    ∙ sym (map-append (mask_at primask) (depths (depth + 1 + 1) body) (depths (depth + 1) rest))

accesses_masked :
    (c : Code) (primask : ℕ)
    → primask < 2
    → at_accesses c primask ≡ map (mask_at primask) (depths 0 c)
unfolding at_accesses depths irq_save
accesses_masked done primask h = refl
accesses_masked (access rest) primask h = ap (◌∷◌ primask) (accesses_masked rest primask h)
accesses_masked (section body rest) primask h =
    ap₂ (◌++◌) (open_masked body (0 + 1) ∙ masks_below body primask 0) (
      ap (at_accesses rest)
        (ap (irq_restore primask) (run-same body 1 (omega arith)) ∙ restored primask h)
      ∙ accesses_masked rest primask h)
    ∙ sym (map-append (mask_at primask) (depths (0 + 1) body) (depths 0 rest))

-- Critical sections nest: however they are nested, an access inside one is made with the interrupts
-- masked, an access outside all of them with PRIMASK as it was at first, and in the end PRIMASK
-- is what it was at first.
pub critical_sections-nested :
    (c : Code) (primask : ℕ)
    → primask < 2
    → (at_accesses c primask ≡ map (mask_at primask) (depths 0 c)) × (run c primask ≡ primask)
critical_sections-nested c primask h = (accesses_masked c primask h, run-same c primask h)
