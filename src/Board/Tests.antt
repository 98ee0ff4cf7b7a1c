-- ===== src/Board/Tests.antt =====
-- Critical sections one inside the other, and a host without SYS_EXIT_EXTENDED.
use embedded_systems_resourc.Base.{
  ◌≡◌, refl, none, some, [], ◌∷◌, true, false, ◌==◌, if◌then◌else◌, arith,
}
use mathlib.Core.List.{map}
use embedded_systems_resourc.Board.Critical.{
  Code, done, access, section, run, at_accesses, depths, mask_at, critical_sections-nested,
}
use embedded_systems_resourc.Board.Semihost.{
  Host, sys_exit, exited, semihost_exit, semihost_exit_lem,
}

-- An access, and a section with an access before and after a section inside it.
abbrev nested : Code
nested = access (section (access (section (access done) (access done))) (access done))

critical_sections-nested_example :
    (at_accesses nested 0 ≡ map (mask_at 0) (depths 0 nested)) × (run nested 0 ≡ 0)
critical_sections-nested_example = critical_sections-nested nested 0 (omega arith)

nested_masks : at_accesses nested 0 ≡ 0 ∷ 1 ∷ 1 ∷ 1 ∷ 0 ∷ []
unfolding at_accesses run
nested_masks = refl

-- A host that knows SYS_EXIT alone.
abbrev old_host : Host
old_host op arg = if op == sys_exit then some 0 else none

-- A program that failed ends with 0 there.
failed_ends_well : semihost_exit old_host 1 ≡ exited 0
failed_ends_well =
    semihost_exit_lem old_host false true 1
      (record { extended_exit = λ code. refl; plain_exit = refl })
