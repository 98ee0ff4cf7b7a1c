-- ===== src/Startup.antt =====
-- code/qemu-cortex-m/common/startup.c: the vector table and what `Reset_Handler` does to memory before
-- `main`. A pointer is its address; memory holds a word at each multiple of four.
pub mod Reset
mod Tests
use embedded_systems_resourc.Base.{
  ℕ, zero, suc, ◌+◌, Option, none, some, true, false, List, [], ◌∷◌, ◌++◌, ltb, ◌==◌, if◌then◌else◌,
  u32, replicate,
}

-- The linker's symbols.
pub record Symbols : Type 0 where
  pub sidata : ℕ
  pub sdata : ℕ
  pub edata : ℕ
  pub sbss : ℕ
  pub ebss : ℕ
  pub estack : ℕ

abbrev pub Memory : Type 0
Memory = ℕ → ℕ

-- `*at = v`
abbrev pub store : Memory → ℕ → ℕ → Memory
store m at v = λ a. if a == at then v else m a

module _ (s : Symbols) where
  -- The copy loop, with rounds left: `none` when they run out.
  unfoldable pub copy : ℕ → ℕ → ℕ → Memory → Option Memory
  copy zero src dst m = none
  copy (suc fuel) src dst m =
      let rest = copy fuel (u32 (src + 4)) (u32 (dst + 4)) (store m dst (m src)) in
      if ltb dst s.edata then rest else some m

  -- The zeroing loop.
  unfoldable pub clear : ℕ → ℕ → Memory → Option Memory
  clear zero dst m = none
  clear (suc fuel) dst m =
      let rest = clear fuel (u32 (dst + 4)) (store m dst 0) in
      if ltb dst s.ebss then rest else some m

  -- What `main` finds; the end addresses bound the rounds.
  unfoldable pub reset_handler : Memory → Option Memory
  reset_handler m = elim (copy (s.edata + 1) s.sidata s.sdata m) [
    | none ↦ none
    | some m' ↦ clear (s.ebss + 1) s.sbss m'
  ]

-- What an entry of the vector table holds.
pub data Vector : Type 0 where
  stack : (top : ℕ) → Vector
  reset nmi hard_fault mem_manage bus_fault usage_fault svc debug_mon pend_sv sys_tick : Vector
  gpioa uart0 timer0a : Vector
  reserved : Vector

-- `g_vectors`
abbrev pub vectors : Symbols → List Vector
vectors s =
    Vector.stack s.estack
    ∷ Vector.reset
    ∷ Vector.nmi
    ∷ Vector.hard_fault
    ∷ Vector.mem_manage
    ∷ Vector.bus_fault
    ∷ Vector.usage_fault
    ∷ (replicate 4 Vector.reserved
        ++ (Vector.svc
            ∷ Vector.debug_mon
            ∷ Vector.reserved
            ∷ Vector.pend_sv
            ∷ Vector.sys_tick
            ∷ Vector.gpioa
            ∷ (replicate 4 Vector.reserved
                ++ (Vector.uart0
                    ∷ (replicate 9 Vector.reserved
                        ++ (replicate 5 Vector.reserved
                            ++ (Vector.reserved ∷ Vector.reserved ∷ Vector.timer0a ∷ [])))))))
