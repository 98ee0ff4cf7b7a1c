-- ===== src/Startup/Reset.antt =====
-- What the loops of Reset_Handler leave in memory.
use embedded_systems_resourc.Base.{
  Bool, ℕ, zero, suc, ◌+◌, ◌-◌, ◌*◌, ◌/◌, ◌%◌, ◌^◌, ◌≤◌, ◌<◌, ◌≡◌, ap, ◌∙◌, ◌⊎◌, none, some, arith,
  ltb, leb, ◌&&◌, if◌then◌else◌, u32, lt→ltb, dec_lt, ℕ_discrete,
}
use embedded_systems_resourc.Startup.{Symbols, Memory, store, copy, clear, reset_handler}

-- Whether an address is in a section.
abbrev pub within : ℕ → ℕ → ℕ → Bool
within from end a = leb from a && ltb a end

-- The linker's promises: aligned sections below the end of memory, the image in flash apart from .data,
-- and .data apart from .bss.
pub record LaidOut (s : Symbols) : Type 0 where
  pub data_aligned : (s.sdata % 4 ≡ 0) × (s.edata % 4 ≡ 0)
  pub bss_aligned : (s.sbss % 4 ≡ 0) × (s.ebss % 4 ≡ 0)
  pub image_aligned : s.sidata % 4 ≡ 0
  pub ends : (s.edata + 4 ≤ 2 ^ 32) × (s.ebss + 4 ≤ 2 ^ 32)
  pub starts : (s.sdata ≤ s.edata) × (s.sbss ≤ s.ebss)
  pub image_end : s.sidata + (s.edata - s.sdata) + 4 ≤ 2 ^ 32
  pub image_apart : (s.sidata + (s.edata - s.sdata) ≤ s.sdata) ⊎ (s.edata ≤ s.sidata)
  pub sections_apart : (s.edata ≤ s.sbss) ⊎ (s.ebss ≤ s.sdata)

module _ (s : Symbols) where
  clear_lem :
      (n fuel dst : ℕ) (m : Memory) (a : ℕ)
      → s.ebss ≡ dst + 4 * n
      → s.ebss + 4 ≤ 2 ^ 32
      → n < fuel
      → dst % 4 ≡ 0
      → a % 4 ≡ 0
      → (m' : Memory) × (clear s fuel dst m ≡ some m')
        × (m' a ≡ (if within dst s.ebss a then 0 else m a))
  unfolding clear
  clear_lem n zero dst m a e h p q r = absurd (omega arith)
  clear_lem zero (suc fuel) dst m a e h p q r = (m, ground arith, ground arith)
  clear_lem (suc n) (suc fuel) dst m a e h p q r =
      let (m', runs, at) =
        clear_lem n fuel (u32 (dst + 4)) (store m dst 0) a (omega arith) h (omega arith)
          (omega arith) r in
      (m', rw (clear, lt→ltb dst s.ebss (omega arith)) runs, ground (arith, at))

  -- One word copied, then the rest: what stands at `a`.
  copied_on :
      (n src dst : ℕ) (m : Memory) (a : ℕ)
      → s.edata ≡ dst + 4 * suc n
      → s.edata + 4 ≤ 2 ^ 32
      → src + 4 * suc n + 4 ≤ 2 ^ 32
      → dst % 4 ≡ 0
      → a % 4 ≡ 0
      → (src + 4 * suc n ≤ dst) ⊎ (s.edata ≤ src)
      → (if within (u32 (dst + 4)) s.edata a
          then store m dst (m src) (u32 (src + 4) + (a - u32 (dst + 4)))
          else store m dst (m src) a)
        ≡ (if within dst s.edata a then m (src + (a - dst)) else m a)
  copied_on n src dst m a e h hs q r apart = elim (dec_lt a (dst + 4)) [
    | yes below ↦ elim (ℕ_discrete a dst) [
      | yes first ↦ let here : src ≡ src + (a - dst) = omega arith in ground (arith, ap m here)
      | no before ↦ ground arith
    ]
    | no on ↦
        let next : u32 (src + 4) + (a - u32 (dst + 4)) ≡ src + (a - dst) = omega arith in
        ground (arith, ap m next)
  ]

  -- The words still to copy lie apart from where they go.
  copy_lem :
      (n fuel src dst : ℕ) (m : Memory) (a : ℕ)
      → s.edata ≡ dst + 4 * n
      → s.edata + 4 ≤ 2 ^ 32
      → src + 4 * n + 4 ≤ 2 ^ 32
      → n < fuel
      → dst % 4 ≡ 0
      → a % 4 ≡ 0
      → (src + 4 * n ≤ dst) ⊎ (s.edata ≤ src)
      → (m' : Memory) × (copy s fuel src dst m ≡ some m')
        × (m' a ≡ (if within dst s.edata a then m (src + (a - dst)) else m a))
  unfolding copy
  copy_lem n zero src dst m a e h hs p q r apart = absurd (omega arith)
  copy_lem zero (suc fuel) src dst m a e h hs p q r apart = (m, ground arith, ground arith)
  copy_lem (suc n) (suc fuel) src dst m a e h hs p q r apart =
      let m1 : Memory = store m dst (m src) in
      let (m', runs, at) =
        copy_lem n fuel (u32 (src + 4)) (u32 (dst + 4)) m1 a (omega arith) h (omega arith)
          (omega arith) (omega arith) r (omega arith) in
      (
        m',
        rw (copy, lt→ltb dst s.edata (omega arith)) runs,
        at ∙ copied_on n src dst m a e h hs q r apart,
      )

-- `Reset_Handler` reaches `main`, with .data holding the words of its image in flash, .bss all zero, and
-- every other word as it was: at each aligned address, for sections that the linker has aligned, kept
-- apart and placed below the end of memory.
pub reset_handler_lem :
    (s : Symbols) (m : Memory) (a : ℕ)
    → LaidOut s
    → a % 4 ≡ 0
    → (m' : Memory) × (reset_handler s m ≡ some m')
      × (m' a ≡ (
          if within s.sbss s.ebss a
          then 0
          else if within s.sdata s.edata a
          then m (s.sidata + (a - s.sdata))
          else m a))
unfolding reset_handler
reset_handler_lem s m a l r =
    let (m1, copies, at1) =
      copy_lem s ((s.edata - s.sdata) / 4) (s.edata + 1) s.sidata s.sdata m a
        (omega (arith, l.starts, l.data_aligned)) (omega (arith, l.ends))
        (omega (arith, l.image_end, l.starts, l.data_aligned)) (omega (arith, l.starts))
        (omega (arith, l.data_aligned)) r
        (omega (arith, l.image_apart, l.starts, l.data_aligned)) in
    let (m2, clears, at2) =
      clear_lem s ((s.ebss - s.sbss) / 4) (s.ebss + 1) s.sbss m1 a
        (omega (arith, l.starts, l.bss_aligned)) (omega (arith, l.ends)) (omega (arith, l.starts))
        (omega (arith, l.bss_aligned)) r in
    (
      m2,
      ap (λ r. elim r [ none ↦ none | some m' ↦ clear s (s.ebss + 1) s.sbss m' ]) copies ∙ clears,
      at2 ∙ ap (λ w. if within s.sbss s.ebss a then 0 else w) at1,
    )
