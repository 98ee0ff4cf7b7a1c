-- ===== src/Examples/MemoryMap/Ready.antt =====
-- The tests of example 01 on its variables, after Reset_Handler.
use embedded_systems_resourc.Base.{
  ℕ, ◌+◌, ◌-◌, ◌%◌, ◌≤◌, ◌<◌, ◌≡◌, sym, ap, ap₂, ◌⊎◌, ◌∙◌, true, false, some, arith, ◌&&◌,
  if◌then◌else◌, codes, lt→ltb, le→leb,
}
use embedded_systems_resourc.Uart.{puts}
use embedded_systems_resourc.Startup.{Symbols, Memory, reset_handler}
use embedded_systems_resourc.Startup.Reset.{LaidOut, within, reset_handler_lem}
use embedded_systems_resourc.Examples.MemoryMap.{Places, copied_text, zeroed_text}

inside : (from end a : ℕ) → from ≤ a → a < end → within from end a ≡ true
inside from end a h k = ap₂ ◌&&◌ (le→leb from a h) (lt→ltb a end k)

outside :
    (s : Symbols) (a : ℕ)
    → (s.edata ≤ s.sbss) ⊎ (s.ebss ≤ s.sdata)
    → s.sdata ≤ a
    → a < s.edata
    → within s.sbss s.ebss a ≡ false
outside s a apart h k = ground arith

-- Started from a flash image that holds 0xDEADBEEF for `g_initialised`, with `g_initialised` placed in
-- .data and `g_zeroed` in .bss, both at aligned addresses, `Reset_Handler` reaches `main`, whose
-- tests of the two variables print that the copy and the zeroing went well.
pub reset_handler-main_text :
    (s : Symbols) (places : Places) (flash : Memory)
    → LaidOut s
    → (places.initialised % 4 ≡ 0) × (s.sdata ≤ places.initialised) × (places.initialised < s.edata)
    → (places.zeroed % 4 ≡ 0) × (s.sbss ≤ places.zeroed) × (places.zeroed < s.ebss)
    → flash (s.sidata + (places.initialised - s.sdata)) ≡ 0xdeadbeef
    → (m : Memory) × (reset_handler s flash ≡ some m)
      × (copied_text (m places.initialised) ≡ puts (codes "   (copied OK)\n"))
      × (zeroed_text (m places.zeroed) ≡ puts (codes "   (zeroed OK)\n"))
unfolding copied_text zeroed_text
reset_handler-main_text s places flash laid (ai, bi, ci) (az, bz, cz) image =
    let (m, ran, data_word) = reset_handler_lem s flash places.initialised laid ai in
    let (m', ran', bss_word) = reset_handler_lem s flash places.zeroed laid az in
    let same : m' ≡ m = cc in
    let copied : m places.initialised ≡ 0xdeadbeef =
      data_word
      ∙ ap₂
          (λ b d.
            if b
            then 0
            else if d
            then flash (s.sidata + (places.initialised - s.sdata))
            else flash places.initialised)
          (outside s places.initialised (laid.sections_apart) bi ci)
          (inside s.sdata s.edata places.initialised bi ci)
      ∙ image in
    let cleared : m places.zeroed ≡ 0 =
      ap (λ (n : Memory). n places.zeroed) (sym same)
      ∙ bss_word
      ∙ ap
          (λ b.
            if b
            then 0
            else if within s.sdata s.edata places.zeroed
            then flash (s.sidata + (places.zeroed - s.sdata))
            else flash places.zeroed)
          (inside s.sbss s.ebss places.zeroed bz cz) in
    (m, ran, ap copied_text copied, ap zeroed_text cleared)
