-- ===== src/Examples/Priority/Nesting.antt =====
-- What the handler of low priority and the ones that interrupt it leave behind.
use embedded_systems_resourc.Base.{
  ℕ, zero, suc, ◌+◌, ◌^◌, ◌<◌, ◌≡◌, refl, sym, ap, ◌∙◌, ◌≢◌, true, false, [], ◌∷◌, arith, ◌==◌,
  if◌then◌else◌, u32, sub32, codes, ne→==_false,
}
use embedded_systems_resourc.Uart.{puts, put_u32}
use embedded_systems_resourc.Base.{printed}
use embedded_systems_resourc.Examples.Priority.{Globals, systick_handler, ticks, uart0_handler}

ticks-append : (n m : ℕ) (g : Globals) → ticks m (ticks n g) ≡ ticks (n + m) g
unfolding ticks
ticks-append zero m g = let same : m ≡ 0 + m = omega arith in ap (λ k. ticks k g) same
ticks-append (suc n) m g =
    let more : suc (n + m) ≡ suc n + m = omega arith in
    ticks-append n m (systick_handler g) ∙ ap (λ k. ticks k g) more

pub ticks-count :
    (n : ℕ) (g : Globals)
    → g.systick_count + n < 2 ^ 32
    → (ticks n g).systick_count ≡ g.systick_count + n
unfolding ticks systick_handler
ticks-count zero g h = omega arith
ticks-count (suc n) g h = ticks-count n (systick_handler g) (omega arith) ∙ omega arith

pub ticks-others :
    (n : ℕ) (g : Globals)
    → ((ticks n g).low_prio_entered ≡ g.low_prio_entered)
      × ((ticks n g).in_low_prio ≡ g.in_low_prio)
unfolding ticks systick_handler
ticks-others zero g = (refl, refl)
ticks-others (suc n) g = ticks-others n (systick_handler g)

-- A mark once set stays.
ticks-marked :
    (n : ℕ) (g : Globals)
    → g.in_low_prio ≡ true
    → g.preempted_at ≢ 0
    → (ticks n g).preempted_at ≡ g.preempted_at
unfolding ticks systick_handler
ticks-marked zero g low set = refl
ticks-marked (suc n) g low set =
    let kept : (systick_handler g).preempted_at ≡ g.preempted_at =
      rw (low, ne→==_false g.preempted_at 0 set) refl in
    ticks-marked n (systick_handler g) low (λ e. set (sym kept ∙ e)) ∙ kept

-- The first interruption sets it.
ticks-mark :
    (n : ℕ) (g : Globals)
    → g.in_low_prio ≡ true
    → g.preempted_at ≡ 0
    → g.systick_count + n < 2 ^ 32
    → (ticks n g).preempted_at ≡ (if n == 0 then 0 else g.systick_count + 1)
unfolding ticks systick_handler
ticks-mark zero g low clear h = clear
ticks-mark (suc n) g low clear h =
    let marks : (systick_handler g).preempted_at ≡ g.systick_count + 1 =
      rw (low, clear) (omega arith) in
    ticks-marked n (systick_handler g) low (λ e. absurd (omega (arith, marks, e)))
    ∙ marks
    ∙ ap (λ b. if b then 0 else g.systick_count + 1) (sym (ne→==_false (suc n) 0 (omega arith)))

-- Outside the handler SysTick records no preemption.
pub ticks-unmarked :
    (n : ℕ) (g : Globals) → g.in_low_prio ≡ false → (ticks n g).preempted_at ≡ g.preempted_at
unfolding ticks systick_handler
ticks-unmarked zero g out = refl
ticks-unmarked (suc n) g out =
    let same : (systick_handler g).preempted_at ≡ g.preempted_at = rw out refl in
    ticks-unmarked n (systick_handler g) out ∙ same

-- `UART0_Handler`, entered with no interruption recorded, counts its entry and is not in progress when
-- it returns; `g_preempted_at` is the tick of the first SysTick that interrupted it before it
-- cleared its flag, or 0 when none did; and it reports how many came while it was busy, for counts
-- that do not wrap.
pub uart0_handler-preempted :
    (before busy leaving printing : ℕ) (g : Globals)
    → g.preempted_at ≡ 0
    → g.systick_count + (before + busy + leaving + printing) < 2 ^ 32
    → let (g', text) = uart0_handler before busy leaving printing g in
      (g'.systick_count ≡ g.systick_count + (before + busy + leaving + printing))
      × (g'.low_prio_entered ≡ u32 (g.low_prio_entered + 1))
      × (g'.in_low_prio ≡ false)
      × (g'.preempted_at ≡ (if before + busy + leaving == 0 then 0 else g.systick_count + 1))
      × (text
          ≡ printed (
              puts (codes "  [UART0 ISR] ran while SysTick advanced ")
              ∷ put_u32 busy
              ∷ puts (codes " ticks -> it preempted me\n")
              ∷ []))
unfolding uart0_handler
uart0_handler-preempted before busy leaving printing g clear h =
    let entered : Globals = record g {
      low_prio_entered = u32 (g.low_prio_entered + 1);
      in_low_prio = true;
    } in
    let nested = before + busy + leaving in
    let joined : ticks leaving (ticks busy (ticks before entered)) ≡ ticks nested entered =
      ap (ticks leaving) (ticks-append before busy entered)
      ∙ ticks-append (before + busy) leaving entered in
    let left : Globals = record (ticks leaving (ticks busy (ticks before entered))) {
      in_low_prio = false;
    } in
    let at_first = ticks-count before entered (omega arith) in
    let at_last = ticks-count busy (ticks before entered) (omega arith) in
    let passed : sub32 (ticks busy (ticks before entered)).systick_count
          (ticks before entered).systick_count
        ≡ busy =
      omega arith in
    let count : left.systick_count ≡ g.systick_count + nested =
      ap (λ (r : Globals). r.systick_count) joined ∙ ticks-count nested entered (omega arith) in
    let (once, out) = ticks-others printing left in
    (
      ticks-count printing left (omega (arith, count)) ∙ omega (arith, count),
      once ∙ ap (λ (r : Globals). r.low_prio_entered) joined ∙ (ticks-others nested entered).0,
      out,
      ticks-unmarked printing left refl
          ∙ ap (λ (r : Globals). r.preempted_at) joined
          ∙ ticks-mark nested entered refl clear (omega arith),
      ap
          (λ n. printed (
            puts (codes "  [UART0 ISR] ran while SysTick advanced ")
            ∷ put_u32 n
            ∷ puts (codes " ticks -> it preempted me\n")
            ∷ []))
          passed,
    )
