-- ===== src/Examples/Priority/Levels.antt =====
-- The priorities that `main` sets, on a core that keeps the top bits of a priority byte.
use embedded_systems_resourc.Base.{
  ℕ, zero, suc, ◌-◌, ◌/◌, ◌%◌, ◌^◌, ◌≤◌, ◌<◌, ◌≡◌, refl, ap, ◌∙◌, some, arith, Device, bit_and,
  ◌<<<◌, bit_or, bit_and_mask, bit_or_sum,
}
use embedded_systems_resourc.Board.{Accesses, last_written, nvic_ipr, irq_uart0, scb_shpr3}
use embedded_systems_resourc.Examples.Priority.{nvic_priority_bits}
use embedded_systems_resourc.Examples.Priority.Probe.{top_bits, nvic_priority_bits-top_bits}
use embedded_systems_resourc.Examples.Priority.Setup.{configure}

or_zero : (q : ℕ) → bit_or q 0 ≡ q
or_zero q = ap (λ x. bit_or x 0) (omega arith) ∙ bit_or_sum 0 q 0 (omega arith) ∙ omega arith

-- The numbers of bits, one by one: what `main` writes stays below SysTick, and the levels that collapse.
pub levels :
    (k : ℕ)
    → 1 ≤ k
    → k ≤ 8
    → (top_bits k 0 < top_bits k 0xe0) × (top_bits k (2 ^ (8 - k) - 1) ≡ top_bits k 0)
levels zero h l = absurd (omega arith)
levels (suc zero) h l = (omega arith, refl)
levels (suc (suc zero)) h l = (omega arith, refl)
levels (suc (suc (suc zero))) h l = (omega arith, refl)
levels (suc (suc (suc (suc zero)))) h l = (omega arith, refl)
levels (suc (suc (suc (suc (suc zero))))) h l = (omega arith, refl)
levels (suc (suc (suc (suc (suc (suc zero)))))) h l = (omega arith, refl)
levels (suc (suc (suc (suc (suc (suc (suc zero))))))) h l = (omega arith, refl)
levels (suc (suc (suc (suc (suc (suc (suc (suc zero)))))))) h l = (omega arith, refl)
levels (suc (suc (suc (suc (suc (suc (suc (suc (suc k))))))))) h l = absurd (omega arith)

pub shpr3_value :
    (hw : Device ℕ) (h : Accesses)
    → bit_or (bit_and (hw h scb_shpr3) 0x00ffffff) (0x00 <<< 24) ≡ hw h scb_shpr3 % 2 ^ 24
shpr3_value hw h = or_zero (bit_and (hw h scb_shpr3) 0x00ffffff) ∙ bit_and_mask 24 (hw h scb_shpr3)

-- On a core whose priority bytes keep their `k` top bits, from 1 to 8: the probe answers `k` and puts the
-- register back; `main` writes a lower priority for UART0 (a larger number once it is stored) than the
-- 0 that it leaves in the top byte of SHPR3, where SysTick's is, and the other bytes of SHPR3
-- stay; and the values 0x00 and 2 ^ (8 - k) - 1 that it prints are one level.
pub configured_priorities :
    (hw : Device ℕ) (h : Accesses) (k held : ℕ)
    → 1 ≤ k
    → k ≤ 8
    → top_bits k held ≡ held
    → (nvic_priority_bits (top_bits k) held ≡ (some k, held))
      × (last_written (nvic_ipr irq_uart0) (configure hw h) ≡ some 0xe0)
      × (last_written scb_shpr3 (configure hw h) ≡ some (hw h scb_shpr3 % 2 ^ 24))
      × (top_bits k (hw h scb_shpr3 % 2 ^ 24 / 2 ^ 24) < top_bits k 0xe0)
      × (top_bits k (2 ^ (8 - k) - 1) ≡ top_bits k 0)
unfolding configure
configured_priorities hw h k held some_bit few kept =
    let (below, one_level) = levels k some_bit few in
    let top : hw h scb_shpr3 % 2 ^ 24 / 2 ^ 24 ≡ 0 = omega arith in
    (
      nvic_priority_bits-top_bits k held few kept,
      refl,
      ap some (shpr3_value hw h),
      rw top below,
      one_level,
    )
