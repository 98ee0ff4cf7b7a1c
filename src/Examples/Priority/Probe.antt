-- ===== src/Examples/Priority/Probe.antt =====
-- The probe of nvic_priority_bits on a register that keeps some bits.
use embedded_systems_resourc.Base.{
  ℕ, zero, suc, ◌-◌, ◌*◌, ◌/◌, ◌%◌, ◌^◌, ◌≤◌, ◌≡◌, refl, ap₂, some, arith,
}
use embedded_systems_resourc.Examples.Priority.{count_bits, nvic_priority_bits}

-- A register with the `k` top bits of a byte: the others read as zero.
abbrev pub top_bits : ℕ → ℕ → ℕ
top_bits k v = v / 2 ^ (8 - k) * 2 ^ (8 - k) % 2 ^ 8

probe : (k : ℕ) → k ≤ 8 → count_bits 9 (top_bits k 0xff) 0 ≡ some k
unfolding count_bits
probe zero h = refl
probe (suc zero) h = refl
probe (suc (suc zero)) h = refl
probe (suc (suc (suc zero))) h = refl
probe (suc (suc (suc (suc zero)))) h = refl
probe (suc (suc (suc (suc (suc zero))))) h = refl
probe (suc (suc (suc (suc (suc (suc zero)))))) h = refl
probe (suc (suc (suc (suc (suc (suc (suc zero))))))) h = refl
probe (suc (suc (suc (suc (suc (suc (suc (suc zero)))))))) h = refl
probe (suc (suc (suc (suc (suc (suc (suc (suc (suc k))))))))) h = absurd (omega arith)

-- On a core whose priority registers keep the `k` top bits of a byte, `nvic_priority_bits` answers `k`,
-- and the register holds what it held before.
pub nvic_priority_bits-top_bits :
    (k held : ℕ)
    → k ≤ 8
    → top_bits k held ≡ held
    → nvic_priority_bits (top_bits k) held ≡ (some k, held)
unfolding nvic_priority_bits
nvic_priority_bits-top_bits k held h kept = ap₂ (λ a b. (a, b)) (probe k h) kept
