-- ===== src/Dpdk/Aliq.antt =====
-- `flow_dpdk_module_getaliq`: the queue mask that the default sender uses.
use native.Mathlib.Nat.{one-le-pow, mod-lt}
use uaflow.Prelude.{
  ℕ, zero, suc, ◌-◌, ◌^◌, ◌≤◌, ◌<◌, ◌≡◌, refl, ◌≢◌, ap, inl, inr, Bool, true, false, bit_and, arith,
  Bool-cases,
}
use uaflow.Prelude.Bits.{bit_and-ones}
use uaflow.Prelude.Int.{pos, negsuc}
use uaflow.Dpdk.{getaliq}

-- The documented behaviour of `rte_is_power_of_2`.
pub record PowerTest : Type 0 where
  pub test : ℕ → Bool
  pub sound : (n : ℕ) → test n ≡ true → (k : ℕ) × (n ≡ 2 ^ k)
  pub complete : (k : ℕ) → test (2 ^ k) ≡ true

module _ (t : PowerTest) where
  ne-two-pow : (n j : ℕ) → t.test n ≡ false → n ≢ 2 ^ j
  ne-two-pow n j e same = cc (e, ap t.test same, t.complete j)

  -- For a positive number of queues the result is one less than the largest power of two that is
  -- no larger than that number.
  pub getaliq-largest :
      (n : ℕ)
      → 0 < n
      → (k : ℕ) × (getaliq t.test n ≡ pos (2 ^ k - 1))
        × (2 ^ k ≤ n)
        × ((j : ℕ) → 2 ^ j ≤ n → 2 ^ j ≤ 2 ^ k)
  unfolding getaliq
  getaliq-largest zero h = absurd (omega arith)
  getaliq-largest (suc zero) h = rw (t.complete 0) (0, refl, omega arith, λ j p. p)
  getaliq-largest (suc (suc n)) h = elim (Bool-cases (t.test (suc (suc n)))) [
    | inl e ↦
        let (k, same) = t.sound (suc (suc n)) e in
        rw e (k, ap pos (omega arith), omega arith, λ j p. omega arith)
    | inr e ↦
        let (k, result, below, largest) = getaliq-largest (suc n) (omega arith) in
        rw e
          (k, result, omega arith, λ j p. largest j (omega (arith, ne-two-pow (suc (suc n)) j e)))
  ]

  -- Whatever byte is masked with the result for a positive number of queues, the queue that is
  -- chosen is one of them.
  pub bit_and-getaliq :
      (n byte : ℕ) → 0 < n → (mask : ℕ) × (getaliq t.test n ≡ pos mask) × (bit_and byte mask < n)
  bit_and-getaliq n byte h =
      let (k, result, below, _) = getaliq-largest n h in
      let pos = one-le-pow k 2 (omega arith) in
      (2 ^ k - 1, result, omega (arith, bit_and-ones k byte, mod-lt byte pos))

  -- With no queue the result is -2: the 1 that is stored before the label is lost.
  pub getaliq-zero : getaliq t.test 0 ≡ negsuc 1
  unfolding getaliq
  getaliq-zero = elim (Bool-cases (t.test 0)) [
    | inl e ↦ let (k, same) = t.sound 0 e in absurd (omega (arith, one-le-pow k 2 (omega arith)))
    | inr e ↦ rw e
  ]
