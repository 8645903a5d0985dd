-- ===== src/Dpdk/Cores.antt =====
-- `flow_dpdk_module_init`: the workers' cores and the core of the default sender.
use uaflow.Prelude.{ℕ, ◌-◌, ◌^◌, ◌<◌, ◌≡◌, ◌⊎◌, Bool, true, arith}
use uaflow.Dpdk.{ok, lcore_max_slot, init}

-- The numbers of processors with a case of their own.
abbrev pub IsKnown : ℕ → Type 0
IsKnown n = (n ≡ 4) ⊎ (n ≡ 6) ⊎ (n ≡ 8) ⊎ (n ≡ 12) ⊎ (n ≡ 16) ⊎ (n ≡ 18) ⊎ (n ≡ 24) ⊎ (n ≡ 32)

module _ (eal_init : ℕ → Bool) (n : ℕ) where
  -- Where the number of processors has a case of its own and the EAL accepts the mask, the cores
  -- 0 to n - 2 go to DPDK and the default sender gets the one that is left, core n - 1.
  pub init-known :
      IsKnown n → eal_init (2 ^ (n - 1) - 1) ≡ true → init eal_init n ≡ ok (2 ^ (n - 1) - 1, n - 1)
  unfolding init
  init-known known accepted = ground arith

  -- Whatever the number of processors, where the initialisation succeeds the default sender's core
  -- is one of the 32 that the arrays have an entry for.
  pub init-bounds : {mask core : ℕ} → init eal_init n ≡ ok (mask, core) → core < lcore_max_slot
  unfolding init
  init-bounds h = ground arith
