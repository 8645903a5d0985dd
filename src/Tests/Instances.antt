-- ===== src/Tests/Instances.antt =====
-- Values for the parameters of the model.
use uaflow.Prelude.{
  ℕ, zero, suc, ◌^◌, ◌≤◌, ◌<◌, ◌≡◌, refl, Bool, true, ◌||◌, Option, none, some, List, [], ◌∷◌, ◌++◌,
  arith, ltb, ◌==◌, ==_refl, ==_iff, if◌then◌else◌, length, Bool-cases, inl, inr,
}
use native.Mathlib.Nat.{pow-suc}
use native.Mathlib.Decide.{ℕ_discrete}
use uaflow.Dpdk.Aliq.{PowerTest}
use uaflow.Egress.{RingQueue, World, Device}

-- Is `n` one of the powers of two up to the `k`-th?
unfoldable pub is_power : ℕ → ℕ → Bool
is_power n zero = n == 1
is_power n (suc k) = (n == 2 ^ suc k) || is_power n k

pub is_power_sound : (n k : ℕ) → is_power n k ≡ true → (j : ℕ) × (n ≡ 2 ^ j)
unfolding is_power
is_power_sound n zero h = (0, (==_iff n 1).0 h)
is_power_sound n (suc k) h = elim (Bool-cases (n == 2 ^ suc k)) [
  | inl e ↦ (suc k, (==_iff n (2 ^ suc k)).0 e)
  | inr e ↦ is_power_sound n k (rw e at h)
]

pub is_power_complete : (j k : ℕ) → j ≤ k → is_power (2 ^ j) k ≡ true
unfolding is_power
is_power_complete zero zero h = refl
is_power_complete (suc j) zero h = absurd (omega arith)
is_power_complete j (suc k) h = elim (ℕ_discrete j (suc k)) [
  | yes e ↦ rw (e, ==_refl (2 ^ suc k))
  | no ne ↦ elim (Bool-cases (2 ^ j == 2 ^ suc k)) [
    | inl same ↦ rw same
    | inr other ↦ rw other (is_power_complete j k (omega arith))
  ]
]

pub lt-two-pow : (k : ℕ) → k < 2 ^ k
lt-two-pow zero = omega arith
lt-two-pow (suc k) = omega (arith, lt-two-pow k, pow-suc 2 k)

abbrev pub power_test : PowerTest
power_test = record {
  test = λ n. is_power n n;
  sound = λ n h. is_power_sound n n h;
  complete = λ k. is_power_complete k (2 ^ k) (omega (arith, lt-two-pow k));
}

-- A ring for two packets.
unfoldable pub small_enqueue : ℕ → List ℕ → Option (List ℕ)
small_enqueue p r = if ltb (length r) 2 then some (r ++ p ∷ []) else none

unfoldable pub small_dequeue : List ℕ → Option (ℕ × List ℕ)
small_dequeue [] = none
small_dequeue (p ∷ r) = some (p, r)

pub small_enqueue-append :
    (p : ℕ) (r : List ℕ) {r' : List ℕ} → small_enqueue p r ≡ some r' → r' ≡ r ++ p ∷ []
unfolding small_enqueue
small_enqueue-append p r h = ground arith

pub small_dequeue-cons :
    (r : List ℕ) {p : ℕ} {r' : List ℕ} → small_dequeue r ≡ some (p, r') → r ≡ p ∷ r'
unfolding small_dequeue
small_dequeue-cons [] h = cc
small_dequeue-cons (x ∷ r) h = ground arith

pub small_dequeue_empty : (r : List ℕ) → small_dequeue r ≡ none → r ≡ []
unfolding small_dequeue
small_dequeue_empty [] h = refl
small_dequeue_empty (x ∷ r) h = cc

abbrev pub small_ring : RingQueue
small_ring = record {
  Ring = List ℕ;
  items = λ r. r;
  enqueue = small_enqueue;
  dequeue = small_dequeue;
  items-enqueue = small_enqueue-append;
  items-dequeue = small_dequeue-cons;
  items_empty = small_dequeue_empty;
}

-- A device whose port 1 takes packets, and whose other ports take none.
abbrev pub port_one : Device small_ring
port_one w port queue p = port == 1

-- One packet waits in the ring.
abbrev pub waiting : World small_ring
waiting = record { ring = 7 ∷ []; sent = []; freed = [] }
