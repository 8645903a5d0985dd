-- ===== src/Ddos/Table/Frame.antt =====
-- What the buckets of the table are when none is touched, one is touched, or all are new.
use uaflow.Prelude.{
  ℕ, zero, suc, ◌+◌, ◌<◌, ◌≤◌, ◌≡◌, refl, ◌∙◌, ◌⊎◌, inl, inr, Bool, true, false, List, [], ◌∷◌,
  arith, ==_refl, ne→==, In,
}
use native.Mathlib.Decide.{ℕ_discrete}
use uaflow.Dpdk.{lcore_max_slot}
use uaflow.Ddos.{node_list_max_sz}
use uaflow.Ddos.Items.{Ptr, Memory, init_list_head}
use uaflow.Ddos.Ring.{IsBucket, NotIn, Links, last}
use uaflow.Ddos.Table.{init_row, init_heads}

pub NotIn-In : (p : Ptr) (xs : List Ptr) → ¬ (In p xs) → NotIn p xs
NotIn-In p [] h = tt
NotIn-In p (x ∷ xs) h = (λ e. h (inl e), NotIn-In p xs (λ there. h (inr there)))

pub last-or : (x : Ptr) (xs : List Ptr) → (last x xs ≡ x) ⊎ In (last x xs) xs
last-or x [] = inl refl
last-or x (y ∷ ys) = elim (last-or y ys) [ inl e ↦ inr (inl e) | inr there ↦ inr (inr there) ]

Links-same :
    {next next' : Ptr → Ptr} (head x : Ptr) (xs : List Ptr)
    → ((p : Ptr) → (p ≡ x) ⊎ In p xs → next' p ≡ next p)
    → Links next head x xs
    → Links next' head x xs
Links-same head x [] same l = same x (inl refl) ∙ l
Links-same head x (y ∷ ys) same l =
    (same x (inl refl) ∙ l.0, l.1, l.2, Links-same head y ys (λ p h. same p (inr h)) l.3)

-- Where the links of a bucket are as before, it is as before.
pub IsBucket-same :
    {m m' : Memory} (head : Ptr) (xs : List Ptr)
    → ((p : Ptr) → (p ≡ head) ⊎ In p xs → m'.next p ≡ m.next p)
    → m'.prev head ≡ m.prev head
    → IsBucket m head xs
    → IsBucket m' head xs
IsBucket-same head xs next prev b = record {
  forward = Links-same head head xs next b.forward;
  backward = prev ∙ b.backward;
  outside = b.outside;
  distinct = b.distinct;
}

-- A head that leads to itself both ways.
abbrev IsAlone : Memory → Ptr → Type 0
IsAlone m p = (m.next p ≡ p) × (m.prev p ≡ p)

init_list_head-IsAlone : (p : Ptr) (m : Memory) → IsAlone (init_list_head p m) p
unfolding init_list_head
init_list_head-IsAlone p m = rw (==_refl p) (refl, refl)

IsAlone-init_list_head : (p q : Ptr) (m : Memory) → IsAlone m q → IsAlone (init_list_head p m) q
unfolding init_list_head
IsAlone-init_list_head p q m h = elim (ℕ_discrete p q) [
  | yes e ↦ rw e (rw (==_refl q) (refl, refl))
  | no ne ↦ rw (ne→== p q ne) h
]

module _ (head : (is_v6 : Bool) → (coreid slot : ℕ) → Ptr) where
  init_row-keeps :
      (i n j : ℕ) (m : Memory) (q : Ptr) → IsAlone m q → IsAlone (init_row head i n j m) q
  unfolding init_row
  init_row-keeps i zero j m q h = h
  init_row-keeps i (suc n) j m q h =
      let first = init_list_head (head false i j) m in
      init_row-keeps i n (j + 1) (init_list_head (head true i j) first) q (
        IsAlone-init_list_head (head true i j) q first
          (IsAlone-init_list_head (head false i j) q m h))

  init_row-IsAlone :
      (i n j : ℕ) (m : Memory) (is_v6 : Bool) (k : ℕ)
      → j ≤ k
      → k < j + n
      → IsAlone (init_row head i n j m) (head is_v6 i k)
  unfolding init_row
  init_row-IsAlone i zero j m is_v6 k low high = absurd (omega arith)
  init_row-IsAlone i (suc n) j m is_v6 k low high =
      let first = init_list_head (head false i j) m in
      let both = init_list_head (head true i j) first in
      elim (ℕ_discrete j k) [
        | no ne ↦ init_row-IsAlone i n (j + 1) both is_v6 k (omega arith) (omega arith)
        | yes e ↦ rw (← e) (init_row-keeps i n (j + 1) both (head is_v6 i j) (alone is_v6))
      ]
    where
      alone :
          (v : Bool)
          → IsAlone
              (init_list_head (head true i j) (init_list_head (head false i j) m))
              (head v i j)
      alone true = init_list_head-IsAlone (head true i j) (init_list_head (head false i j) m)
      alone false =
          IsAlone-init_list_head (head true i j) (head false i j)
            (init_list_head (head false i j) m) (init_list_head-IsAlone (head false i j) m)

  init_heads-keeps :
      (n i : ℕ) (m : Memory) (q : Ptr) → IsAlone m q → IsAlone (init_heads head n i m) q
  unfolding init_heads
  init_heads-keeps zero i m q h = h
  init_heads-keeps (suc n) i m q h =
      init_heads-keeps n (i + 1) (init_row head i node_list_max_sz 0 m) q
        (init_row-keeps i node_list_max_sz 0 m q h)

  init_heads-IsAlone :
      (n i : ℕ) (m : Memory) (is_v6 : Bool) (k j : ℕ)
      → i ≤ k
      → k < i + n
      → j < node_list_max_sz
      → IsAlone (init_heads head n i m) (head is_v6 k j)
  unfolding init_heads
  init_heads-IsAlone zero i m is_v6 k j low high small = absurd (omega arith)
  init_heads-IsAlone (suc n) i m is_v6 k j low high small =
      let row = init_row head i node_list_max_sz 0 m in
      elim (ℕ_discrete i k) [
        | no ne ↦ init_heads-IsAlone n (i + 1) row is_v6 k j (omega arith) (omega arith) small
        | yes e ↦ rw (← e) (
            init_heads-keeps n (i + 1) row (head is_v6 i j)
              (init_row-IsAlone i node_list_max_sz 0 m is_v6 j (omega arith) (omega arith)))
      ]

  -- After `flow_ddos_module_init`, the bucket of every core and every hash is an empty circular
  -- list in both tables, whatever was in the memory before.
  pub init_heads-IsBucket :
      (m : Memory) (is_v6 : Bool) (k j : ℕ)
      → k < lcore_max_slot
      → j < node_list_max_sz
      → IsBucket (init_heads head lcore_max_slot 0 m) (head is_v6 k j) []
  init_heads-IsBucket m is_v6 k j core small =
      let (next, prev) = init_heads-IsAlone lcore_max_slot 0 m is_v6 k j (omega arith) core small in
      record { forward = next; backward = prev; outside = tt; distinct = tt }
