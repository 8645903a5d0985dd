-- ===== src/Ddos/Table/UpTo.antt =====
-- The items of a bucket up to one of them.
use uaflow.Ddos.Cut.{NotIn-right}
use uaflow.Ddos.Ring.{NotIn, Distinct}
use uaflow.Prelude.{
  Bool-cases, ==_refl, ◌==◌, ◌≤◌, ap, In, ◌≡◌, refl, inl, inr, List, [], ◌∷◌, ◌++◌, arith, ne→==,
  length,
}
use uaflow.Ddos.Items.{Ptr}
use uaflow.Ddos.Table.{up_to}

pub up_to-append :
    (item : Ptr) (xs ys : List Ptr)
    → Distinct (xs ++ item ∷ ys)
    → up_to item (xs ++ item ∷ ys) ≡ xs ++ item ∷ []
unfolding up_to
up_to-append item [] ys d = rw (==_refl item) refl
up_to-append item (x ∷ xs) ys d =
    let out : NotIn x (item ∷ ys) = NotIn-right x xs (item ∷ ys) d.0 in
    rw (ne→== x item out.0) (ap (λ l. x ∷ l) (up_to-append item xs ys d.1))

pub In-up_to : (item x : Ptr) (xs : List Ptr) → In x (up_to item xs) → In x xs
unfolding up_to
In-up_to item x [] h = h
In-up_to item x (y ∷ xs) h = elim (Bool-cases (y == item)) [
  | inl e ↦
      let own : In x (y ∷ []) = rw (e, up_to) at h in
      elim own [ inl here ↦ inl here | inr gone ↦ absurd gone ]
  | inr e ↦
      let own : In x (y ∷ up_to item xs) = rw (e, up_to) at h in
      elim own [ inl here ↦ inl here | inr later ↦ inr (In-up_to item x xs later) ]
]

pub length-up_to : (item : Ptr) (xs : List Ptr) → length (up_to item xs) ≤ length xs
unfolding up_to
length-up_to item [] = omega arith
length-up_to item (x ∷ xs) = ground (arith, length-up_to item xs)
