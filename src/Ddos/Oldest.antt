-- ===== src/Ddos/Oldest.antt =====
-- Which item the loop over a bucket takes for the oldest one.
use uaflow.Prelude.{
  ℕ, ◌+◌, ◌≤◌, ◌<◌, ◌≡◌, refl, ap, ◌⊎◌, inl, inr, List, [], ◌∷◌, ◌++◌, arith, lt→ltb, le→ltb, ne→==,
  In,
}
use native.Mathlib.Decide.{dec_lt}
use uaflow.Ddos.Items.{Ptr, Node}
use uaflow.Ddos.Scan.{search_items, Unknown}
use uaflow.Ddos.Late.{AllLate}

-- An item of the list that was last seen no later than any other, and before `mtime`, with the items
-- in front of it and behind it.
pub record Oldest (node : ℕ → Node) (mtime : ℕ) (xs : List Ptr) (item : Ptr) : Type 0 where
  pub front : List Ptr
  pub back : List Ptr
  pub place : xs ≡ front ++ item ∷ back
  pub early : (node item).modtime < mtime
  pub least : (x : Ptr) → In x xs → (node item).modtime ≤ (node x).modtime

-- The loop over items that are not the source's ends with the oldest item, or with what it began
-- with if all are late.
pub search_items-Oldest :
    (node : ℕ → Node) (addr : ℕ) (xs : List Ptr) (mtime cnt : ℕ) (old : Ptr)
    → Unknown node addr xs
    → (AllLate node mtime xs × ((search_items node addr xs mtime cnt old).old ≡ old))
      ⊎ ((item : Ptr) × Oldest node mtime xs item
          × ((search_items node addr xs mtime cnt old).old ≡ item))
unfolding search_items
search_items-Oldest node addr [] mtime cnt old u = inl (λ x there. absurd there, refl)
search_items-Oldest node addr (x ∷ xs) mtime cnt old u =
    let other = ne→== (node x).addr addr u.0 in
    elim (dec_lt (node x).modtime mtime) [
      | yes early ↦
          let older = lt→ltb (node x).modtime mtime early in
          elim (search_items-Oldest node addr xs (node x).modtime (cnt + 1) x u.1) [
            | inl (late, same) ↦ inr (
              x,
              record {
                front = [];
                back = xs;
                place = refl;
                early = early;
                least =
                    λ y there. elim there [ inl e ↦ rw e (omega arith) | inr later ↦ late y later ];
              },
              rw (other, older, search_items) same,
            )
            | inr (item, o, same) ↦ inr (
              item,
              record {
                front = x ∷ o.front;
                back = o.back;
                place = ap (λ ys. x ∷ ys) o.place;
                early = omega (arith, o.early);
                least = λ y there. elim there [
                  | inl e ↦ rw e (omega (arith, o.early))
                  | inr later ↦ o.least y later
                ];
              },
              rw (other, older, search_items) same,
            )
          ]
      | no late ↦
          let newer = le→ltb (node x).modtime mtime (omega arith) in
          elim (search_items-Oldest node addr xs mtime (cnt + 1) old u.1) [
            | inl (all, same) ↦ inl (
              λ y there. elim there [ inl e ↦ rw e (omega arith) | inr later ↦ all y later ],
              rw (other, newer, search_items) same,
            )
            | inr (item, o, same) ↦ inr (
              item,
              record {
                front = x ∷ o.front;
                back = o.back;
                place = ap (λ ys. x ∷ ys) o.place;
                early = o.early;
                least = λ y there. elim there [
                  | inl e ↦ rw e (omega (arith, o.early))
                  | inr later ↦ o.least y later
                ];
              },
              rw (other, newer, search_items) same,
            )
          ]
    ]
