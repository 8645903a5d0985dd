-- ===== src/Ddos/Full.antt =====
-- All that can become of a full bucket.
use uaflow.Prelude.{
  ℕ, ◌<◌, ◌≡◌, refl, sym, ◌∙◌, ◌≢◌, ◌⊎◌, inl, inr, List, [], ◌∷◌, ◌++◌, length, In, In-append_right,
}
use uaflow.Ddos.Items.{Ptr, null, Node, Memory, fault}
use uaflow.Ddos.{Call, Probe, v4detect, v6detect, everynode_entry_max_sz, mtime_max, full}
use uaflow.Ddos.Ring.{Links, IsBucket, last, last-append}
use uaflow.Ddos.Scan.{search_items, Unknown}
use uaflow.Ddos.Late.{AllLate, detect-AllLate}
use uaflow.Ddos.Oldest.{Oldest, search_items-Oldest}
use uaflow.Ddos.Detect.{Joined}
use uaflow.Ddos.Cut.{detect-cut}
use uaflow.Ddos.Reuse.{Wedges, detect-Wedges}

pub Links-In :
    (next : Ptr → Ptr) (head x : Ptr) (xs : List Ptr)
    → Links next head x xs
    → (p : Ptr) → In p xs
    → (p ≢ head) × (p ≢ null)
Links-In next head x [] l p there = absurd there
Links-In next head x (y ∷ ys) l p (inl e) = rw e (l.1, l.2)
Links-In next head x (y ∷ ys) l p (inr there) = Links-In next head y ys l.3 p there

pub Oldest-In :
    {node : ℕ → Node} {mtime : ℕ} {xs : List Ptr} {item : Ptr}
    → Oldest node mtime xs item
    → In item xs
Oldest-In {item} o = rw o.place (In-append_right item o.front (item ∷ o.back) (inl refl))

module _ (fuel : ℕ) (c : Call) (p : Probe) (m : Memory) (xs : List Ptr)
    (bucket : IsBucket m c.head xs) (enough : length xs < fuel) where
  -- The bucket ends behind its oldest item, and no detector forgets or keeps anything else of it.
  pub record CutAt (item : Ptr) : Type 0 where
    pub front : List Ptr
    pub next : Ptr
    pub back : List Ptr
    pub place : xs ≡ front ++ item ∷ next ∷ back
    pub v4 : Joined c p m front item (v4detect fuel c p m)
    pub v6 : Joined c p m front item (v6detect fuel c p m)

  -- On a bucket that is a circular list, with more rounds than it has items and a limit below the
  -- length of the array of entries: where a source without an item meets a full bucket, there are
  -- three cases, the same for both detectors. All items are as late as 3000000000 milliseconds, and
  -- memory is cleared at a null pointer. Or the oldest of them is not the last: it is given to the
  -- source, and the bucket is the circular list of the items up to it. Or it is the last: the
  -- detector returns, and no later loop over the bucket ends for a source that has no item in it.
  pub detect-full :
      Unknown m.node p.addr xs
      → length xs ≡ full
      → c.limits.number < everynode_entry_max_sz
      → (AllLate m.node mtime_max xs
          × (v4detect fuel c p m ≡ fault)
          × (v6detect fuel c p m ≡ fault))
        ⊎ ((item : Ptr) × Oldest m.node mtime_max xs item × CutAt item)
        ⊎ (Oldest m.node mtime_max xs (last c.head xs)
            × Wedges c.head xs (v4detect fuel c p m)
            × Wedges c.head xs (v6detect fuel c p m))
  detect-full unknown filled room =
      elim (search_items-Oldest m.node p.addr xs mtime_max 0 null unknown) [
        | inl (late, _) ↦
            let (f4, f6) = detect-AllLate fuel c p m xs bucket enough unknown filled late in
            inl (late, f4, f6)
        | inr (item, o, same) ↦
            let (nh, ne) = Links-In m.next c.head c.head xs bucket.forward item (Oldest-In o) in
            split item o same nh ne o.back refl
      ]
    where
      split :
          (item : Ptr) (o : Oldest m.node mtime_max xs item)
          → (search_items m.node p.addr xs mtime_max 0 null).old ≡ item
          → item ≢ c.head
          → item ≢ null
          → (back : List Ptr) → o.back ≡ back
          → (AllLate m.node mtime_max xs
              × (v4detect fuel c p m ≡ fault)
              × (v6detect fuel c p m ≡ fault))
            ⊎ ((item : Ptr) × Oldest m.node mtime_max xs item × CutAt item)
            ⊎ (Oldest m.node mtime_max xs (last c.head xs)
                × Wedges c.head xs (v4detect fuel c p m)
                × Wedges c.head xs (v6detect fuel c p m))
      split item o same nh ne [] e =
          let place : xs ≡ o.front ++ item ∷ [] = rw e at o.place in
          let end : last c.head xs ≡ item = rw place (last-append c.head item o.front) in
          let (w4, w6) =
            detect-Wedges fuel c p m xs bucket enough unknown filled (same ∙ sym end)
              (λ h. ne (sym end ∙ h)) (λ h. nh (sym end ∙ h)) room in
          inr (inr (rw end o, w4, w6))
      split item o same nh ne (y ∷ ys) e =
          let place : xs ≡ o.front ++ item ∷ y ∷ ys = rw e at o.place in
          let (j4, j6) =
            detect-cut fuel c p m item o.front y ys (rw place at bucket) (rw place at enough) ne nh
              room (rw place at unknown) (rw place at filled) (rw place at same) in
          inr (
            inl (
              item,
              o,
              record { front = o.front; next = y; back = ys; place = place; v4 = j4; v6 = j6 },
            ))
