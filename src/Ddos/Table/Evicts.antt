-- ===== src/Ddos/Table/Evicts.antt =====
-- A packet of an unknown source that meets a full bucket.
use mathlib.Core.Option.{some-injective, none-ne-some}
use uaflow.Prelude.{
  ℕ, ◌≡◌, refl, sym, ◌∙◌, inl, inr, Bool, some, List, [], ◌∷◌, ◌++◌, ==_iff, ◌==◌, In,
  In-append_right, length, ◌<◌, ◌+◌, arith, length-append, true,
}
use uaflow.Ddos.{Call, Found, full, mtime_max}
use uaflow.Ddos.Cut.{detect-cut}
use uaflow.Ddos.Full.{Links-In}
use uaflow.Ddos.Items.{Ptr, null, Memory}
use uaflow.Ddos.Scan.{search_items, Unknown}
use uaflow.Ddos.Table.{Static, Arrival, enough, bucket_of, call, up_to}
use uaflow.Ddos.Table.Holds.{Holds, Holds-length, before_oldest-search_items, Fronts}
use uaflow.Ddos.Table.Outcome.{Meets, Outcome, Joined-Outcome}
use uaflow.Ddos.Table.Sources.{Source, Sources, before_oldest}
use uaflow.Ddos.Table.Turns.{turn-cut, taken-full}
use uaflow.Ddos.Table.UpTo.{up_to-append, In-up_to}
use uaflow.Ddos.Table.Kinds.{at_head, holds, short, same_length, unheard, missing}

module _ {head : (is_v6 : Bool) → (coreid slot : ℕ) → Ptr}
    {jhash : (is_v6 : Bool) → (addr initval : ℕ) → ℕ} {s : Static} {m : Memory}
    {items : Ptr → List Ptr} {w : Sources} {a : Arrival} (k : Meets head jhash s m items w a) where
  abbrev h : Ptr
  h = bucket_of head jhash s a

  abbrev c : Call
  c = call head jhash s a

  abbrev ss : List Source
  ss = w.bucket h

  abbrev now : ℕ
  now = a.clock 0

  abbrev found : Found
  found = search_items m.node a.probe.addr (items h) mtime_max 0 null

  module _ (unknown : Unknown m.node a.probe.addr (items h)) where
    pub cut-Outcome :
        (front : List Source) (before : List Ptr) (item y : Ptr) (ys : List Ptr)
        → length (items h) ≡ full
        → before_oldest mtime_max ss ≡ some front
        → found.old ≡ item
        → items h ≡ before ++ item ∷ y ∷ ys
        → Holds s.limits m.node before front
        → Outcome head jhash s m items w a
    cut-Outcome front before item y ys filled oldest old place fs =
        let b = rw place at (k.rep.table.bucket h (at_head k)) in
        let there : In item (items h) =
          rw place (In-append_right item before (item ∷ y ∷ ys) (inl refl)) in
        let (nh, ne) =
          Links-In m.next h h (items h) (k.rep.table.bucket h (at_head k)).forward item there in
        let both =
          detect-cut enough c a.probe m item before y ys b (rw place at (short k)) ne nh k.room
            (rw place at unknown) (rw place at filled) (rw place at old) in
        let cut : up_to item (items h) ≡ before ++ item ∷ [] =
          rw place (up_to-append item before (y ∷ ys) b.distinct) in
        let cnt : (found.cnt == full) ≡ true =
          (==_iff found.cnt full).1 (omega (arith, (missing k unknown).1)) in
        Joined-Outcome head jhash s m items w a item before (up_to item (items h)) [] front k.rep
          k.timely.still (at_head k) fs cut (λ g. rw ((missing k unknown).0, cnt, old) refl)
          (λ g to apart inside. apart (k.rep.table.apart h g item (at_head k) to there inside))
          (λ x inside. inl (In-up_to item x (items h) inside))
          (λ alarm e.
            turn-cut s.limits a.probe.addr a.probe.port now a.fresh ss (unheard k unknown) alarm e
              front (omega (arith, (same_length k))) oldest)
          (taken-full s.limits a.probe.addr a.probe.port now a.fresh ss (unheard k unknown)
            (omega (arith, (same_length k))))
          both

    -- Where the bucket is full, its items are those in front of the oldest, that one, and more.
    pub record Behind : Type 0 where
      pub front : List Source
      pub before : List Ptr
      pub item : Ptr
      pub y : Ptr
      pub ys : List Ptr
      pub oldest : before_oldest mtime_max ss ≡ some front
      pub old : found.old ≡ item
      pub place : items h ≡ before ++ item ∷ y ∷ ys
      pub fronts : Holds s.limits m.node before front

    pub full-Behind : length (items h) ≡ full → Behind
    full-Behind filled =
        let (front, some_front, shorter) =
          k.timely.room (unheard k unknown) (omega (arith, (same_length k))) in
        elim (before_oldest-search_items s.limits a.probe.addr m.node (items h) ss mtime_max 0 null
          (holds k) unknown) [
            | inl (gone, _) ↦ absurd (none-ne-some front (sym gone ∙ some_front))
            | inr (front', item, oldest, old, f) ↦
                let same : front' ≡ front = some-injective front' front (sym oldest ∙ some_front) in
                more front' item oldest old f (rw (← same) at shorter) f.back refl
          ]
      where
        more :
            (front : List Source) (item : Ptr)
            → before_oldest mtime_max ss ≡ some front
            → found.old ≡ item
            → (f : Fronts s.limits m.node (items h) front item) → length front + 1 < full
            → (back : List Ptr) → f.back ≡ back
            → Behind
        more front item oldest old f shorter [] e =
            let place : items h ≡ f.before ++ item ∷ [] = rw e at f.place in
            let total : length (items h) ≡ length f.before + 1 =
              rw place (length-append f.before (item ∷ [])) in
            absurd (
              omega (
                arith,
                total,
                filled,
                shorter,
                Holds-length s.limits m.node f.before front f.holds,
              ))
        more front item oldest old f shorter (y ∷ ys) e = record {
          front = front;
          before = f.before;
          item = item;
          y = y;
          ys = ys;
          oldest = oldest;
          old = old;
          place = rw e at f.place;
          fronts = f.holds;
        }
