-- ===== src/Ddos/Cut.antt =====
-- What becomes of a full bucket whose oldest item is not its last: the item is put at the end
-- without being taken out first, so the links lead from it back to the head.
use uaflow.Prelude.{
  ℕ, ◌<◌, ◌≡◌, refl, sym, ◌∙◌, ◌≢◌, inl, inr, Bool, List, [], ◌∷◌, ◌++◌, length, In,
}
use uaflow.Ddos.Items.{Ptr, null, Memory, Run}
use uaflow.Ddos.{Call, Probe, v4detect, v6detect, everynode_entry_max_sz, mtime_max, full}
use uaflow.Ddos.Insert.{Inserted, insert_v4-Inserted, insert_v6-Inserted}
use uaflow.Ddos.Ring.{Links, IsBucket, NotIn, Distinct, Appends, last, last-append}
use uaflow.Ddos.Scan.{search_items, Unknown}
use uaflow.Ddos.Detect.{Joined}
use uaflow.Ddos.Taken.{taken, taken-next, taken-prev, taken-node, detect-taken}

NotIn-left : (p : Ptr) (xs ys : List Ptr) → NotIn p (xs ++ ys) → NotIn p xs
NotIn-left p [] ys h = tt
NotIn-left p (x ∷ xs) ys h = (h.0, NotIn-left p xs ys h.1)

pub NotIn-right : (p : Ptr) (xs ys : List Ptr) → NotIn p (xs ++ ys) → NotIn p ys
NotIn-right p [] ys h = h
NotIn-right p (x ∷ xs) ys h = NotIn-right p xs ys h.1

ne-last : (p x : Ptr) (xs : List Ptr) → p ≢ x → NotIn p xs → p ≢ last x xs
ne-last p x [] ne out = ne
ne-last p x (y ∷ ys) ne out = ne-last p y ys out.0 out.1

NotIn-cut :
    (p item : Ptr) (xs ys : List Ptr) → NotIn p (xs ++ item ∷ ys) → NotIn p (xs ++ item ∷ [])
NotIn-cut p item [] ys h = (h.0, tt)
NotIn-cut p item (x ∷ xs) ys h = (h.0, NotIn-cut p item xs ys h.1)

Distinct-cut :
    (item : Ptr) (xs ys : List Ptr) → Distinct (xs ++ item ∷ ys) → Distinct (xs ++ item ∷ [])
Distinct-cut item [] ys d = (tt, tt)
Distinct-cut item (x ∷ xs) ys d = (NotIn-cut x item xs ys d.0, Distinct-cut item xs ys d.1)

pub last-cons : (x item y : Ptr) (xs ys : List Ptr) → last x (xs ++ item ∷ y ∷ ys) ≡ last y ys
last-cons x item y [] ys = refl
last-cons x item y (z ∷ xs) ys = last-cons z item y xs ys

-- The links up to the item are kept, and from the item they lead back.
Links-cut :
    {next next' : Ptr → Ptr} (head item end x : Ptr) (xs ys : List Ptr)
    → next' item ≡ head
    → ((p : Ptr) → p ≢ item → p ≢ end → next' p ≡ next p)
    → x ≢ item
    → x ≢ end
    → ((p : Ptr) → In p xs → (p ≢ item) × (p ≢ end))
    → Links next head x (xs ++ item ∷ ys)
    → Links next' head x (xs ++ item ∷ [])
Links-cut head item end x [] ys back same ne far inside l = (same x ne far ∙ l.0, l.1, l.2, back)
Links-cut head item end x (y ∷ xs) ys back same ne far inside l = (
  same x ne far ∙ l.0,
  l.1,
  l.2,
  Links-cut head item end y xs ys back same (inside y (inl refl)).0 (inside y (inl refl)).1
      (λ p there. inside p (inr there)) l.3,
)

Distinct-inside :
    (item y : Ptr) (xs ys : List Ptr)
    → Distinct (xs ++ item ∷ y ∷ ys)
    → (p : Ptr) → In p xs
    → (p ≢ item) × (p ≢ last y ys)
Distinct-inside item y [] ys d p there = absurd there
Distinct-inside item y (x ∷ xs) ys d p (inr there) = Distinct-inside item y xs ys d.1 p there
Distinct-inside item y (x ∷ xs) ys d p (inl e) =
    let out : NotIn x (item ∷ y ∷ ys) = NotIn-right x xs (item ∷ y ∷ ys) d.0 in
    rw e (out.0, ne-last x y ys out.1.0 out.1.1)

pub item-ne-last :
    (item y : Ptr) (xs ys : List Ptr) → Distinct (xs ++ item ∷ y ∷ ys) → item ≢ last y ys
item-ne-last item y [] ys d = ne-last item y ys d.0.0 d.0.1
item-ne-last item y (x ∷ xs) ys d = item-ne-last item y xs ys d.1

pub IsBucket-cut :
    {m m' : Memory} {head item : Ptr} (xs : List Ptr) (y : Ptr) (ys : List Ptr)
    → Appends m m' head item
    → IsBucket m head (xs ++ item ∷ y ∷ ys)
    → IsBucket m' head (xs ++ item ∷ [])
IsBucket-cut {m} {m'} {head} {item} xs y ys a b =
    let end : m.prev head ≡ last y ys = b.backward ∙ last-cons head item y xs ys in
    let out : NotIn head (item ∷ y ∷ ys) = NotIn-right head xs (item ∷ y ∷ ys) b.outside in
    record {
      forward =
          Links-cut head item (last y ys) head xs (y ∷ ys) a.from_new
            (λ p ne far. a.elsewhere p ne (rw end far)) out.0 (ne-last head y ys out.1.0 out.1.1)
            (Distinct-inside item y xs ys b.distinct) b.forward;
      backward = a.backward ∙ sym (last-append head item xs);
      outside = NotIn-cut head item xs (y ∷ ys) b.outside;
      distinct = Distinct-cut item xs (y ∷ ys) b.distinct;
    }

-- Where items `xs` stand in front of the oldest one and `y ∷ ys` behind it.
module _ (fuel : ℕ) (c : Call) (p : Probe) (m : Memory) (item : Ptr) (xs : List Ptr) (y : Ptr)
    (ys : List Ptr) (bucket : IsBucket m c.head (xs ++ item ∷ y ∷ ys))
    (enough : length (xs ++ item ∷ y ∷ ys) < fuel) (ne : item ≢ null) (nh : item ≢ c.head)
    (room : c.limits.number < everynode_entry_max_sz) where
  end : m.prev c.head ≡ last y ys
  end = bucket.backward ∙ last-cons c.head item y xs ys

  apart : (taken c p item m).prev c.head ≢ item
  apart e =
      item-ne-last item y xs ys bucket.distinct
        (sym e ∙ taken-prev c p item m c.head (λ h. nh (sym h)) ∙ end)

  Inserted-taken : {r : Run Bool} → Inserted c p item (taken c p item m) r → Joined c p m xs item r
  unfolding Joined
  Inserted-taken {r} i =
      let tail : (taken c p item m).prev c.head ≡ m.prev c.head =
        taken-prev c p item m c.head (λ h. nh (sym h)) in
      let appends : Appends m i.after c.head item = record {
        from_new = i.appends.from_new;
        from_end = rw (← tail) i.appends.from_end;
        elsewhere = λ q other far.
            i.appends.elsewhere q other (λ e. far (e ∙ tail)) ∙ taken-next c p item m q other;
        backward = i.appends.backward;
        before = λ q other far. i.appends.before q other far ∙ taken-prev c p item m q other;
      } in
      let inserted : Inserted c p item m r = record {
        after = i.after;
        alarm = i.alarm;
        returns = i.returns;
        alarmed = i.alarmed;
        appends = appends;
        addr = i.addr;
        port = i.port;
        entry_addr = i.entry_addr;
        time = i.time;
        count = i.count;
        fits = i.fits;
        others = λ q other. i.others q other ∙ taken-node c p item m q other;
      } in
      (inserted, IsBucket-cut xs y ys appends bucket)

  -- On a bucket that is a circular list, with more rounds than it has items and a limit below the
  -- length of the array of entries: where a source without an item meets a full bucket, the oldest
  -- of whose items is not the last, both detectors give that item to the source, with its port as
  -- the only entry; but the bucket ends there: it is a circular list again, and the items that
  -- stood behind are in it no longer.
  pub detect-cut :
      Unknown m.node p.addr (xs ++ item ∷ y ∷ ys)
      → length (xs ++ item ∷ y ∷ ys) ≡ full
      → (search_items m.node p.addr (xs ++ item ∷ y ∷ ys) mtime_max 0 null).old ≡ item
      → Joined c p m xs item (v4detect fuel c p m) × Joined c p m xs item (v6detect fuel c p m)
  detect-cut unknown filled oldest =
      let (r4, r6) =
        detect-taken fuel c p m (xs ++ item ∷ y ∷ ys) bucket enough item unknown filled oldest ne in
      let m1 = taken c p item m in
      (
        rw r4 (Inserted-taken (insert_v4-Inserted c p 1 item m1 ne nh apart room)),
        rw r6 (Inserted-taken (insert_v6-Inserted c p 1 item m1 ne nh apart room)),
      )
