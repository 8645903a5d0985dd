-- ===== src/Ddos/Detect.antt =====
-- The two detectors on a bucket that is a circular list: a known source, a new one, and no memory.
use uaflow.Prelude.{
  ℕ, ◌<◌, ◌≡◌, sym, ◌∙◌, ◌≢◌, Bool, false, List, [], ◌∷◌, ◌++◌, arith, ◌==◌, length, inl, inr,
  ne→==, none, some,
}
use uaflow.Ddos.Items.{Ptr, null, Node, Memory, Run, ok, update}
use uaflow.Ddos.{
  Probe, Call, Found, scan, account, v4detect, v6detect, everynode_entry_max_sz, mtime_max, full,
}
use uaflow.Ddos.Account.{Fits, account-Fits}
use uaflow.Ddos.Insert.{Inserted, finish-account, insert_v4-Inserted, insert_v6-Inserted}
use uaflow.Ddos.Ring.{IsBucket, NotIn, Links, last, IsBucket-append}
use uaflow.Ddos.Scan.{
  search_items, scan-search_items, Unknown, FirstAt, search_items-Unknown, search_items-FirstAt,
}

pub FirstAt-ne_null :
    (node : ℕ → Node) (addr : ℕ) (next : Ptr → Ptr) (head x p : Ptr) (xs : List Ptr)
    → FirstAt node addr p xs
    → Links next head x xs
    → p ≢ null
FirstAt-ne_null node addr next head x p [] f l = elim f [ ]
FirstAt-ne_null node addr next head x p (y ∷ ys) (inl (here, _)) l = λ e. l.2 (here ∙ e)
FirstAt-ne_null node addr next head x p (y ∷ ys) (inr (_, f)) l =
    FirstAt-ne_null node addr next head y p ys f l.3

NotIn-last : (p x : Ptr) (xs : List Ptr) → NotIn p xs → p ≢ x → last x xs ≢ p
NotIn-last p x [] out ne = λ e. ne (sym e)
NotIn-last p x (y ∷ ys) out ne = NotIn-last p y ys out.1 out.0

-- What follows from `Inserted` for the bucket: it is the circular list with the item at its end.
unfoldable pub Joined : Call → Probe → Memory → List Ptr → Ptr → Run Bool → Type 0
Joined c p m xs item r = (i : Inserted c p item m r) × IsBucket i.after c.head (xs ++ item ∷ [])

module _ (fuel : ℕ) (c : Call) (p : Probe) (m : Memory) (xs : List Ptr)
    (bucket : IsBucket m c.head xs) (enough : length xs < fuel) where
  abbrev found : Found
  found = search_items m.node p.addr xs mtime_max 0 null

  scanned : scan p.addr c.head fuel (m.next c.head) mtime_max 0 null m ≡ ok found m
  scanned = scan-search_items p.addr c.head m fuel c.head xs mtime_max 0 null bucket.forward enough

  pub known-run :
      (item : Ptr) {n' : Node} {alarm : Bool}
      → FirstAt m.node p.addr item xs
      → account c.limits p (c.clock 0) (c.clock 1) (m.node item) ≡ some (n', alarm)
      → (v4detect fuel c p m ≡ ok alarm (record m { node = update m.node item n' }))
        × (v6detect fuel c p m ≡ ok alarm (record m { node = update m.node item n' }))
  unfolding v4detect v6detect
  known-run item first run =
      let ne = FirstAt-ne_null m.node p.addr m.next c.head c.head item xs first bucket.forward in
      let here = search_items-FirstAt m.node p.addr item xs mtime_max 0 null first in
      let last = finish-account c.limits p (c.clock 0) (c.clock 1) item m ne run in
      (rw (scanned, here, ne→== item null ne) last, rw (scanned, here, ne→== item null ne) last)

  -- On a bucket that is a circular list, with more rounds than it has items: where a source has an
  -- item in the bucket, whose count fits the limit, both detectors return the verdict of the
  -- bookkeeping on that item, and change nothing else: no link and no other item.
  pub detect-known :
      (item : Ptr)
      → FirstAt m.node p.addr item xs
      → Fits c.limits (m.node item)
      → (n' : Node) × (alarm : Bool) × (account c.limits p (c.clock 0) (c.clock 1) (m.node item)
          ≡ some (n', alarm))
        × (v4detect fuel c p m ≡ ok alarm (record m { node = update m.node item n' }))
        × (v6detect fuel c p m ≡ ok alarm (record m { node = update m.node item n' }))
  detect-known item first fits =
      let (n', alarm, run, _, _) =
        account-Fits c.limits p (c.clock 0) (c.clock 1) (m.node item) fits in
      let both = known-run item first run in (n', alarm, run, both.0, both.1)

  -- On a bucket that is a circular list, with more rounds than it has items: where a source has no
  -- item, the pool has none and the bucket is not full, the packet is let pass and nothing changes.
  pub detect-exhausted :
      Unknown m.node p.addr xs
      → length xs ≢ full
      → c.fresh ≡ none
      → (v4detect fuel c p m ≡ ok false m) × (v6detect fuel c p m ≡ ok false m)
  unfolding v4detect v6detect
  detect-exhausted unknown room dry =
      let gone = search_items-Unknown m.node p.addr xs mtime_max 0 null unknown in
      let cnt : (found.cnt == full) ≡ false =
        ne→== found.cnt full (λ e. room (omega (arith, gone.1))) in
      (rw (scanned, gone.0, cnt, dry), rw (scanned, gone.0, cnt, dry))

  -- On a bucket that is a circular list, with more rounds than it has items and a limit below the
  -- length of the array of entries: where a source has no item, the bucket is not full and the
  -- pool gives an item outside of it, both detectors put that item at the end of the bucket, which
  -- stays a circular list of distinct items; it holds the packet's address and port, and no other
  -- item has changed.
  pub detect-new :
      (item : Ptr)
      → Unknown m.node p.addr xs
      → length xs ≢ full
      → c.fresh ≡ some item
      → item ≢ null
      → item ≢ c.head
      → NotIn item xs
      → c.limits.number < everynode_entry_max_sz
      → Joined c p m xs item (v4detect fuel c p m) × Joined c p m xs item (v6detect fuel c p m)
  unfolding v4detect v6detect Joined
  detect-new item unknown room got ne nh out limit =
      let gone = search_items-Unknown m.node p.addr xs mtime_max 0 null unknown in
      let cnt : (found.cnt == full) ≡ false =
        ne→== found.cnt full (λ e. room (omega (arith, gone.1))) in
      let apart =
        λ (e : m.prev c.head ≡ item). NotIn-last item c.head xs out nh (sym bucket.backward ∙ e) in
      let i4 = insert_v4-Inserted c p 0 item m ne nh apart limit in
      let i6 = insert_v6-Inserted c p 0 item m ne nh apart limit in
      (
        rw (scanned, gone.0, cnt) (simp got (i4, IsBucket-append i4.appends nh ne out bucket)),
        rw (scanned, gone.0, cnt) (simp got (i6, IsBucket-append i6.appends nh ne out bucket)),
      )
