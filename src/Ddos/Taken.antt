-- ===== src/Ddos/Taken.antt =====
-- The way of both detectors through a full bucket, down to the insertion of its oldest item.
use uaflow.Prelude.{ℕ, ◌<◌, ◌≡◌, refl, sym, ◌≢◌, List, arith, ne→==, length}
use uaflow.Ddos.Items.{Ptr, null, Memory, update, load-ok, store-ok, clear-ok, zeroed}
use uaflow.Ddos.{Call, Probe, v4detect, v6detect, insert_v4, insert_v6, set_source, mtime_max, full}
use uaflow.Ddos.Insert.{source}
use uaflow.Ddos.Ring.{IsBucket}
use uaflow.Ddos.Scan.{search_items, scan-search_items, Unknown, search_items-Unknown}

-- The memory once the item has been cleared and set to the source.
abbrev pub taken : Call → Probe → Ptr → Memory → Memory
taken c p item m =
    let n = source c p 0 ((zeroed item m).node item) in
    record (zeroed item m) { node = update (zeroed item m).node item n }

module _ (c : Call) (p : Probe) (item : Ptr) (m : Memory) (q : Ptr) (other : q ≢ item) where
  pub taken-next : (taken c p item m).next q ≡ m.next q
  taken-next = rw (ne→== item q (λ e. other (sym e))) refl

  pub taken-prev : (taken c p item m).prev q ≡ m.prev q
  taken-prev = rw (ne→== item q (λ e. other (sym e))) refl

  pub taken-node : (taken c p item m).node q ≡ m.node q
  taken-node = rw (ne→== item q (λ e. other (sym e))) refl

module _ (fuel : ℕ) (c : Call) (p : Probe) (m : Memory) (xs : List Ptr)
    (bucket : IsBucket m c.head xs) (enough : length xs < fuel) where
  pub detect-taken :
      (item : Ptr)
      → Unknown m.node p.addr xs
      → length xs ≡ full
      → (search_items m.node p.addr xs mtime_max 0 null).old ≡ item
      → item ≢ null
      → (v4detect fuel c p m ≡ insert_v4 c p 1 item (taken c p item m))
        × (v6detect fuel c p m ≡ insert_v6 c p 1 item (taken c p item m))
  unfolding v4detect v6detect set_source
  detect-taken item unknown filled oldest ne =
      let gone = search_items-Unknown m.node p.addr xs mtime_max 0 null unknown in
      let scanned =
        scan-search_items p.addr c.head m fuel c.head xs mtime_max 0 null bucket.forward enough in
      let cnt : (search_items m.node p.addr xs mtime_max 0 null).cnt ≡ full =
        omega (arith, gone.1) in
      let n = source c p 0 ((zeroed item m).node item) in
      let cleared = clear-ok item m ne in
      let loaded = load-ok item (zeroed item m) ne in
      let stored = store-ok item (zeroed item m) ne n in
      (
        rw (scanned, gone.0, cnt, oldest, cleared, loaded, stored) refl,
        rw (scanned, gone.0, cnt, oldest, cleared, loaded, stored) refl,
      )
