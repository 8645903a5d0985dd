-- ===== src/Ddos/Reuse.antt =====
-- What becomes of a full bucket: the oldest item is put at the end without being taken out first.
use native.Mathlib.Decide.{ℕ_discrete}
use uaflow.Prelude.{
  ℕ, zero, suc, ◌<◌, ◌≡◌, refl, sym, ◌∙◌, ◌≢◌, Bool, List, [], ◌∷◌, arith, ne→==, length,
}
use uaflow.Ddos.Items.{Ptr, null, Memory, Run, ok, out_of_fuel, Node, init_list_head, list_add_tail}
use uaflow.Ddos.{scan, Call, Probe, v4detect, v6detect, everynode_entry_max_sz, mtime_max, full}
use uaflow.Ddos.Insert.{joined, Finished, insert_v4-Finished, insert_v6-Finished}
use uaflow.Ddos.Ring.{Links, IsBucket, last}
use uaflow.Ddos.Taken.{taken, taken-next, taken-prev, detect-taken}
use uaflow.Ddos.Scan.{search_items, Unknown}

-- From an item that leads to itself the loop over the bucket never ends, whatever fuel it is given,
-- unless the source is that item's.
scan-cycle :
    (addr : ℕ) (head : Ptr) (fuel : ℕ) (pos : Ptr) (mtime cnt : ℕ) (old : Ptr) (m : Memory)
    → m.next pos ≡ pos
    → pos ≢ head
    → pos ≢ null
    → (m.node pos).addr ≢ addr
    → scan addr head fuel pos mtime cnt old m ≡ out_of_fuel
unfolding scan
scan-cycle addr head zero pos mtime cnt old m cycle nh ne other = refl
scan-cycle addr head (suc fuel) pos mtime cnt old m cycle nh ne other =
    rw (ne→== pos head nh, ne→== pos null ne, ne→== (m.node pos).addr addr other, cycle)
      (scan-cycle addr head fuel pos _ _ _ m cycle nh ne other)

-- `m'` has the links of `m`, but that `item` leads to itself.
pub record Cycles (item : Ptr) (m m' : Memory) : Type 0 where
  pub at_item : m'.next item ≡ item
  pub elsewhere : (q : Ptr) → q ≢ item → m'.next q ≡ m.next q

scan-Cycles :
    {item : Ptr} {m m' : Memory} (head : Ptr) (addr fuel : ℕ) (x : Ptr) (xs : List Ptr)
    (mtime cnt : ℕ) (old : Ptr)
    → Cycles item m m'
    → Links m.next head x xs
    → last x xs ≡ item
    → x ≢ item
    → Unknown m'.node addr xs
    → scan addr head fuel (m'.next x) mtime cnt old m' ≡ out_of_fuel
unfolding scan
scan-Cycles head addr fuel x [] mtime cnt old cyc l end ne u = absurd (ne end)
scan-Cycles head addr zero x (y ∷ ys) mtime cnt old cyc l end ne u = refl
scan-Cycles {item} {m} {m'} head addr (suc fuel) x (y ∷ ys) mtime cnt old cyc l end ne u =
    let step : m'.next x ≡ y = cyc.elsewhere x ne ∙ l.0 in
    elim (ℕ_discrete y item) [
      | yes here ↦
          let loops : m'.next y ≡ y = rw (← here) at cyc.at_item in
          rw step (scan-cycle addr head (suc fuel) y mtime cnt old m' loops l.1 l.2 u.0)
      | no further ↦
          rw (step, ne→== y head l.1, ne→== y null l.2, ne→== (m'.node y).addr addr u.0)
            (scan-Cycles head addr fuel y ys _ _ _ cyc l.3 end further u.1)
    ]

-- Resetting and linking an item that is the last of the bucket already.
joined-Cycles :
    (c : Call) (item : Ptr) (m b : Memory) (nodes : ℕ → Node)
    → item ≢ c.head
    → b.prev c.head ≡ item
    → ((q : Ptr) → q ≢ item → b.next q ≡ m.next q)
    → Cycles item m (record (joined item c.head b) { node = nodes })
unfolding list_add_tail init_list_head
joined-Cycles c item m b nodes nh tail same = record {
  at_item = ground arith;
  elsewhere = λ q other. ground (arith, same q other);
}

-- No source but those that have an item can be served from the bucket any more, by either detector:
-- the loop over it does not end, whatever fuel it is given.
pub Wedged : (head : Ptr) → List Ptr → Memory → Type 0
Wedged head xs m =
    (c : Call) (p : Probe) (fuel : ℕ)
    → c.head ≡ head
    → Unknown m.node p.addr xs
    → (v4detect fuel c p m ≡ out_of_fuel) × (v6detect fuel c p m ≡ out_of_fuel)

Cycles-Wedged :
    {item : Ptr} {m m' : Memory} (head : Ptr) (xs : List Ptr)
    → Cycles item m m'
    → Links m.next head head xs
    → last head xs ≡ item
    → head ≢ item
    → Wedged head xs m'
unfolding v4detect v6detect Wedged
Cycles-Wedged {m'} head xs cyc l end ne c p fuel same u =
    let lost = scan-Cycles head p.addr fuel head xs mtime_max 0 null cyc l end ne u in
    (rw (same, lost) refl, rw (same, lost) refl)

-- Either detector returns, and leaves the bucket without an end.
pub Wedges : (head : Ptr) → List Ptr → Run Bool → Type 0
Wedges head xs r = (m' : Memory) × (alarm : Bool) × (r ≡ ok alarm m') × Wedged head xs m'

module _ (fuel : ℕ) (c : Call) (p : Probe) (m : Memory) (xs : List Ptr)
    (bucket : IsBucket m c.head xs) (enough : length xs < fuel) where
  abbrev item : Ptr
  item = last c.head xs

  Finished-Wedges :
      {b : Memory} {r : Run Bool}
      → item ≢ c.head
      → b.prev c.head ≡ item
      → ((q : Ptr) → q ≢ item → b.next q ≡ m.next q)
      → Finished c p item (taken c p item m) b r
      → Wedges c.head xs r
  unfolding Wedges
  Finished-Wedges {b} nh tail same f = (
    record (joined item c.head b) { node = f.nodes },
    f.alarm,
    f.returns,
    Cycles-Wedged c.head xs (joined-Cycles c item m b f.nodes nh tail same) bucket.forward refl
        (λ e. nh (sym e)),
  )

  -- On a bucket that is a circular list, with more rounds than it has items and a limit below the
  -- length of the array of entries: where a source without an item meets a full bucket whose oldest
  -- item is its last one, both detectors return, but leave that item leading to itself: from then on
  -- the loop over the bucket does not end for any source that has no item in it.
  pub detect-Wedges :
      Unknown m.node p.addr xs
      → length xs ≡ full
      → (search_items m.node p.addr xs mtime_max 0 null).old ≡ last c.head xs
      → last c.head xs ≢ null
      → last c.head xs ≢ c.head
      → c.limits.number < everynode_entry_max_sz
      → Wedges c.head xs (v4detect fuel c p m) × Wedges c.head xs (v6detect fuel c p m)
  detect-Wedges unknown filled oldest ne nh room =
      let (r4, r6) = detect-taken fuel c p m xs bucket enough item unknown filled oldest ne in
      let m1 = taken c p item m in
      let f4 = insert_v4-Finished c p 1 item m1 ne nh room in
      let f6 = insert_v6-Finished c p 1 item m1 ne room in
      let tail = taken-prev c p item m c.head (λ e. nh (sym e)) ∙ bucket.backward in
      let miss = λ (q : Ptr) (other : q ≢ item). ne→== item q (λ e. other (sym e)) in
      (
        rw r4 (
            Finished-Wedges nh (rw (ne→== item c.head nh) bucket.backward)
              (λ q other. rw (miss q other) refl) f4),
        rw r6 (Finished-Wedges nh tail (λ q other. taken-next c p item m q other) f6),
      )
