-- ===== src/Ddos/Late.antt =====
-- A full bucket whose items were all last seen late in the clock's 32 bits.
use uaflow.Prelude.{
  ℕ, ◌+◌, ◌≤◌, ◌<◌, ◌≡◌, refl, List, [], ◌∷◌, arith, le→ltb, ne→==, length, In, inl, inr,
}
use uaflow.Ddos.Items.{Ptr, null, Node, Memory, fault, clear}
use uaflow.Ddos.{Call, Probe, v4detect, v6detect, mtime_max, full}
use uaflow.Ddos.Ring.{IsBucket}
use uaflow.Ddos.Scan.{search_items, scan-search_items, Unknown, search_items-Unknown}

-- None of the items was last seen before the time `mtime`.
abbrev pub AllLate : (ℕ → Node) → (mtime : ℕ) → List Ptr → Type 0
AllLate node mtime xs = (x : Ptr) → In x xs → mtime ≤ (node x).modtime

search_items-AllLate :
    (node : ℕ → Node) (addr : ℕ) (xs : List Ptr) (mtime cnt : ℕ) (old : Ptr)
    → Unknown node addr xs
    → AllLate node mtime xs
    → (search_items node addr xs mtime cnt old).old ≡ old
unfolding search_items
search_items-AllLate node addr [] mtime cnt old u late = refl
search_items-AllLate node addr (x ∷ xs) mtime cnt old u late =
    rw (ne→== (node x).addr addr u.0, le→ltb (node x).modtime mtime (late x (inl refl)))
      (search_items-AllLate node addr xs mtime (cnt + 1) old u.1 (λ y h. late y (inr h)))

module _ (fuel : ℕ) (c : Call) (p : Probe) (m : Memory) (xs : List Ptr)
    (bucket : IsBucket m c.head xs) (enough : length xs < fuel) where
  -- On a bucket that is a circular list, with more rounds than it has items: where a source
  -- without an item meets a full bucket all of whose items were last seen at 3000000000
  -- milliseconds or later, there is no oldest item, and both detectors clear memory at a null
  -- pointer.
  pub detect-AllLate :
      Unknown m.node p.addr xs
      → length xs ≡ full
      → AllLate m.node mtime_max xs
      → (v4detect fuel c p m ≡ fault) × (v6detect fuel c p m ≡ fault)
  unfolding v4detect v6detect clear
  detect-AllLate unknown filled late =
      let found = search_items m.node p.addr xs mtime_max 0 null in
      let scanned =
        scan-search_items p.addr c.head m fuel c.head xs mtime_max 0 null bucket.forward enough in
      let gone = search_items-Unknown m.node p.addr xs mtime_max 0 null unknown in
      let cnt : found.cnt ≡ full = omega (arith, gone.1) in
      let none_old : found.old ≡ null =
        search_items-AllLate m.node p.addr xs mtime_max 0 null unknown late in
      (rw (scanned, gone.0, cnt, none_old) refl, rw (scanned, gone.0, cnt, none_old) refl)
