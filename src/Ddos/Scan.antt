-- ===== src/Ddos/Scan.antt =====
-- The loop over a bucket against a search of the list of its items.
use uaflow.Prelude.{
  ℕ, suc, ◌+◌, ◌<◌, ◌≡◌, refl, ◌≢◌, List, [], ◌∷◌, arith, ltb, ◌==◌, if◌then◌else◌, length, zero,
  Bool-cases, inl, inr, ◌⊎◌, ==_refl, ==_iff, ne→==,
}
use uaflow.Ddos.Items.{Ptr, null, Node, Memory, ok}
use uaflow.Ddos.{Found, scan}
use uaflow.Ddos.Ring.{Links}

-- The first item with the address, the items in front of it, and the oldest of those.
unfoldable pub search_items :
    (ℕ → Node) → (addr : ℕ) → List Ptr → (mtime cnt : ℕ) → (old : Ptr) → Found
search_items node addr [] mtime cnt old = record { item = null; cnt = cnt; old = old }
search_items node addr (x ∷ xs) mtime cnt old =
    let older = ltb (node x).modtime mtime in
    if (node x).addr == addr
    then record { item = x; cnt = cnt; old = old }
    else search_items node addr xs (if older then (node x).modtime else mtime) (cnt + 1)
        (if older then x else old)

-- With a round for each item and one more the loop ends, and finds what the search finds.
pub scan-search_items :
    (addr : ℕ) (head : Ptr) (m : Memory) (fuel : ℕ) (x : Ptr) (xs : List Ptr) (mtime cnt : ℕ)
    (old : Ptr)
    → Links m.next head x xs
    → length xs < fuel
    → scan addr head fuel (m.next x) mtime cnt old m
      ≡ ok (search_items m.node addr xs mtime cnt old) m
unfolding scan search_items
scan-search_items addr head m zero x xs mtime cnt old l h = elim h [ ]
scan-search_items addr head m (suc fuel) x [] mtime cnt old l h = rw (l, ==_refl head)
scan-search_items addr head m (suc fuel) x (y ∷ ys) mtime cnt old l h =
    let older = ltb (m.node y).modtime mtime in
    rw (l.0, ne→== y head l.1, ne→== y null l.2)
      (elim (Bool-cases ((m.node y).addr == addr)) [
        | inl e ↦ rw e
        | inr e ↦ rw e (
            scan-search_items addr head m fuel y ys (if older then (m.node y).modtime else mtime)
              (cnt + 1) (if older then y else old) l.3 (omega arith))
      ])

-- No item of the list has the address.
abbrev pub Unknown : (ℕ → Node) → (addr : ℕ) → List Ptr → Type 0
Unknown node addr [] = Unit
Unknown node addr (x ∷ xs) = ((node x).addr ≢ addr) × Unknown node addr xs

-- The first item with the address, behind items that do not have it.
abbrev pub FirstAt : (ℕ → Node) → (addr : ℕ) → Ptr → List Ptr → Type 0
FirstAt node addr p [] = ⊥
FirstAt node addr p (x ∷ xs) =
    ((x ≡ p) × ((node x).addr ≡ addr)) ⊎ (((node x).addr ≢ addr) × FirstAt node addr p xs)

pub search_items-Unknown :
    (node : ℕ → Node) (addr : ℕ) (xs : List Ptr) (mtime cnt : ℕ) (old : Ptr)
    → Unknown node addr xs
    → ((search_items node addr xs mtime cnt old).item ≡ null)
      × ((search_items node addr xs mtime cnt old).cnt ≡ cnt + length xs)
unfolding search_items
search_items-Unknown node addr [] mtime cnt old u = (refl, omega arith)
search_items-Unknown node addr (x ∷ xs) mtime cnt old u =
    let older = ltb (node x).modtime mtime in
    let ih =
      search_items-Unknown node addr xs (if older then (node x).modtime else mtime) (cnt + 1)
        (if older then x else old) u.1 in
    rw (ne→== (node x).addr addr u.0) (ih.0, omega (arith, ih.1))

pub search_items-FirstAt :
    (node : ℕ → Node) (addr : ℕ) (p : Ptr) (xs : List Ptr) (mtime cnt : ℕ) (old : Ptr)
    → FirstAt node addr p xs
    → (search_items node addr xs mtime cnt old).item ≡ p
unfolding search_items
search_items-FirstAt node addr p [] mtime cnt old f = elim f [ ]
search_items-FirstAt node addr p (x ∷ xs) mtime cnt old (inl (here, same)) =
    rw ((==_iff (node x).addr addr).1 same) here
search_items-FirstAt node addr p (x ∷ xs) mtime cnt old (inr (other, f)) =
    let older = ltb (node x).modtime mtime in
    rw (ne→== (node x).addr addr other) (
      search_items-FirstAt node addr p xs (if older then (node x).modtime else mtime) (cnt + 1)
        (if older then x else old) f)
