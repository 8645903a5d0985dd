-- ===== src/Config/Search.antt =====
-- From the keys of the configuration to the port of a user agent.
use uaflow.Prelude.{
  In, In-append_left, In-append_right, In-append_cases, ℕ, zero, suc, ◌+◌, ◌<◌, ◌≤◌, ◌≡◌, refl, sym,
  ap, ◌∙◌, true, none, some, List, [], ◌∷◌, arith, ◌==◌, length, inl, inr, Bool-cases, Option-cases,
  ne→==,
}
use mathlib.Core.Option.{some-injective}
use native.Mathlib.Decide.{ℕ_discrete}
use uaflow.Config.{Item, Key, Tables, slot_size}
use uaflow.Config.Build.{Pattern, find_item, find_idx, pattern_of, build_keys, build_slots, build}

-- A key that a pattern is made of: it is not empty, and its item is a port to send to.
pub record Selected (t : Tables) (k : Key) : Type 0 where
  pub item : Item
  pub found : find_item t k ≡ some item
  pub is_tx : item.is_tx ≡ true
  pub some_text : 0 < length k.key

-- The pattern has the key's text and the port of the key's number.
pub record IsOf (t : Tables) (k : Key) (p : Pattern) : Type 0 where
  pub astring : p.astring ≡ k.key
  pub idx : p.idx ≡ find_idx k.itemid t.tx_idx

abbrev made : Tables → ℕ → Key → Item → Pattern
made t j k item = record {
  astring = k.key;
  number = j;
  idx = find_idx k.itemid t.tx_idx;
  name = item.name;
  itemid = k.itemid;
}

made-IsOf : (t : Tables) (j : ℕ) (k : Key) (item : Item) → IsOf t k (made t j k item)
made-IsOf t j k item = record { astring = refl; idx = refl }

pattern_of_sound :
    (t : Tables) (j : ℕ) (k : Key) (p : Pattern)
    → pattern_of t j k ≡ some p
    → Selected t k × IsOf t k p
unfolding pattern_of
pattern_of_sound t j k p h = elim (Bool-cases (length k.key == 0)) [
  | inl e ↦ let bad : none ≡ some p = rw (e, pattern_of) at h in cc
  | inr e ↦ elim (Option-cases (find_item t k)) [
    | inl e' ↦ let bad : none ≡ some p = rw (e, e', pattern_of) at h in cc
    | inr (item, e') ↦ elim (Bool-cases item.is_tx) [
      | inl tx ↦
          let same : made t j k item ≡ p =
            some-injective (made t j k item) p (rw (e, e', tx, pattern_of) at h) in
          (
            record { item = item; found = e'; is_tx = tx; some_text = ground arith },
            rw same at (made-IsOf t j k item),
          )
      | inr rx ↦ let bad : none ≡ some p = rw (e, e', rx, pattern_of) at h in cc
    ]
  ]
]

pattern_of_complete :
    (t : Tables) (j : ℕ) (k : Key)
    → Selected t k
    → (p : Pattern) × (pattern_of t j k ≡ some p) × IsOf t k p
unfolding pattern_of
pattern_of_complete t j k s = (
  made t j k s.item,
  rw (ne→== (length k.key) 0 (λ e. absurd (omega (arith, s.some_text))), s.found, s.is_tx),
  made-IsOf t j k s.item,
)

module _ (t : Tables) (j : ℕ) (k : Key) (ks : List Key) where
  build_keys-skip :
      pattern_of t (j + 1) k ≡ none → (build_keys t j (k ∷ ks)).0 ≡ (build_keys t j ks).0
  unfolding build_keys
  build_keys-skip e = rw (e, build_keys)

  build_keys-keep :
      {p : Pattern}
      → pattern_of t (j + 1) k ≡ some p
      → (build_keys t j (k ∷ ks)).0 ≡ p ∷ (build_keys t (j + 1) ks).0
  unfolding build_keys
  build_keys-keep e = rw (e, build_keys)

build_keys_sound :
    (t : Tables) (j : ℕ) (ks : List Key) (p : Pattern)
    → In p (build_keys t j ks).0
    → (k : Key) × In k ks × Selected t k × IsOf t k p
unfolding build_keys
build_keys_sound t j [] p h = elim h [ ]
build_keys_sound t j (k ∷ ks) p h = elim (Option-cases (pattern_of t (j + 1) k)) [
  | inl e ↦
      let (k', there, sel, is_of) =
        build_keys_sound t j ks p (rw (build_keys-skip t j k ks e) at h) in
      (k', inr there, sel, is_of)
  | inr (p', e) ↦
      let h' : In p (p' ∷ (build_keys t (j + 1) ks).0) = rw (build_keys-keep t j k ks e) at h in
      elim h' [
        | inl here ↦
            let (sel, is_of) = pattern_of_sound t (j + 1) k p (e ∙ ap some (sym here)) in
            (k, inl refl, sel, is_of)
        | inr later ↦
            let (k', there, sel, is_of) = build_keys_sound t (j + 1) ks p later in
            (k', inr there, sel, is_of)
      ]
]

build_keys_complete :
    (t : Tables) (j : ℕ) (ks : List Key) (k : Key)
    → In k ks
    → Selected t k
    → (p : Pattern) × In p (build_keys t j ks).0 × IsOf t k p
build_keys_complete t j [] k h s = elim h [ ]
build_keys_complete t j (x ∷ ks) k (inl here) s =
    let (p, made_of, is_of) = pattern_of_complete t (j + 1) k s in
    let e : pattern_of t (j + 1) x ≡ some p = rw here at made_of in
    (p, rw (build_keys-keep t j x ks e) (inl refl), is_of)
build_keys_complete t j (x ∷ ks) k (inr there) s = elim (Option-cases (pattern_of t (j + 1) x)) [
  | inl e ↦
      let (p, is_in, is_of) = build_keys_complete t j ks k there s in
      (p, rw (build_keys-skip t j x ks e) is_in, is_of)
  | inr (p', e) ↦
      let (p, is_in, is_of) = build_keys_complete t (j + 1) ks k there s in
      (p, rw (build_keys-keep t j x ks e) (inr is_in), is_of)
]

build_slots_sound :
    (t : Tables) (left i j : ℕ) (p : Pattern)
    → In p (build_slots t left i j)
    → (s : ℕ) × (k : Key) × In k (t.keys s) × Selected t k × IsOf t k p
unfolding build_slots
build_slots_sound t zero i j p h = elim h [ ]
build_slots_sound t (suc left) i j p h =
    let (ps, j') = build_keys t j (t.keys i) in
    elim (In-append_cases p ps (build_slots t left (i + 1) j') h) [
      | inl here ↦
          let (k, there, sel, is_of) = build_keys_sound t j (t.keys i) p here in
          (i, k, there, sel, is_of)
      | inr later ↦ build_slots_sound t left (i + 1) j' p later
    ]

build_slots_complete :
    (t : Tables) (left i j s : ℕ) (k : Key)
    → i ≤ s
    → s < i + left
    → In k (t.keys s)
    → Selected t k
    → (p : Pattern) × In p (build_slots t left i j) × IsOf t k p
unfolding build_slots
build_slots_complete t zero i j s k low high h sel = absurd (omega arith)
build_slots_complete t (suc left) i j s k low high h sel =
    let ps = (build_keys t j (t.keys i)).0 in
    let j' = (build_keys t j (t.keys i)).1 in
    elim (ℕ_discrete i s) [
      | yes same ↦
          let (p, is_in, is_of) = build_keys_complete t j (t.keys i) k (rw (sym same) at h) sel in
          (p, In-append_left p ps (build_slots t left (i + 1) j') is_in, is_of)
      | no other ↦
          let (p, is_in, is_of) =
            build_slots_complete t left (i + 1) j' s k (omega arith) (omega arith) h sel in
          (p, In-append_right p ps (build_slots t left (i + 1) j') is_in, is_of)
    ]

-- Every pattern that is added comes from a key of the tables that is not empty and whose item is a
-- port to send to; it has that key's text and port.
pub build_sound :
    (t : Tables) (p : Pattern)
    → In p (build t)
    → (s : ℕ) × (k : Key) × In k (t.keys s) × Selected t k × IsOf t k p
unfolding build
build_sound t p h = build_slots_sound t slot_size 0 0 p h

-- Each key in one of the 4096 slots whose text is not empty, and whose item is found and is a port
-- to send to, has its pattern among those that are built.
pub build_complete :
    (t : Tables) (s : ℕ) (k : Key)
    → s < slot_size
    → In k (t.keys s)
    → Selected t k
    → (p : Pattern) × In p (build t) × IsOf t k p
unfolding build
build_complete t s k high h sel =
    build_slots_complete t slot_size 0 0 s k (omega arith) (omega arith) h sel
