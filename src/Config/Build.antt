-- ===== src/Config/Build.antt =====
-- flow_config/flow_config_parser.c: the patterns that are built from the tables, and the search for
-- a user agent's port. The automaton is a parameter.
use uaflow.Prelude.{
  In, ℕ, zero, suc, ◌+◌, ◌≡◌, ◌&&◌, Option, none, some, List, [], ◌∷◌, ◌++◌, ◌==◌, if◌then◌else◌,
  length, bit_and,
}
use uaflow.Prelude.CString.{text}
use uaflow.Prelude.Int.{ℤ, pos, negsuc}
use uaflow.Config.{Item, Key, Idx, Tables, slot_mask, slot_size}
use uaflow.Config.Tree.{Bytes}

-- The loop of `flow_config_module_build_inside_find_item` over the slot.
unfoldable pub find_in : (itemid : ℕ) → List Item → Option Item
find_in itemid [] = none
find_in itemid (i ∷ is) = if i.itemid == itemid then some i else find_in itemid is

-- `flow_config_module_build_inside_find_item`
unfoldable pub find_item : Tables → Key → Option Item
find_item t k = find_in k.itemid (t.items (bit_and k.itemid slot_mask))

-- What the build sets of an `AC_PATTERN_t`.
pub record Pattern : Type 0 where
  pub astring : Bytes
  pub number : ℕ
  pub idx : ℕ
  pub name : Bytes
  pub itemid : ℕ

-- The loop that finds the port of a key: that of the first bound entry with the key's number, or 0.
unfoldable pub find_idx : (itemid : ℕ) → List Idx → ℕ
find_idx itemid [] = 0
find_idx itemid (e ∷ es) = if e.itemid == itemid && e.to then e.idx else find_idx itemid es

-- The pattern of a key, the `number`th; `none` is a `continue`.
unfoldable pub pattern_of : Tables → (number : ℕ) → Key → Option Pattern
unfolding find_item
pattern_of t number k = if length k.key == 0 then none else elim (find_item t k) [
  | none ↦ none
  | some item ↦
      if item.is_tx
      then some (record {
        astring = k.key;
        number = number;
        idx = find_idx k.itemid t.tx_idx;
        name = item.name;
        itemid = k.itemid;
      })
      else none
]

-- The inner loop of `flow_config_module_build` over a slot, from the number `j` on: the patterns
-- and the number that is reached.
unfoldable pub build_keys : Tables → (j : ℕ) → List Key → List Pattern × ℕ
build_keys t j [] = ([], j)
build_keys t j (k ∷ ks) = elim (pattern_of t (j + 1) k) [
  | none ↦ build_keys t j ks
  | some p ↦ let (ps, j') = build_keys t (j + 1) ks in (p ∷ ps, j')
]

-- The outer loop from slot `i` on, with `left` slots to go.
unfoldable pub build_slots : Tables → (left i j : ℕ) → List Pattern
build_slots t zero i j = []
build_slots t (suc left) i j =
    let (ps, j') = build_keys t j (t.keys i) in ps ++ build_slots t left (i + 1) j'

-- The patterns that `flow_config_module_build` adds to each core's automaton, in order.
unfoldable pub build : Tables → List Pattern
build t = build_slots t slot_size 0 0

-- Patterns added one after another.
abbrev pub adds {ℓ} : {T : Type ℓ} → (Pattern → T → T) → List Pattern → T → T
adds add [] trie = trie
adds add (p ∷ ps) trie = adds add ps (add p trie)

-- The automaton of flow_core/flow_core_ahocorasick.c: patterns are added and the automaton is
-- finished; a match that it finds is of a pattern that was added, and the pattern is in the text.
pub record Automaton : Type 1 where
  pub Trie : Type 0
  pub trie_create : Trie
  pub trie_add : Pattern → Trie → Trie
  pub trie_finalize : Trie → Trie
  pub trie_findnext : Trie → Bytes → Option Pattern
  pub sound :
      (ps : List Pattern) (s : Bytes) {p : Pattern}
      → trie_findnext (trie_finalize (adds trie_add ps trie_create)) s ≡ some p
      → In p ps × ((before : Bytes) × (after : Bytes) × (s ≡ before ++ p.astring ++ after))

-- `flow_config_module_search`
module _ (ac : Automaton) where
  unfoldable pub search : ac.Trie → Bytes → ℤ
  search trie s = elim (ac.trie_findnext trie (text s)) [ none ↦ negsuc 0 | some p ↦ pos p.idx ]

  -- The automaton of a core after `flow_config_module_build`.
  unfoldable pub build_trie : Tables → ac.Trie
  unfolding build
  build_trie t = ac.trie_finalize (adds ac.trie_add (build t) ac.trie_create)
