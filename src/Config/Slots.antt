-- ===== src/Config/Slots.antt =====
-- Where the parse of flow_config/flow_config_parser.c puts the keys of the document.
use uaflow.Prelude.{
  In, ==_refl, ℕ, ◌<◌, ◌≡◌, refl, sym, ◌∙◌, ap, Bool, true, false, Option, none, some, List, [],
  ◌∷◌, ◌++◌, arith, ◌==◌, inl, inr, Bool-cases, Option-cases, bit_and, if◌then◌else◌,
}
use mathlib.Core.List.{append_assoc, append-nil}
use mathlib.Core.Option.{some-injective}
use uaflow.Prelude.Bits.{bit_and-ones}
use uaflow.Prelude.CString.{eq_bytes}
use uaflow.Prelude.Decimal.{atoi}
use uaflow.Config.{Item, Key, Tables, fresh, slot_mask, slot_size}
use uaflow.Config.Tree.{Bytes, Xml, null, node, search_attr_value}
use uaflow.Config.Devices.{Machine}
use uaflow.Config.Items.{bind-some, for_each-keeps, parse_item-or}
use uaflow.Config.Build.{Pattern, build}
use uaflow.Config.Search.{Selected, IsOf, build_complete}
use uaflow.Config.Parse.{
  key_name, for_each, append_at, add_item, parse_item, add_key, parse_key, parse_limits, parse,
  itemid_attr, key_attr, item_name, item_nodes, key_nodes, ddos_node,
}

-- The key that an element stands for, if it has both attributes and there is memory for it.
unfoldable pub key_of : Machine → Xml → List Key
key_of mc p = elim (search_attr_value p itemid_attr) [
  | none ↦ []
  | some sid ↦ elim (search_attr_value p key_attr) [
    | none ↦ []
    | some skey ↦ if mc.key_memory p then record { itemid = atoi sid; key = skey } ∷ [] else []
  ]
]

-- The keys of the elements of the right name among siblings, in their order.
unfoldable pub keys_in : Machine → Xml → List Key
keys_in mc null = []
keys_in mc (node n a c x) =
    (if eq_bytes n key_name then key_of mc (node n a c x) else []) ++ keys_in mc x

abbrev pub last_slot : Option Item → ℕ
last_slot none = 0
last_slot (some item) = bit_and item.itemid slot_mask

-- The tables after more keys were put into one slot.
record Gains (t t' : Tables) (new : List Key) : Type 0 where
  last : t'.last ≡ t.last
  keys : (s : ℕ) → t'.keys s ≡ t.keys s ++ (if s == last_slot t.last then new else [])

append_if_none : (b : Bool) (xs : List Key) → xs ≡ xs ++ (if b then [] else [])
append_if_none true xs = sym (append-nil xs)
append_if_none false xs = sym (append-nil xs)

append_if_both :
    (b : Bool) (xs new more : List Key)
    → (xs ++ (if b then new else [])) ++ (if b then more else [])
      ≡ xs ++ (if b then new ++ more else [])
append_if_both true xs new more = append_assoc xs new more
append_if_both false xs new more = append-nil (xs ++ [])

Gains-none : (t t' : Tables) → t ≡ t' → Gains t t' []
Gains-none t t' same =
    rw (← same)
      record { last = refl; keys = λ s. append_if_none (s == last_slot t.last) (t.keys s) }

Gains-both :
    (t u v : Tables) (new more : List Key)
    → Gains t u new
    → Gains u v more
    → Gains t v (new ++ more)
Gains-both t u v new more g h = record {
  last = h.last ∙ g.last;
  keys = λ s.
      let rest = λ (slot : ℕ). if s == slot then more else [] in
      h.keys s
      ∙ ap (λ xs. xs ++ rest (last_slot u.last)) (g.keys s)
      ∙ ap (λ l. (t.keys s ++ (if s == last_slot t.last then new else [])) ++ rest (last_slot l))
          g.last
      ∙ append_if_both (s == last_slot t.last) (t.keys s) new more;
}

Gains-add_key :
    (sid skey : Bytes) (t t' : Tables)
    → add_key sid skey t ≡ some t'
    → Gains t t' (record { itemid = atoi sid; key = skey } ∷ [])
unfolding add_key
Gains-add_key sid skey t t' h = elim (Option-cases t.last) [
  | inl e ↦ let bad : none ≡ some t' = rw (e, add_key) at h in cc
  | inr (item, e) ↦
      let key : Key = record { itemid = atoi sid; key = skey } in
      let after = record t { keys = append_at (bit_and item.itemid slot_mask) key t.keys } in
      let same : after ≡ t' = some-injective after t' (rw (e, add_key) at h) in
      rw (← same) record {
        last = refl;
        keys = λ s. rw e (elim (Bool-cases (s == bit_and item.itemid slot_mask)) [
          | inl here ↦ rw here refl
          | inr other ↦ rw other (sym (append-nil (t.keys s)))
        ]);
      }
]

parse_key-Gains :
    (mc : Machine) (p : Xml) (t t' : Tables) → parse_key mc p t ≡ some t' → Gains t t' (key_of mc p)
unfolding parse_key key_of
parse_key-Gains mc p t t' h = elim (Option-cases (search_attr_value p itemid_attr)) [
  | inl e ↦ rw (key_of, e) (Gains-none t t' (some-injective t t' (rw (e, parse_key) at h)))
  | inr (sid, e) ↦ elim (Option-cases (search_attr_value p key_attr)) [
    | inl e' ↦
        rw (key_of, e, e') (Gains-none t t' (some-injective t t' (rw (e, e', parse_key) at h)))
    | inr (skey, e') ↦ elim (Bool-cases (mc.key_memory p)) [
      | inl e'' ↦
          rw (key_of, e, e', e'') (Gains-add_key sid skey t t' (rw (e, e', e'', parse_key) at h))
      | inr e'' ↦
          let same = some-injective t t' (rw (e, e', e'', parse_key) at h) in
          rw (key_of, e, e', e'') (Gains-none t t' same)
    ]
  ]
]

for_each-Gains :
    (mc : Machine) (p : Xml) (t t' : Tables)
    → for_each key_name (parse_key mc) p t ≡ some t'
    → Gains t t' (keys_in mc p)
unfolding for_each keys_in
for_each-Gains mc null t t' h = Gains-none t t' (some-injective t t' h)
for_each-Gains mc (node n a c x) t t' h = elim (Bool-cases (eq_bytes n key_name)) [
  | inl e ↦
      let (t1, one, rest) = bind-some (parse_key mc (node n a c x) t) _ t' (rw e at h) in
      rw e (
        Gains-both t t1 t' (key_of mc (node n a c x)) (keys_in mc x)
          (parse_key-Gains mc (node n a c x) t t1 one) (for_each-Gains mc x t1 t' rest))
  | inr e ↦ rw e (for_each-Gains mc x t t' (rw e at h))
]

last_slot-lt : (l : Option Item) → last_slot l < slot_size
last_slot-lt none = omega arith
last_slot-lt (some item) = omega (arith, bit_and-ones 12 item.itemid)

add_item-keys :
    (mc : Machine) (idx_memory : Bool) (name stype sid : Bytes) (t t' : Tables)
    → add_item mc idx_memory name stype sid t ≡ some t'
    → t'.keys ≡ t.keys
unfolding add_item
add_item-keys mc idx_memory name stype sid t t' h = ground arith

-- No slot holds a key.
abbrev NoKeys : Tables → Type 0
NoKeys t = (s : ℕ) → t.keys s ≡ []

parse_item-NoKeys :
    (mc : Machine) (p : Xml) (t t' : Tables) → parse_item mc p t ≡ some t' → NoKeys t → NoKeys t'
parse_item-NoKeys mc p t t' h empty = elim (parse_item-or mc p t t' h) [
  | inl (_, same) ↦ rw (← same) empty
  | inr (name, stype, sid, added) ↦
      let kept = add_item-keys mc (mc.idx_memory p) name stype sid t t' added in
      λ s. ap (λ (keys : ℕ → List Key). keys s) kept ∙ empty s
]

parse_limits-keys : (x : Xml) (t : Tables) → (parse_limits x t).keys ≡ t.keys
unfolding parse_limits
parse_limits-keys null t = refl
parse_limits-keys (node n a c x) t = ground arith

-- Where the parse of a document from empty tables ends normally, all its keys are in one and the
-- same of the 4096 slots, in the order of their elements, and no slot holds another key: exactly
-- the elements of the right name with both attributes, and with memory for the key, are keys.
pub parse-keys_in :
    (mc : Machine) (doc : Xml) (t : Tables)
    → parse mc doc fresh ≡ some t
    → (slot : ℕ) × (slot < slot_size)
      × ((s : ℕ) → t.keys s ≡ (if s == slot then keys_in mc (key_nodes doc) else []))
unfolding parse fresh
parse-keys_in mc doc t h =
    let (t1, items, h1) =
      bind-some (for_each item_name (parse_item mc) (item_nodes doc) fresh) _ t h in
    let (t2, keys, h2) = bind-some (for_each key_name (parse_key mc) (key_nodes doc) t1) _ t h1 in
    let empty =
      for_each-keeps NoKeys item_name (parse_item mc) (parse_item-NoKeys mc) (item_nodes doc) fresh
        items (λ s. refl) in
    let gains = for_each-Gains mc (key_nodes doc) t1 t2 keys in
    let slot = last_slot t1.last in
    let new = λ (s : ℕ). if s == slot then keys_in mc (key_nodes doc) else [] in
    let end = ap (λ (x : Tables). x.keys) (sym (some-injective _ t h2)) in
    (
      slot,
      last_slot-lt t1.last,
      λ s.
          ap (λ (keys : ℕ → List Key). keys s) (end ∙ parse_limits-keys (ddos_node doc) t2)
          ∙ gains.keys s
          ∙ ap (λ xs. xs ++ new s) (empty s),
    )

-- Each key element of a document, with both attributes and memory for the key, has its pattern among
-- those that are built from the tables of the document's parse, where its text is not empty and its
-- item is found and is a port to send to.
pub parse-build :
    (mc : Machine) (doc : Xml) (t : Tables)
    → parse mc doc fresh ≡ some t
    → (k : Key) → In k (keys_in mc (key_nodes doc))
    → Selected t k
    → (p : Pattern) × In p (build t) × IsOf t k p
parse-build mc doc t h k there sel =
    let (slot, small, keys) = parse-keys_in mc doc t h in
    let here : t.keys slot ≡ keys_in mc (key_nodes doc) = keys slot ∙ (rw (==_refl slot) refl) in
    build_complete t slot k small (rw (sym here) at there) sel
