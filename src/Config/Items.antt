-- ===== src/Config/Items.antt =====
-- Which items the parse of flow_config/flow_config_parser.c makes, and what it keeps of them.
use uaflow.Prelude.{
  Bool, ℕ, ◌^◌, ◌≤◌, ◌<◌, ◌≡◌, refl, Option, none, some, List, [], ◌∷◌, arith, inl, inr, ◌⊎◌,
  Bool-cases, Option-cases, bit_and, take, length, length-take, not,
}
use uaflow.Prelude.CString.{eq_bytes, eq_nocase}
use uaflow.Prelude.Decimal.{atoi, atoi-lt}
use mathlib.Core.Option.{some-injective}
use uaflow.Config.{Item, Tables, slot_mask}
use uaflow.Config.Tree.{Bytes, Xml, null, node, search_attr_value}
use uaflow.Config.Parse.{
  ◌>>=◌, key_name, for_each, append_at, add_item, parse_item, add_key, parse_key, parse_limits,
  parse, name_attr, type_attr, id_attr, item_name, item_nodes, key_nodes, ddos_node,
}
use uaflow.Config.Devices.{Machine}

-- A sequence of two steps that ends with a value has one between them.
pub bind-some :
    {A B : Type 0} (m : Option A) (f : A → Option B) (b : B)
    → ◌>>=◌ m f ≡ some b
    → (a : A) × (m ≡ some a) × (f a ≡ some b)
bind-some none f b h = cc
bind-some (some a) f b h = (a, refl, h)

-- What holds before a loop over nodes and is kept by each round holds after it.
pub for_each-keeps :
    {S : Type 0} (P : S → Type 0) (v : Bytes) (f : Xml → S → Option S)
    → ((p : Xml) (s s' : S) → f p s ≡ some s' → P s → P s')
    → (x : Xml) (s : S) {s' : S} → for_each v f x s ≡ some s'
    → P s
    → P s'
unfolding for_each
for_each-keeps P v f step null s {s'} h holds = let e : s ≡ s' = cc in rw e at holds
for_each-keeps P v f step (node n a c x) s {s'} h holds = elim (Bool-cases (eq_bytes n v)) [
  | inl e ↦ elim (Option-cases (f (node n a c x) s)) [
    | inl stop ↦ let bad : none ≡ some s' = rw (e, stop) at h in cc
    | inr (s1, go) ↦
        for_each-keeps P v f step x s1 (rw (e, go) at h) (step (node n a c x) s s1 go holds)
  ]
  | inr e ↦ for_each-keeps P v f step x s (rw e at h) holds
]

-- The name of an item fits into its array, and its number into 32 bits.
abbrev pub Made : Item → Type 0
Made item = (length item.name ≤ 255) × (item.itemid < 2 ^ 32)

add_item-items :
    (mc : Machine) (idx_memory : Bool) (name stype sid : Bytes) (t : Tables) {t' : Tables}
    → add_item mc idx_memory name stype sid t ≡ some t'
    → (item : Item) × Made item
      × (t'.items ≡ append_at (bit_and item.itemid slot_mask) item t.items)
unfolding add_item
add_item-items mc idx_memory name stype sid t {t'} h =
    let is_tx = not (eq_nocase 2 stype (b'r' ∷ b'x' ∷ [])) in
    let item : Item = record { name = take 255 name; is_tx = is_tx; itemid = atoi sid } in
    (item, (omega (arith, length-take 255 name), atoi-lt sid), ground arith)

-- A round changes nothing but the last item, or adds an item.
pub parse_item-or :
    (mc : Machine) (p : Xml) (t t' : Tables)
    → parse_item mc p t ≡ some t'
    → ((l : Option Item) × (record t { last = l } ≡ t'))
      ⊎ ((name : Bytes) × (stype : Bytes) × (sid : Bytes) × (add_item mc
              (mc.idx_memory p)
              name
              stype
              sid
              t
            ≡ some t'))
unfolding parse_item
parse_item-or mc p t t' h = elim (Option-cases (search_attr_value p name_attr)) [
  | inl e ↦ inl (t.last, some-injective t t' (rw (e, parse_item) at h))
  | inr (name, e) ↦ elim (Option-cases (search_attr_value p type_attr)) [
    | inl e' ↦ inl (t.last, some-injective t t' (rw (e, e', parse_item) at h))
    | inr (stype, e') ↦ elim (Option-cases (search_attr_value p id_attr)) [
      | inl e'' ↦ inl (t.last, some-injective t t' (rw (e, e', e'', parse_item) at h))
      | inr (sid, e'') ↦ elim (Bool-cases (mc.item_memory p)) [
        | inl some_memory ↦ inr (name, stype, sid, rw (e, e', e'', some_memory, parse_item) at h)
        | inr dry ↦
            let after = record t { last = none } in
            inl (none, some-injective after t' (rw (e, e', e'', dry, parse_item) at h))
      ]
    ]
  ]
]

parse_key-items :
    (mc : Machine) (p : Xml) (t t' : Tables) → parse_key mc p t ≡ some t' → t'.items ≡ t.items
unfolding parse_key add_key
parse_key-items mc p t t' h = ground arith

parse_limits-items : (x : Xml) (t : Tables) → (parse_limits x t).items ≡ t.items
unfolding parse_limits
parse_limits-items null t = refl
parse_limits-items (node n a c x) t = ground arith

-- What holds of the items before the parse and is kept by each new one holds after it.
module _ (P : (ℕ → List Item) → Type 0)
    (step : (item : Item) (items : ℕ → List Item)
      → Made item
      → P items
      → P (append_at (bit_and item.itemid slot_mask) item items)) where
  abbrev Holds : Tables → Type 0
  Holds t = P t.items

  parse_item-Holds :
      (mc : Machine) (p : Xml) (t t' : Tables) → parse_item mc p t ≡ some t' → Holds t → Holds t'
  parse_item-Holds mc p t t' h holds = elim (parse_item-or mc p t t' h) [
    | inl (_, same) ↦ rw (← same) holds
    | inr (name, stype, sid, added) ↦
        let (item, made, items) = add_item-items mc (mc.idx_memory p) name stype sid t added in
        rw items (step item t.items made holds)
  ]

  parse_key-Holds :
      (mc : Machine) (p : Xml) (t t' : Tables) → parse_key mc p t ≡ some t' → Holds t → Holds t'
  parse_key-Holds mc p t t' h holds = rw (parse_key-items mc p t t' h) holds

  pub parse-keeps :
      (mc : Machine) (doc : Xml) (t t' : Tables) → parse mc doc t ≡ some t' → Holds t → Holds t'
  unfolding parse
  parse-keeps mc doc t t' h holds =
      let (t1, items, h1) =
        bind-some (for_each item_name (parse_item mc) (item_nodes doc) t) _ t' h in
      let (t2, keys, h2) =
        bind-some (for_each key_name (parse_key mc) (key_nodes doc) t1) _ t' h1 in
      let holds1 =
        for_each-keeps Holds item_name (parse_item mc) (parse_item-Holds mc) (item_nodes doc) t
          items holds in
      let holds2 =
        for_each-keeps Holds key_name (parse_key mc) (parse_key-Holds mc) (key_nodes doc) t1 keys
          holds1 in
      rw (← some-injective _ t' h2, parse_limits-items (ddos_node doc) t2) holds2
