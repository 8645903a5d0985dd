-- ===== src/Config/Parse.antt =====
-- flow_config/flow_config_parser.c: the parse of the document into the tables.
use uaflow.Prelude.{
  ℕ, not, Option, none, some, List, [], ◌∷◌, ◌++◌, ltb, ◌&&◌, Bool, ◌==◌, if◌then◌else◌, length,
  take, bit_and,
}
use uaflow.Prelude.CString.{eq_bytes, eq_nocase}
use uaflow.Prelude.Decimal.{atoi}
use uaflow.Config.{Item, Key, Tables, slot_mask, scan_number_default, scan_millisecond_default}
use uaflow.Config.Devices.{Machine, attach_self, push_idx}
use uaflow.Config.Tree.{Bytes, Xml, null, node, get_prop, search4, search_attr_value}

abbrev pub uaflow_name : Bytes
uaflow_name = b'U' ∷ b'A' ∷ b'F' ∷ b'l' ∷ b'o' ∷ b'w' ∷ []

abbrev pub item_name : Bytes
item_name = b'I' ∷ b't' ∷ b'e' ∷ b'm' ∷ []

abbrev pub key_name : Bytes
key_name = b'U' ∷ b'A' ∷ b'K' ∷ b'e' ∷ b'y' ∷ []

abbrev pub name_attr : Bytes
name_attr = b'n' ∷ b'a' ∷ b'm' ∷ b'e' ∷ []

abbrev pub type_attr : Bytes
type_attr = b't' ∷ b'y' ∷ b'p' ∷ b'e' ∷ []

abbrev pub id_attr : Bytes
id_attr = b'I' ∷ b'D' ∷ []

abbrev pub itemid_attr : Bytes
itemid_attr = b'I' ∷ b't' ∷ b'e' ∷ b'm' ∷ b'I' ∷ b'D' ∷ []

abbrev pub key_attr : Bytes
key_attr = b'k' ∷ b'e' ∷ b'y' ∷ []

abbrev pub number_attr : Bytes
number_attr = b'C' ∷ b'K' ∷ b'N' ∷ b'u' ∷ b'm' ∷ b'b' ∷ b'e' ∷ b'r' ∷ []

abbrev pub time_attr : Bytes
time_attr = b'C' ∷ b'K' ∷ b'T' ∷ b'i' ∷ b'm' ∷ b'e' ∷ []

abbrev pub capmode_name : Bytes
capmode_name = b'C' ∷ b'a' ∷ b'p' ∷ b'm' ∷ b'o' ∷ b'd' ∷ b'e' ∷ []

abbrev pub flow_name : Bytes
flow_name = b'F' ∷ b'l' ∷ b'o' ∷ b'w' ∷ []

abbrev pub scan_name : Bytes
scan_name = b'S' ∷ b'c' ∷ b'a' ∷ b'n' ∷ []

abbrev pub ddos_name : Bytes
ddos_name = b'D' ∷ b'D' ∷ b'O' ∷ b'S' ∷ []

infixl 5 ◌>>=◌
abbrev pub ◌>>=◌ {ℓ} : {A B : Type ℓ} → Option A → (A → Option B) → Option B
none >>= f = none
some a >>= f = f a

-- A loop over the nodes named `v` among siblings, by `config_search_next`. `none` is an access
-- outside an array or by a null pointer.
unfoldable pub for_each {ℓ} : {S : Type ℓ} → Bytes → (Xml → S → Option S) → Xml → S → Option S
for_each v f null s = some s
for_each v f (node n a c x) s =
    if eq_bytes n v then f (node n a c x) s >>= for_each v f x else for_each v f x s

-- `list_add_tail` on the list of a slot.
abbrev pub append_at {ℓ} : {A : Type ℓ} → ℕ → A → (ℕ → List A) → ℕ → List A
append_at slot a lists s = if s == slot then lists s ++ a ∷ [] else lists s

-- What is done with an item that has all its attributes. Without memory for its entry in the list of
-- ports a null pointer is cleared.
unfoldable pub add_item :
    Machine → (idx_memory : Bool) → (name stype sid : Bytes) → Tables → Option Tables
unfolding push_idx attach_self
add_item mc idx_memory name stype sid t =
    let is_tx = not (eq_nocase 2 stype (b'r' ∷ b'x' ∷ [])) in
    let item : Item = record { name = take 255 name; is_tx = is_tx; itemid = atoi sid } in
    let t1 = record t {
      items = append_at (bit_and item.itemid slot_mask) item t.items;
      last = some item;
    } in
    let port = attach_self mc name in
    if ltb (length (if is_tx then t.tx_idx else t.rx_idx)) mc.max_ports && idx_memory
    then (if is_tx
        then some (record t1 { tx_idx = push_idx port item.itemid t.tx_idx })
        else some (record t1 { rx_idx = push_idx port item.itemid t.rx_idx }))
    else none

-- One round of the first loop of `flow_config_module_load_inside_parse`. An element without memory
-- for its item is passed over, and leaves `item` null.
unfoldable pub parse_item : Machine → Xml → Tables → Option Tables
parse_item mc p t = elim (search_attr_value p name_attr) [
  | none ↦ some t
  | some name ↦ elim (search_attr_value p type_attr) [
    | none ↦ some t
    | some stype ↦ elim (search_attr_value p id_attr) [
      | none ↦ some t
      | some sid ↦
          if mc.item_memory p
          then add_item mc (mc.idx_memory p) name stype sid t
          else some (record t { last = none })
    ]
  ]
]

-- What is done with a key that has both attributes: it goes into the slot of the last item, and
-- `none` is the use of `item` where there was no item.
unfoldable pub add_key : (sid skey : Bytes) → Tables → Option Tables
add_key sid skey t = elim t.last [
  | none ↦ none
  | some item ↦
      let key : Key = record { itemid = atoi sid; key = skey } in
      some (record t { keys = append_at (bit_and item.itemid slot_mask) key t.keys })
]

-- One round of the second loop. An element without memory for its key is passed over.
unfoldable pub parse_key : Machine → Xml → Tables → Option Tables
parse_key mc p t = elim (search_attr_value p itemid_attr) [
  | none ↦ some t
  | some sid ↦ elim (search_attr_value p key_attr) [
    | none ↦ some t
    | some skey ↦ if mc.key_memory p then add_key sid skey t else some t
  ]
]

-- The end of the parse: the limits of the detector, from the first element DDOS.
unfoldable pub parse_limits : Xml → Tables → Tables
parse_limits null t = t
parse_limits (node n a c x) t =
    let default_limits = record t {
      scan_millisecond = scan_millisecond_default;
      scan_number = scan_number_default;
    } in
    elim (get_prop a number_attr) [
      | none ↦ default_limits
      | some number ↦ elim (get_prop a time_attr) [
        | none ↦ default_limits
        | some time ↦ record t { scan_millisecond = atoi time; scan_number = atoi number }
      ]
    ]

-- The first nodes of the three loops and tests.
unfoldable pub item_nodes : Xml → Xml
item_nodes doc = search4 doc uaflow_name capmode_name (some item_name) none

unfoldable pub key_nodes : Xml → Xml
key_nodes doc = search4 doc uaflow_name flow_name (some key_name) none

unfoldable pub ddos_node : Xml → Xml
ddos_node doc = search4 doc uaflow_name scan_name (some ddos_name) none

-- `flow_config_module_load_inside_parse`
unfoldable pub parse : Machine → Xml → Tables → Option Tables
parse mc doc t = do
  t1 ← for_each item_name (parse_item mc) (item_nodes doc) t
  t2 ← for_each key_name (parse_key mc) (key_nodes doc) t1
  some (parse_limits (ddos_node doc) t2)
