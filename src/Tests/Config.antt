-- ===== src/Tests/Config.antt =====
-- The configuration's theorems at concrete inputs.
use uaflow.Prelude.{
  length, ◌≤◌, ◌<◌, In, ℕ, ◌≡◌, refl, sym, true, false, Option, none, some, [], ◌∷◌, ◌==◌, ==_iff,
  inl, inr, ◌⊎◌, Bool-cases,
}
use uaflow.Prelude.CString.{eq_bytes, eq_nocase}
use uaflow.Config.{Item, Key, Tables, fresh, slot_size}
use uaflow.Config.Tree.{
  Xml, null, node, is_null, search4, unlink_children4, Encoding, utf_8, gb2312, unicode, load,
  search_level, search_children, search_list, search_attr_value, get_prop,
}
use uaflow.Config.Devices.{Machine, push_idx, attach_from, claim, set_last, attach_self, checkmac}
use uaflow.Prelude.Decimal.{atoi}
use uaflow.Config.Parse.{
  parse, for_each, item_nodes, key_nodes, ddos_node, parse_limits, parse_item, add_item, append_at,
  uaflow_name, capmode_name, item_name, name_attr, type_attr, id_attr,
}
use uaflow.Config.Dump.{dump, buff_size, key_line}
use uaflow.Config.Log.{log_of, dump-log_of}
use uaflow.Config.Paths.{IsNamed, load-utf_8}
use uaflow.Config.Unlink.{emptied, search4-unlink_children4}
use uaflow.Config.Keys.{IsHashed, parse-IsHashed}
use uaflow.Tests.Plain.{port_item, tables}

-- A file that only the second encoding can read.
abbrev only_gb : Encoding → Option Xml
only_gb utf_8 = none
only_gb gb2312 = some (node (b'r' ∷ []) [] null null)
only_gb unicode = none

load-utf_8_example :
    ((doc : Xml) × (only_gb utf_8 ≡ some doc)
      × (is_null doc ≡ false)
      × (load true only_gb ≡ some doc))
    ⊎ ((load true only_gb ≡ none) × ((doc : Xml) → only_gb utf_8 ≡ some doc → is_null doc ≡ true))
load-utf_8_example = load-utf_8 only_gb

abbrev pub machine : Machine
machine = record {
  rules = none;
  nb_ports = 2;
  mac = λ i. [];
  max_ports = 32;
  item_memory = λ p. true;
  idx_memory = λ p. true;
  key_memory = λ p. true;
}

-- A document with one item.
abbrev pub one_item : Xml
one_item =
    node uaflow_name []
      (node capmode_name []
        (node item_name
          ((name_attr, b'e' ∷ []) ∷ (type_attr, b't' ∷ b'x' ∷ []) ∷ (id_attr, b'7' ∷ []) ∷ []) null
          null)
        null)
      null

-- The children of its element Capmode.
abbrev items : Xml
items =
    node item_name
      ((name_attr, b'e' ∷ []) ∷ (type_attr, b't' ∷ b'x' ∷ []) ∷ (id_attr, b'7' ∷ []) ∷ []) null null

search4-unlink_children4_example :
    (new : Xml) × (unlink_children4 one_item uaflow_name capmode_name none none ≡ some new)
    × (new ≡ emptied one_item capmode_name none none)
    × IsNamed capmode_name (λ children. null) (search4 new uaflow_name capmode_name none none)
search4-unlink_children4_example =
    search4-unlink_children4 [] (node capmode_name [] items null) null uaflow_name capmode_name none
      none

abbrev pub seventh : Item
seventh = record { name = b'e' ∷ []; is_tx = true; itemid = 7 }

abbrev pub after_one : Tables
after_one = record fresh {
  tx_idx = record { to = true; idx = 0; itemid = 7 } ∷ [];
  items = append_at 7 seventh fresh.items;
  last = some seventh;
}

pub parse_run : parse machine one_item fresh ≡ some after_one
unfolding parse for_each item_nodes key_nodes ddos_node search4 search_level search_children
    search_list eq_bytes fresh parse_limits parse_item add_item search_attr_value get_prop atoi
    eq_nocase push_idx claim set_last attach_self attach_from checkmac
parse_run = refl

fresh-IsHashed : IsHashed fresh
unfolding fresh
fresh-IsHashed s i h = elim h [ ]

parse-IsHashed_example : IsHashed after_one
parse-IsHashed_example = parse-IsHashed machine one_item fresh after_one parse_run fresh-IsHashed

tables-IsHashed : IsHashed tables
tables-IsHashed s i h = elim (Bool-cases (s == 101)) [
  | inl e ↦
      let there : In i (port_item ∷ []) = rw e at h in
      elim there [ inl same ↦ rw same (sym ((==_iff s 101).0 e)) | inr gone ↦ elim gone [ ] ]
  | inr e ↦ let gone : In i [] = rw e at h in elim gone [ ]
]

dump-log_of_example :
    (dump true after_one [] ≡ some (log_of after_one))
    ⊎ ((dump true after_one [] ≡ none)
        × ((slot : ℕ) × (slot < slot_size)
            × ((key : Key) × In key (after_one.keys slot) × (buff_size ≤ length (key_line key)))))
dump-log_of_example = dump-log_of machine one_item after_one [] parse_run
