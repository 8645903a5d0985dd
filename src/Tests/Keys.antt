-- ===== src/Tests/Keys.antt =====
-- A document with one item and one key.
use uaflow.Prelude.{
  none, false, ℕ, ◌<◌, ◌≡◌, refl, some, [], ◌∷◌, arith, In, inl, ◌==◌, if◌then◌else◌,
}
use uaflow.Prelude.CString.{eq_bytes, eq_nocase}
use uaflow.Prelude.Decimal.{atoi}
use uaflow.Config.{Key, Tables, fresh, slot_size}
use uaflow.Config.Tree.{
  Xml, null, node, get_prop, search4, search_level, search_children, search_list, search_attr_value,
}
use uaflow.Config.Devices.{push_idx, claim, set_last, attach_self, attach_from, checkmac}
use uaflow.Config.Parse.{
  uaflow_name, capmode_name, item_name, flow_name, key_name, name_attr, type_attr, id_attr,
  itemid_attr, key_attr, append_at, parse, parse_item, parse_key, add_item, add_key, parse_limits,
  for_each, item_nodes, key_nodes, ddos_node,
}
use uaflow.Config.Build.{Pattern, build, find_item, find_in}
use uaflow.Config.Search.{Selected, IsOf}
use uaflow.Config.Slots.{key_of, keys_in, parse-keys_in, parse-build}
use uaflow.Tests.Config.{machine, seventh, after_one}

abbrev key_element : Xml
key_element = node key_name ((itemid_attr, b'7' ∷ []) ∷ (key_attr, b'M' ∷ b'I' ∷ []) ∷ []) null null

abbrev item_element : Xml
item_element =
    node item_name
      ((name_attr, b'e' ∷ []) ∷ (type_attr, b't' ∷ b'x' ∷ []) ∷ (id_attr, b'7' ∷ []) ∷ []) null null

abbrev both : Xml
both =
    node uaflow_name [] (node capmode_name [] item_element (node flow_name [] key_element null))
      null

abbrev mi : Key
mi = record { itemid = 7; key = b'M' ∷ b'I' ∷ [] }

abbrev after_both : Tables
after_both = record after_one { keys = append_at 7 mi fresh.keys }

both_run : parse machine both fresh ≡ some after_both
unfolding parse for_each item_nodes key_nodes ddos_node search4 search_level search_children
    search_list eq_bytes fresh parse_limits parse_item parse_key add_key add_item search_attr_value
    get_prop atoi eq_nocase push_idx claim set_last attach_self attach_from checkmac
both_run = refl

-- Without memory for the item the key finds none, and without memory for the key it is left out.
unread : parse (record machine { item_memory = λ p. false }) both fresh ≡ none
unfolding parse for_each item_nodes key_nodes ddos_node search4 search_level search_children
    search_list eq_bytes fresh parse_limits parse_item parse_key add_key add_item search_attr_value
    get_prop atoi eq_nocase push_idx claim set_last attach_self attach_from checkmac
unread = refl

keyless : parse (record machine { key_memory = λ p. false }) both fresh ≡ some after_one
unfolding parse for_each item_nodes key_nodes ddos_node search4 search_level search_children
    search_list eq_bytes fresh parse_limits parse_item parse_key add_key add_item search_attr_value
    get_prop atoi eq_nocase push_idx claim set_last attach_self attach_from checkmac
keyless = refl

parse-keys_in_example :
    (slot : ℕ) × (slot < slot_size)
    × ((s : ℕ) → after_both.keys s ≡ (if s == slot then keys_in machine (key_nodes both) else []))
parse-keys_in_example = parse-keys_in machine both after_both both_run

mi-In : In mi (keys_in machine (key_nodes both))
unfolding keys_in key_of key_nodes search4 search_level search_children search_list eq_bytes
    search_attr_value get_prop atoi
mi-In = inl refl

mi-Selected : Selected after_both mi
unfolding find_item find_in fresh
mi-Selected = record { item = seventh; found = refl; is_tx = refl; some_text = omega arith }

parse-build_example : (p : Pattern) × In p (build after_both) × IsOf after_both mi p
parse-build_example = parse-build machine both after_both both_run mi mi-In mi-Selected
