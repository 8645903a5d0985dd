-- ===== src/Config.antt =====
-- The configuration: flow_config/flow_config_parser.c and flow_config/flow_config_xml.c. Here are
-- the tables; the children have the XML tree (Tree), the devices (Devices), the parse (Parse), the
-- patterns and the search (Build), and theorems on them.
pub mod Tree
pub mod Paths
pub mod Unlink
pub mod Devices
pub mod Bindings
pub mod Parse
pub mod Items
pub mod Keys
pub mod Slots
pub mod Build
pub mod Search
pub mod Dump
pub mod Log
use uaflow.Prelude.{
  ℕ, zero, suc, ◌+◌, ◌-◌, ◌*◌, ◌%◌, ◌^◌, ◌≡◌, ◌⊎◌, Bool, true, false, ◌&&◌, ◌||◌, not, Option, none,
  some, List, [], ◌∷◌, ◌++◌, ltb, leb, ◌==◌, if◌then◌else◌, length, take, drop, replicate, bit_and,
}

-- FLOW_CONFIG_SLOT_SIZE and FLOW_CONFIG_SLOT_MASK
abbrev pub slot_size : ℕ
slot_size = 4096

abbrev pub slot_mask : ℕ
slot_mask = slot_size - 1

-- FLOW_CONFIG_DDOS_SCAN_NUMBER_DEFAULT and FLOW_CONFIG_DDOS_SCAN_MILLISECOND_DEFAULT
abbrev pub scan_number_default : ℕ
scan_number_default = 1000

abbrev pub scan_millisecond_default : ℕ
scan_millisecond_default = 5000

-- `flow_config_item_t`, less its link: `is_tx` is FLOW_PMD_MODE_TX, and the name's length is that
-- of the list.
pub record Item : Type 0 where
  pub name : List ℕ
  pub is_tx : Bool
  pub itemid : ℕ

-- `flow_config_key_t`, less its link
pub record Key : Type 0 where
  pub itemid : ℕ
  pub key : List ℕ

-- `flow_config_idx_t`
pub record Idx : Type 0 where
  pub to : Bool
  pub idx : ℕ
  pub itemid : ℕ

-- The static tables. The lists that hang in a slot are in their order; `last` is the local variable
-- `item` of the parse, a null pointer at first.
pub record Tables : Type 0 where
  pub rx_idx : List Idx
  pub tx_idx : List Idx
  pub items : ℕ → List Item
  pub keys : ℕ → List Key
  pub scan_number : ℕ
  pub scan_millisecond : ℕ
  pub last : Option Item

-- `flow_config_module_init`, and the zeros that static variables begin with.
unfoldable pub fresh : Tables
fresh = record {
  rx_idx = [];
  tx_idx = [];
  items = λ s. [];
  keys = λ s. [];
  scan_number = 0;
  scan_millisecond = 0;
  last = none;
}
