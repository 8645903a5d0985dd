-- ===== src/Config/Dump.antt =====
-- `flow_config_module_dump` of flow_config/flow_config_parser.c: what it writes of the tables into
-- the log, by way of a buffer of 1024 bytes.
use uaflow.Prelude.{
  ℕ, zero, suc, ◌+◌, Bool, true, false, Option, none, some, List, [], ◌∷◌, ◌++◌, ltb, if◌then◌else◌,
  length,
}
use uaflow.Prelude.CString.{text}
use uaflow.Prelude.Decimal.{decimal}
use uaflow.Config.{Item, Key, Tables, slot_size}

-- `sizeof(buff)`
abbrev pub buff_size : ℕ
buff_size = 1024

abbrev pub capmode_head : List ℕ
capmode_head = b'[' ∷ b'C' ∷ b'a' ∷ b'p' ∷ b'm' ∷ b'o' ∷ b'd' ∷ b'e' ∷ b']' ∷ b':' ∷ 10 ∷ []

abbrev pub flow_head : List ℕ
flow_head = b'[' ∷ b'F' ∷ b'l' ∷ b'o' ∷ b'w' ∷ b']' ∷ b':' ∷ 10 ∷ []

-- The formats "TX [%s] ID:[%u]\n", the same with RX, and "ID:[%u] key:[%s]\n".
unfoldable pub item_line : Item → List ℕ
item_line item =
    let direction = if item.is_tx then b'T' else b'R' in
    (direction ∷ b'X' ∷ b' ' ∷ b'[' ∷ [])
    ++ text item.name
    ++ (b']' ∷ b' ' ∷ b'I' ∷ b'D' ∷ b':' ∷ b'[' ∷ [])
    ++ decimal item.itemid
    ++ b']' ∷ 10 ∷ []

unfoldable pub key_line : Key → List ℕ
key_line key =
    (b'I' ∷ b'D' ∷ b':' ∷ b'[' ∷ [])
    ++ decimal key.itemid
    ++ (b']' ∷ b' ' ∷ b'k' ∷ b'e' ∷ b'y' ∷ b':' ∷ b'[' ∷ [])
    ++ text key.key
    ++ b']' ∷ 10 ∷ []

-- `sprintf` into the buffer: `none` is a write behind its end.
abbrev pub sprintf : List ℕ → Option (List ℕ)
sprintf line = if ltb (length line) buff_size then some line else none

module _ {A : Type 0} (line : A → List ℕ) where
  -- The loop over a slot, and the one over the slots from `i` on with `n` rounds left.
  unfoldable pub dump_slot : List A → (log : List ℕ) → Option (List ℕ)
  dump_slot [] log = some log
  dump_slot (x ∷ xs) log = elim (sprintf (line x)) [
    | none ↦ none
    | some buff ↦ dump_slot xs (log ++ buff)
  ]

  unfoldable pub dump_slots : (ℕ → List A) → (n i : ℕ) → (log : List ℕ) → Option (List ℕ)
  dump_slots slots zero i log = some log
  dump_slots slots (suc n) i log = elim (dump_slot (slots i) log) [
    | none ↦ none
    | some log' ↦ dump_slots slots n (i + 1) log'
  ]

-- `flow_config_module_dump`: the log afterwards, where it can be opened or not.
unfoldable pub dump : (opens : Bool) → Tables → (log : List ℕ) → Option (List ℕ)
dump false t log = some log
dump true t log = elim (dump_slots item_line t.items slot_size 0 capmode_head) [
  | none ↦ none
  | some log' ↦ dump_slots key_line t.keys slot_size 0 (log' ++ flow_head)
]
