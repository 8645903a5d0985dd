-- ===== src/Config/Devices.antt =====
-- flow_config/flow_config_parser.c: the search for a device's port, and the lists of ports.
use uaflow.Prelude.{
  ℕ, zero, suc, ◌+◌, ◌%◌, ◌^◌, Bool, true, false, ◌&&◌, not, Option, none, some, List, [], ◌∷◌,
  ◌++◌, ◌==◌, if◌then◌else◌, length, drop,
}
use uaflow.Prelude.CString.{eq_nocase}
use uaflow.Config.{Idx}
use uaflow.Config.Tree.{Bytes, Xml}

abbrev pub name_mac : Bytes
name_mac =
    b'A' ∷ b'T' ∷ b'T' ∷ b'R' ∷ b'{' ∷ b'a' ∷ b'd' ∷ b'd' ∷ b'r' ∷ b'e' ∷ b's' ∷ b's' ∷ b'}' ∷ b'='
    ∷ b'=' ∷ []

abbrev pub name_device : Bytes
name_device = b'N' ∷ b'A' ∷ b'M' ∷ b'E' ∷ b'=' ∷ []

-- Does `s` begin with `t`?
starts : (s t : Bytes) → Bool
starts s [] = true
starts [] (c ∷ t) = false
starts (d ∷ s) (c ∷ t) = d == c && starts s t

-- `strstr(s, t)`
strstr : (s t : Bytes) → Option Bytes
unfolding starts
strstr [] t = if starts [] t then some [] else none
strstr (d ∷ s) t = if starts (d ∷ s) t then some (d ∷ s) else strstr s t

-- One round of the loop of `rte_eth_dev_attach_self_inside_checkmac`. `sizeof` counts the
-- terminator of the pattern, so it skips the quotation mark behind it, too.
line_names : (device smac line : Bytes) → Bool
unfolding strstr
line_names device smac line = elim (strstr line name_mac) [
  | none ↦ false
  | some p1 ↦ elim (strstr line name_device) [
    | none ↦ false
    | some p2 ↦
        eq_nocase (length smac) (drop (length name_mac + 1) p1) smac
        && eq_nocase (length device) (drop (length name_device + 1) p2) device
  ]
]

-- `rte_eth_dev_attach_self_inside_checkmac`, on the lines of the file of rules; `none` is a file
-- that cannot be opened. (The last line may be looked at twice in the source.)
unfoldable pub checkmac : Option (List Bytes) → (device smac : Bytes) → Bool
unfolding line_names
checkmac none device smac = false
checkmac (some []) device smac = false
checkmac (some (line ∷ rest)) device smac =
    if line_names device smac line then true else checkmac (some rest) device smac

-- The machine: the rules, the number of DPDK's ports and their addresses, and the length of the
-- arrays of ports (RTE_MAX_ETHPORTS); and whether `rte_zmalloc` has memory for an element's item, for
-- that item's entry among the ports, and for an element's key.
pub record Machine : Type 0 where
  pub rules : Option (List Bytes)
  pub nb_ports : ℕ
  pub mac : ℕ → Bytes
  pub max_ports : ℕ
  pub item_memory : Xml → Bool
  pub idx_memory : Xml → Bool
  pub key_memory : Xml → Bool

-- The loop of `rte_eth_dev_attach_self` from port `i` on, with `left` ports to go.
unfoldable pub attach_from : (check : ℕ → Bool) → (left i : ℕ) → ℕ
attach_from check zero i = 0
attach_from check (suc left) i = if check i then i else attach_from check left (i + 1)

-- `rte_eth_dev_attach_self`: the port, in 8 bits.
unfoldable pub attach_self : Machine → Bytes → ℕ
attach_self mc device = attach_from (λ i. checkmac mc.rules device (mc.mac i)) mc.nb_ports 0 % 2 ^ 8

-- The loop that binds a device: the first entry with the number that is not bound yet is marked.
-- The answer says whether there was one.
unfoldable pub claim : (itemid : ℕ) → List Idx → List Idx × Bool
claim itemid [] = ([], false)
claim itemid (e ∷ es) =
    let (es', found) = claim itemid es in
    if e.itemid == itemid && not e.to then (record e { to = true } ∷ es, true) else (e ∷ es', found)

-- `curptr->idx = …`, where `curptr` is the last entry.
unfoldable pub set_last : ℕ → List Idx → List Idx
set_last v [] = []
set_last v (e ∷ []) = record e { idx = v } ∷ []
set_last v (e ∷ e' ∷ es) = e ∷ set_last v (e' ∷ es)

-- A new entry at the end of a list of ports, and the binding of its device.
unfoldable pub push_idx : (port itemid : ℕ) → List Idx → List Idx
push_idx port itemid es =
    let (es', found) = claim itemid (es ++ record { to = false; idx = 0; itemid = itemid } ∷ []) in
    if found then set_last port es' else es'
