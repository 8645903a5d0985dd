-- ===== src/Ddos.antt =====
-- flow_ddos/flow_ddos.c and flow_ddos/flow_ddos.h: the scan detector's table of sources. A bucket
-- is an intrusive circular list (the operations of flow_core/flow_core_list.h that it expands to)
-- over an explicit memory; a source is a number, of 32 bits in one table and of 128 in the other.
pub mod Items
pub mod Account
pub mod Window
pub mod Slot
pub mod Ring
pub mod Scan
pub mod Insert
pub mod Detect
pub mod Reuse
pub mod Taken
pub mod Cut
pub mod Alarm
pub mod Burst
pub mod NewSource
pub mod PortSet
pub mod Moved
pub mod Late
pub mod Oldest
pub mod Full
pub mod Table
use uaflow.Prelude.{
  ℕ, zero, suc, ◌+◌, ◌-◌, ◌*◌, ◌%◌, ◌^◌, Bool, true, false, ◌&&◌, Option, none, some, ltb, ◌==◌,
  not, if◌then◌else◌, bit_and,
}
use Items.{
  Ptr, null, Node, Entry, Memory, Run, ok, fault, out_of_fuel, ◌>>=◌, ◌>>◌, update, load, store,
  clear, init_list_head, list_add_tail, return, check, next_of,
}

-- FLOW_DDOS_NODE_LIST_MAX_SZ and FLOW_DDOS_NODE_LIST_MASK
abbrev pub node_list_max_sz : ℕ
node_list_max_sz = 10240

abbrev pub node_list_mask : ℕ
node_list_mask = node_list_max_sz - 1

-- FLOW_DDOS_EVERYNODE_ENTRY_MAX_SZ
abbrev pub everynode_entry_max_sz : ℕ
everynode_entry_max_sz = 1024

-- The bucket of a source, from the value of DPDK's hash.
unfoldable pub slot : ℕ → ℕ
slot hash = bit_and hash node_list_mask

-- flow_ddos_scan_number and flow_ddos_scan_millisecond
pub record Limits : Type 0 where
  pub number : ℕ
  pub millisecond : ℕ

-- The packet, as the detector sees it.
pub record Probe : Type 0 where
  pub addr : ℕ
  pub port : ℕ

-- `(item->modtime - now) * 1000`, in 32 bits.
unfoldable pub elapsed : (modtime now : ℕ) → ℕ
elapsed modtime now = (modtime + 2 ^ 32 - now) % 2 ^ 32 * 1000 % 2 ^ 32

-- The loop over the entries from `i` on, with `k` of them left; `none` is a read outside the array.
unfoldable pub is_recorded : Probe → (ℕ → Entry) → (k i : ℕ) → Option Bool
is_recorded p entry zero i = some false
is_recorded p entry (suc k) i =
    if ltb i everynode_entry_max_sz
    then (if (entry i).port == p.port && (entry i).addr == p.addr
        then some true
        else is_recorded p entry k (i + 1))
    else none

-- The end of the detector, from the test of the time on: `now` and `later` are its two readings of
-- the clock. `none` is an access outside the array of entries.
expire : Limits → ℕ → Node → Node
expire l now n = record n {
  n_packets = if ltb l.millisecond (elapsed n.modtime now) then 0 else n.n_packets;
}

record_port : Limits → Probe → Node → Option (Node × Bool)
record_port l p n =
    if ltb n.n_packets everynode_entry_max_sz
    then (let count = (n.n_packets + 1) % 2 ^ 32 in
        let entry = update n.entry n.n_packets (record { port = p.port; addr = p.addr }) in
        if ltb l.number count
        then some (record n { entry = entry; n_packets = 0 }, true)
        else some (record n { entry = entry; n_packets = count }, false))
    else none

unfoldable pub account : Limits → Probe → (now later : ℕ) → Node → Option (Node × Bool)
unfolding expire record_port
account l p now later n =
    let n1 = record (expire l now n) { modtime = later } in
    elim (is_recorded p n1.entry n1.n_packets 0) [
      | none ↦ none
      | some true ↦ some (n1, false)
      | some false ↦ record_port l p n1
    ]

-- What the loop over the bucket leaves: the source's item or `null`, the number of items passed,
-- and the one with the smallest time below `mtime`.
pub record Found : Type 0 where
  pub item : Ptr
  pub cnt : ℕ
  pub old : Ptr

-- The initial value of `mtime`.
abbrev pub mtime_max : ℕ
mtime_max = 3000000000

unfoldable pub scan :
    (addr : ℕ) (head : Ptr)
    → (fuel : ℕ) (pos : Ptr) (mtime cnt : ℕ) (old : Ptr) → Memory
    → Run Found
scan addr head zero pos mtime cnt old m = out_of_fuel
scan addr head (suc fuel) pos mtime cnt old m =
    let n = m.node pos in
    let older = ltb n.modtime mtime in
    let rest =
      scan addr head fuel (m.next pos) (if older then n.modtime else mtime) (cnt + 1)
        (if older then pos else old) m in
    if pos == head
    then ok (record { item = null; cnt = cnt; old = old }) m
    else if pos == null
    then fault
    else if n.addr == addr
    then ok (record { item = pos; cnt = cnt; old = old }) m
    else rest

-- The number of items at which a bucket is full.
abbrev pub full : ℕ
full = 10

-- The end of the detector on an item that is no null pointer: the test of the time, the ports and
-- the alarm.
pub finish : Limits → Probe → (now later : ℕ) → Ptr → Memory → Run Bool
unfolding account
finish l p now later item = do
  n ← load item
  (n', alarm) ← check (account l p now later n)
  store item n'
  return alarm

-- The packet's surroundings: the limits, the bucket's head, what `rte_mempool_get` answers, and the
-- successive readings of the clock.
pub record Call : Type 0 where
  pub limits : Limits
  pub head : Ptr
  pub fresh : Option Ptr
  pub clock : ℕ → ℕ

-- `item->modtime = …; item->n_packets = 0; item->addr = …`
unfoldable pub set_source : ℕ → ℕ → Ptr → Memory → Run (Unit {0})
set_source addr now item = do
  n ← load item
  store item (record n { modtime = now; n_packets = 0; addr = addr })

link : (item head : Ptr) → Memory → Run (Unit {0})
link item head m = ok tt (list_add_tail item head m)

reset_link : Ptr → Memory → Run (Unit {0})
reset_link item m = ok tt (init_list_head item m)

-- From the label `next` on, where the source has no item: the oldest item of a full bucket or a
-- fresh one is cleared, set to the source and put at the end of the bucket. `t` is the number of
-- readings of the clock so far.
pub insert_v4 : Call → Probe → (t : ℕ) → Ptr → Memory → Run Bool
unfolding set_source link reset_link finish
insert_v4 c p t item = do
  clear item
  reset_link item
  set_source p.addr (c.clock t) item
  link item c.head
  finish c.limits p (c.clock (t + 1)) (c.clock (t + 2)) item

-- `flow_ddos_module_v4detect`
unfoldable pub v4detect : (fuel : ℕ) → Call → Probe → Memory → Run Bool
unfolding insert_v4
v4detect fuel c p = do
  first ← next_of c.head
  found ← scan p.addr c.head fuel first mtime_max 0 null
  if not (found.item == null)
      then finish c.limits p (c.clock 0) (c.clock 1) found.item
      else if found.cnt == full
      then (do clear found.old; set_source p.addr (c.clock 0) found.old; insert_v4 c p 1 found.old)
      else elim c.fresh [ none ↦ return false | some item ↦ insert_v4 c p 0 item ]

-- The same in the second table, where the common part clears nothing.
pub insert_v6 : Call → Probe → (t : ℕ) → Ptr → Memory → Run Bool
unfolding set_source link reset_link finish
insert_v6 c p t item = do
  set_source p.addr (c.clock t) item
  reset_link item
  link item c.head
  finish c.limits p (c.clock (t + 1)) (c.clock (t + 2)) item

-- `flow_ddos_module_v6detect`
unfoldable pub v6detect : (fuel : ℕ) → Call → Probe → Memory → Run Bool
unfolding insert_v6
v6detect fuel c p = do
  first ← next_of c.head
  found ← scan p.addr c.head fuel first mtime_max 0 null
  if not (found.item == null)
      then finish c.limits p (c.clock 0) (c.clock 1) found.item
      else if found.cnt == full
      then (do clear found.old; set_source p.addr (c.clock 0) found.old; insert_v6 c p 1 found.old)
      else elim c.fresh [ none ↦ return false | some item ↦ insert_v6 c p 0 item ]
