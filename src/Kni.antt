-- ===== src/Kni.antt =====
-- flow_kni/flow_kni.c: the kernel's interface to the first receive port. The pool, the interface,
-- the device and the thread are DPDK's and the system's: their answers are parameters, and the
-- thread's timed wait a step.
pub mod Bursts
pub mod Name
pub mod Reach
pub mod Thread
pub mod End
use uaflow.Prelude.{
  ℕ, zero, suc, ◌+◌, ◌-◌, ◌%◌, ◌^◌, ◌≤◌, ◌≡◌, Bool, true, false, Option, none, some, List, [], ◌∷◌,
  ◌++◌, ltb, if◌then◌else◌, length, take, drop,
}
use uaflow.Prelude.Decimal.{decimal}
use uaflow.Dpdk.{Outcome, ok, exited, overflow, ◌>>=◌}

-- FLOW_PKT_BURST_SZ
abbrev pub pkt_burst_sz : ℕ
pkt_burst_sz = 256

-- The packets that the device took, and those that were freed.
pub record World : Type 0 where
  pub sent : List ℕ
  pub freed : List ℕ

-- The packets of a burst after the first `nb_tx`: `flow_kni_module_inside_kni_burst_free_mbufs`
-- frees them if there are any.
unfoldable pub missed : (nb_tx : ℕ) → List ℕ → List ℕ
missed nb_tx pkts = if ltb nb_tx (length pkts) then drop nb_tx pkts else []

-- One round of `flow_kni_main_loop` on the burst that the interface delivers; `tx_burst` is the
-- number of packets that the device takes of it. `none` is `rte_exit`.
unfoldable pub round : (tx_burst : List ℕ → ℕ) → List ℕ → World → Option World
round tx_burst [] w = some w
round tx_burst (p ∷ ps) w =
    let nb_tx = tx_burst (p ∷ ps) in
    if ltb pkt_burst_sz (length (p ∷ ps))
    then none
    else some
        (record { sent = take nb_tx (p ∷ ps) ++ w.sent; freed = missed nb_tx (p ∷ ps) ++ w.freed })

-- The loop, on the bursts of the rounds that it makes before the run flag is set.
unfoldable pub main_loop : (tx_burst : List ℕ → ℕ) → List (List ℕ) → World → Option World
main_loop tx_burst [] w = some w
main_loop tx_burst (b ∷ bs) w = elim (round tx_burst b w) [
  | none ↦ none
  | some w' ↦ main_loop tx_burst bs w'
]

-- All the packets that are delivered.
abbrev pub delivered : List (List ℕ) → List ℕ
delivered [] = []
delivered (b ∷ bs) = b ++ delivered bs

abbrev pub Short : List (List ℕ) → Type 0
Short [] = Unit {0}
Short (b ∷ bs) = (length b ≤ pkt_burst_sz) × Short bs

-- FLOW_KNI_MASTER_CORE_ID and FLOW_MAX_PACKET_SZ
abbrev pub master_core_id : ℕ
master_core_id = 0

abbrev pub max_packet_sz : ℕ
max_packet_sz = 2048

-- The address and the identity that DPDK gives of a port's PCI device.
pub record PciDev : Type 0 where
  pub addr : ℕ
  pub id : ℕ

-- `struct rte_kni_conf`, as far as the code sets it.
pub record KniConf : Type 0 where
  pub name : List ℕ
  pub core_id : ℕ
  pub force_bind : Bool
  pub mbuf_size : ℕ
  pub addr : ℕ
  pub id : ℕ

-- The format "FlowEth%u".
abbrev pub name_prefix : List ℕ
name_prefix = b'F' ∷ b'l' ∷ b'o' ∷ b'w' ∷ b'E' ∷ b't' ∷ b'h' ∷ []

-- `snprintf` into a field of `size` bytes, one of which is for the end.
abbrev pub snprintf : (size : ℕ) → List ℕ → List ℕ
snprintf size line = take (size - 1) line

-- What DPDK answers: RTE_KNI_NAMESIZE, whether the pool is created, the PCI device of each port (none
-- where the pointer is null) and whether `rte_kni_alloc` yields an interface.
pub record KniHost : Type 0 where
  pub name_size : ℕ
  pub pool_created : Bool
  pub pci_dev : (portid : ℕ) → Option PciDev
  pub allocated : KniConf → (portid : ℕ) → Bool

unfoldable pub conf_of : (name_size portid : ℕ) → PciDev → KniConf
conf_of name_size portid dev = record {
  name = snprintf name_size (name_prefix ++ decimal portid);
  core_id = master_core_id;
  force_bind = true;
  mbuf_size = max_packet_sz;
  addr = dev.addr;
  id = dev.id;
}

-- `flow_kni_module_inside_kni_init`: `overflow` is the use of a null pointer, `exited` is `rte_exit`.
unfoldable pub kni_init : KniHost → (portid : ℕ) → Outcome KniConf
kni_init h portid = elim (h.pci_dev portid) [
  | none ↦ overflow
  | some dev ↦
      let conf = conf_of h.name_size portid dev in
      if h.allocated conf portid then ok conf else exited
]

-- Where the thread is: before its timed wait, in it, in its loop, behind the loop, at the use of a
-- null pointer, and at `rte_exit`.
pub data Task : Type 0 where
  starting waiting looping finished crashed exiting : Task

-- The static variables, the thread and the packets.
pub record Kni : Type 0 where
  pub portid : ℕ
  pub conf : KniConf
  -- Is `runflag` set, or still the null pointer that `memset` left?
  pub runflag_set : Bool
  -- Has the condition been signalled to a thread that waits for it?
  pub signalled : Bool
  -- flow_dpdk_core_run_flag
  pub run_flag : Bool
  pub task : Task
  pub world : World
  -- how often the interface was released
  pub released : ℕ

abbrev pub untouched : World
untouched = record { sent = []; freed = [] }

-- The thread's argument after the `memset`, with the port, once the interface is created.
abbrev pub created : (portid : ℕ) → KniConf → Kni
created portid conf = record {
  portid = portid;
  conf = conf;
  runflag_set = false;
  signalled = false;
  run_flag = false;
  task = starting;
  world = untouched;
  released = 0;
}

-- `flow_kni_module_init` on the numbers of the receive ports; the port is kept in 16 bits.
unfoldable pub init : KniHost → (rx_idx : List ℕ) → Outcome Kni
unfolding kni_init
init h [] = overflow
init h (idx ∷ rest) =
    if h.pool_created
    then (do conf ← kni_init h (idx % 2 ^ 16); ok (created (idx % 2 ^ 16) conf))
    else exited

abbrev pub is_waiting : Task → Bool
is_waiting waiting = true
is_waiting starting = false
is_waiting looping = false
is_waiting finished = false
is_waiting crashed = false
is_waiting exiting = false

-- `flow_kni_module_run`: `pthread_cond_signal` reaches a waiting thread only.
unfoldable pub run : Kni → Kni
run s = record s { runflag_set = true; signalled = is_waiting s.task }

-- The test of the loop with the round or, behind the loop, the end of `flow_kni_main_loop`.
unfoldable pub test : (tx_burst : List ℕ → ℕ) → (burst : List ℕ) → Kni → Kni
unfolding round
test tx_burst burst s =
    if s.runflag_set
    then (if s.run_flag
        then record s { task = finished; released = s.released + 1 }
        else elim (round tx_burst burst s.world) [
          | none ↦ record s { task = exiting }
          | some w ↦ record s { world = w }
        ])
    else record s { task = crashed }

-- A step of `main` (its call of `run`), of the thread or of the operating system. `expire` is the
-- end of the timed wait without a signal, which may come at any time; `loop` is a test of the run
-- flag with what the kernel delivers and the device takes if the loop goes on.
pub data Step (s t : Kni) : Type 0 where
  start : s.runflag_set ≡ false → t ≡ run s → Step s t
  wait : s.task ≡ starting → t ≡ record s { task = waiting } → Step s t
  wake :
      s.task ≡ waiting
      → s.signalled ≡ true
      → t ≡ record s { task = looping; signalled = false }
      → Step s t
  expire : s.task ≡ waiting → t ≡ record s { task = looping; signalled = false } → Step s t
  loop :
      (tx_burst : List ℕ → ℕ) (burst : List ℕ)
      → s.task ≡ looping
      → t ≡ test tx_burst burst s
      → Step s t
  interrupt : t ≡ record s { run_flag = true } → Step s t
