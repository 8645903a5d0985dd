-- ===== src/System.antt =====
-- The parts put together: what `main` of flow_start/flow_start.c calls before its loop, and the
-- getters and `flow_config_module_load` of flow_config/flow_config_parser.c by which the parts get
-- at the configuration.
pub mod Boot
pub mod Dispatch
pub mod Sender
pub mod Log
pub mod Traffic
use uaflow.Prelude.{ℕ, Bool, false, Option, none, some, List, map}
use uaflow.Prelude.Int.{ℤ, pos, negsuc}
use uaflow.Dpdk.{Outcome, ok, exited, overflow, ◌>>=◌, ◌>>◌, DevInfo, EthDev, Conf, init, setconf}
use uaflow.Current
use uaflow.Current.{Timeval, Clock}
use uaflow.Config
use uaflow.Config.{Idx, Tables}
use uaflow.Config.Tree.{Xml, Encoding, load}
use uaflow.Config.Devices.{Machine}
use uaflow.Config.Parse.{parse}
use uaflow.Config.Build.{Automaton, build_trie}
use uaflow.Ddos.Items.{Ptr, Memory}
use uaflow.Ddos.Table
use uaflow.Ddos.Table.{Static}
use uaflow.Threads.{Threads, module_init}

-- `flow_config_module_load`, on what `config_load` yields: the tables and the result, or the faults
-- of the parse.
unfoldable pub load_module : Machine → Option Xml → Tables → Outcome (Tables × ℤ)
load_module mc none t = ok (t, negsuc 0)
load_module mc (some doc) t = elim (parse mc doc t) [ none ↦ overflow | some t' ↦ ok (t', pos 0) ]

-- `flow_config_module_getrx` and `getsize`: the numbers of the receive ports.
abbrev pub getrx : Tables → List ℕ
getrx t = map (λ (e : Idx). e.idx) t.rx_idx

-- `flow_config_module_gettx`
abbrev pub gettx : Tables → List ℕ
gettx t = map (λ (e : Idx). e.idx) t.tx_idx

-- `flow_config_module_getnum` and `flow_config_module_gettime`
abbrev pub getnum : Tables → ℕ
getnum t = t.scan_number

abbrev pub gettime : Tables → ℕ
gettime t = t.scan_millisecond

-- What the start finds: the processors, the EAL, the time, the configuration file in each encoding,
-- the ports and the answers of the devices, a random number, whether the detector's pool can
-- be created, the memory of its table, and
-- whether the sender's ring can be created.
pub record Host : Type 0 where
  pub eal_init : ℕ → Bool
  pub ncpu : ℕ
  pub now : Timeval
  pub accessible : Bool
  pub read : Encoding → Option Xml
  pub machine : Machine
  pub dev : EthDev
  pub nb_lcores : ℕ
  pub infos : List DevInfo
  pub rand : ℕ
  pub created : Bool
  pub memory : Memory
  pub ring_created : Bool

abbrev pub zero_conf : Conf
zero_conf = record {
  pktmbuf_pool = λ _. none;
  rx_queue_mask = λ _. false;
  tx_queue_mask = λ _. false;
  rx_queue_num = 0;
  tx_queue_num = 0;
}

module _ (ac : Automaton) (head : (is_v6 : Bool) → (coreid slot : ℕ) → Ptr) where
  -- The static variables after the start.
  pub record Booted : Type 0 where
    pub bind_id : ℕ
    pub clock : Clock
    pub tables : Tables
    pub trie : ac.Trie
    pub detector : Static
    pub memory : Memory
    pub conf : Conf
    pub sender : Option Threads

  unfoldable pub assemble : Host → (cores : ℕ × ℕ) → (loaded : Tables × ℤ) → Conf → Booted
  assemble h cores loaded conf =
      let t = loaded.0 in
      let (detector, memory, _) =
        Table.init head (getnum t) (gettime t) h.rand h.created h.memory (λ _. 0) in
      record {
        bind_id = cores.1;
        clock = Current.init h.now;
        tables = t;
        trie = build_trie ac t;
        detector = detector;
        memory = memory;
        conf = conf;
        sender = (module_init h.ring_created).0;
      }

  -- The calls of `main` in their order, down to `setconf`. Their results are not looked at, as in
  -- the source. (The mempools of the ports are taken to be created.)
  unfoldable pub boot : Host → Outcome Booted
  unfolding assemble
  boot h = do
    cores ← init h.eal_init h.ncpu
    loaded ← load_module h.machine (load h.accessible h.read) Config.fresh
    conf ← setconf h.dev h.nb_lcores h.infos zero_conf
    ok (assemble h cores loaded conf)
