-- ===== src/Tests/System.antt =====
-- The start, and a request under the configuration that it loads.
use uaflow.Prelude.{ℕ, ◌≡◌, refl, true, Option, none, some, List, [], ◌∷◌}
use uaflow.Prelude.CString.{eq_bytes}
use uaflow.Prelude.Decimal.{atoi}
use uaflow.Prelude.Int.{pos, negsuc}
use uaflow.Dpdk
use uaflow.Dpdk.{ok, EthDev, core_mask, setbid, setconf, ports_setup}
use uaflow.Config
use uaflow.Config.{Tables}
use uaflow.Config.Tree.{
  Xml, null, node, Encoding, utf_8, gb2312, unicode, load, search4, search_level, search_children,
  search_list, search_attr_value, get_prop,
}
use uaflow.Config.Parse.{
  parse, parse_limits, for_each, item_nodes, key_nodes, ddos_node, uaflow_name, scan_name,
  ddos_name, number_attr, time_attr,
}
use uaflow.Egress.{RingQueue}
use uaflow.Forward.{forward, Detector, Core, Env}
use uaflow.Ua.{Slice}
use uaflow.System.{Host, Booted, assemble, zero_conf, boot, load_module, getrx}
use uaflow.System.Boot.{limits_in, boot-limits_in, boot-unloaded}
use uaflow.Tests.Plain.{plain, tables}
use uaflow.Tests.Table.{head_at, unset}

-- "xMI!"
abbrev agent : List ℕ
agent = b'x' ∷ b'M' ∷ b'I' ∷ b'!' ∷ []

abbrev whole : Slice
whole = record { at = some agent; length = 4 }

-- A configuration with the detector's limits only.
abbrev scan_only : Xml
scan_only =
    node uaflow_name []
      (node scan_name []
        (node ddos_name ((number_attr, b'2' ∷ b'0' ∷ []) ∷ (time_attr, b'5' ∷ []) ∷ []) null null)
        null)
      null

abbrev accepts : EthDev
accepts = record {
  configure = λ port rx tx. true;
  pool_create = λ name. some 7;
  rx_queue_setup = λ port queue pool. true;
  tx_queue_setup = λ port queue. true;
  start = λ port. true;
}

-- A machine with four processors and no ports.
abbrev pub host : (Encoding → Option Xml) → Host
host read = record {
  eal_init = λ mask. true;
  ncpu = 4;
  now = record { tv_sec = 5; tv_usec = 0 };
  accessible = true;
  read = read;
  machine = record {
    rules = none;
    nb_ports = 0;
    mac = λ i. [];
    max_ports = 32;
    item_memory = λ p. true;
    idx_memory = λ p. true;
    key_memory = λ p. true;
  };
  dev = accepts;
  nb_lcores = 3;
  infos = [];
  rand = 1;
  created = true;
  memory = unset;
  ring_created = true;
}

abbrev read_it : Encoding → Option Xml
read_it utf_8 = some scan_only
read_it gb2312 = none
read_it unicode = none

abbrev after_it : Tables
after_it = record Config.fresh { scan_number = 20; scan_millisecond = 5 }

abbrev booted : Booted plain head_at
booted = assemble plain head_at (host read_it) (7, 3) (after_it, pos 0) zero_conf

abbrev unloaded : Booted plain head_at
unloaded = assemble plain head_at (host (λ e. none)) (7, 3) (Config.fresh, negsuc 0) zero_conf

booted_run : boot plain head_at (host read_it) ≡ ok booted
unfolding boot Dpdk.init core_mask setbid load_module load parse item_nodes key_nodes ddos_node
    for_each parse_limits search4 search_level search_children search_list search_attr_value
    get_prop eq_bytes atoi Config.fresh setconf ports_setup
booted_run = refl

boot-limits_in_example : booted.detector.limits ≡ limits_in (ddos_node scan_only)
unfolding load
boot-limits_in_example =
    boot-limits_in plain head_at (host read_it) booted scan_only refl booted_run

unloaded_run : boot plain head_at (host (λ e. none)) ≡ ok unloaded
unfolding boot Dpdk.init core_mask setbid load_module load setconf ports_setup Config.fresh
unloaded_run = refl

boot-unloaded_example :
    (unloaded.detector.limits.number ≡ 0)
    × ((q : RingQueue) (d : Detector) (env : Env q) (rx_burst : ℕ → ℕ → ℕ → List ℕ) (queueid : ℕ)
          (c : Core q d)
        → forward q d env rx_burst (getrx unloaded.tables) queueid c ≡ none)
unfolding load
boot-unloaded_example = boot-unloaded plain head_at (host (λ e. none)) unloaded refl unloaded_run
