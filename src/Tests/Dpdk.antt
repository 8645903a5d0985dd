-- ===== src/Tests/Dpdk.antt =====
-- The set-up of cores, queues and ports on small inputs.
use uaflow.Dpdk.Dump.{Ports}
use uaflow.Dpdk.Report.{HasWidths}
use uaflow.Prelude.{some, none, ◌==◌, ◌≡◌, refl, true, false, List, [], ◌∷◌, arith}
use uaflow.Prelude.Int.{pos}
use uaflow.Dpdk.{ok, DevInfo, EthDev, Conf, getaliq, init, setconf}
use uaflow.Dpdk.Setup.{Works, IsServed, setconf-IsServed}
use uaflow.Tests.Instances.{power_test, is_power}

getaliq_six : getaliq power_test.test 6 ≡ pos 3
unfolding getaliq is_power
getaliq_six = refl

init_ten : init (λ _. true) 10 ≡ ok (7, 9)
unfolding init
init_ten = refl

-- A device that does all it is asked to.
abbrev willing : EthDev
willing = record {
  configure = λ _ _ _. true;
  pool_create = λ name. some 7;
  rx_queue_setup = λ _ _ _. true;
  tx_queue_setup = λ _ _. true;
  start = λ _. true;
}

willing-Works : Works willing
willing-Works = record {
  configures = λ _ _ _. refl;
  creates = λ _. (7, refl);
  rx_sets_up = λ _ _ _. refl;
  tx_sets_up = λ _ _. refl;
  starts = λ _. refl;
}

abbrev unset : Conf
unset = record {
  pktmbuf_pool = λ _. none;
  rx_queue_mask = λ _. false;
  tx_queue_mask = λ _. false;
  rx_queue_num = 0;
  tx_queue_num = 0;
}

-- Four queues to receive, and two to send.
abbrev card : DevInfo
card = record { max_rx_queues = 4; max_tx_queues = 2 }

abbrev two_cards : List DevInfo
two_cards = card ∷ record card { max_rx_queues = 1 } ∷ []

setconf-IsServed_example :
    (new : Conf) × (setconf willing 3 two_cards unset ≡ ok new)
    × IsServed willing 3 two_cards unset new
setconf-IsServed_example =
    setconf-IsServed willing-Works 3 two_cards unset (omega arith) (omega arith)

-- The first port is up, and its counters cannot be read; the second one is down.
abbrev pub nics : Ports
nics = record {
  dev_count = 2;
  max_ethports = 32;
  link_get = λ i. record { status = i == 0; speed = 1000; full_duplex = true };
  stats_get = λ i. none;
}

pub nics-HasWidths : HasWidths nics
nics-HasWidths = record {
  ethports = omega arith;
  speed = λ i. omega arith;
  stats = λ i. record {
    ipackets = omega arith;
    ibytes = omega arith;
    imissed = omega arith;
    opackets = omega arith;
    obytes = omega arith;
    oerrors = omega arith;
  };
}
