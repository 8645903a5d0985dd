-- ===== src/Tests/Sender.antt =====
-- The default sender after a start with one port to send to.
use uaflow.Prelude.{
  true, false, ◌==◌, if◌then◌else◌, ℕ, ◌≡◌, refl, Option, none, some, [], ◌∷◌, arith,
}
use uaflow.Prelude.Int.{pos}
use uaflow.Dpdk
use uaflow.Dpdk.{
  ok, DevInfo, Conf, core_mask, setbid, setconf, ports_setup, port_setup, rx_setup, tx_setup,
  queues_for, getaliq,
}
use uaflow.Config
use uaflow.Config.Tree.{Xml, Encoding, utf_8, gb2312, unicode, load}
use uaflow.Egress.{World, defsend_loop}
use uaflow.Egress.Route.{AllSent}
use uaflow.System.{Host, Booted, assemble, boot, load_module}
use uaflow.System.Sender.{ToWorker, boot-defsend_loop}
use uaflow.Threads.{
  Sender, launched, Threads, Step, begin, module_init, run, proceed, Timely, TimelyReach, here,
  next,
}
use uaflow.Tests.Config.{machine, one_item, after_one, parse_run}
use uaflow.Tests.Instances.{power_test, small_ring, port_one}
use uaflow.Tests.Plain.{find, plain}
use uaflow.Tests.Table.{head_at}
use uaflow.Tests.System.{host}

abbrev card : DevInfo
card = record { max_rx_queues = 4; max_tx_queues = 4 }

abbrev read_item : Encoding → Option Xml
read_item utf_8 = some one_item
read_item gb2312 = none
read_item unicode = none

-- The machine of the tests of the start, with one card.
abbrev with_card : Host
with_card = record (host read_item) { machine = machine; infos = card ∷ [] }

-- Two queues in each direction.
abbrev two_queues : Conf
two_queues = record {
  pktmbuf_pool = λ i. if 0 == i then some 7 else none;
  rx_queue_mask = λ j. if 1 == j then true else if 0 == j then true else false;
  tx_queue_mask = λ j. if 1 == j then true else if 0 == j then true else false;
  rx_queue_num = 2;
  tx_queue_num = 2;
}

abbrev started : Booted plain head_at
started = assemble plain head_at with_card (7, 3) (after_one, pos 0) two_queues

item_loaded : load_module machine (load true read_item) Config.fresh ≡ ok (after_one, pos 0)
unfolding load load_module Config.fresh
item_loaded = rw (load_module, parse_run) refl

started_run : boot plain head_at with_card ≡ ok started
unfolding boot assemble Dpdk.init core_mask setbid setconf ports_setup port_setup rx_setup tx_setup
    queues_for find
started_run = rw (boot, item_loaded) refl

-- One packet waits.
abbrev held_one : World small_ring
held_one = record { ring = 4 ∷ []; sent = []; freed = [] }

-- The sender's way to its loop, in time.
abbrev in_loop : Threads
in_loop =
    proceed power_test.test 2 2 (0 ∷ [])
      (record (run (record begin { phase = launched; tx_queue_num = 2; workers = 2 })) {
        sender = Sender.waiting;
      })

in_time : TimelyReach power_test.test 2 2 (0 ∷ []) begin in_loop
unfolding run Timely
in_time =
    next
      (next
        (next (next (next here (Step.setconf refl refl) tt) (Step.handler refl refl) tt)
          (Step.start refl refl) tt)
        (Step.wait refl refl) tt)
      (Step.expire refl refl) refl

boot-defsend_loop_example :
    (m : ℕ) × (getaliq power_test.test 2 ≡ pos m)
    × AllSent
        (ToWorker with_card two_queues 0)
        (defsend_loop small_ring port_one (λ p offset. 9) 0 m 5 held_one).sent
unfolding assemble module_init proceed run
boot-defsend_loop_example =
    boot-defsend_loop plain head_at with_card power_test started card [] refl (omega arith)
      (omega arith) started_run 0 [] refl begin refl 2 in_time 0 (getaliq power_test.test 2) refl
      small_ring port_one (λ p offset. 9) 5 held_one refl
