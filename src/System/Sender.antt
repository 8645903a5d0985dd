-- ===== src/System/Sender.antt =====
-- The default sender after the start: the port and the queues that it uses.
use uaflow.Prelude.{
  length, true, some, none, Bool-cases, inl, inr, ℕ, ◌-◌, ◌<◌, ◌≡◌, sym, ap, ◌∙◌, Bool, List, [],
  ◌∷◌, arith, bit_and,
}
use uaflow.Prelude.Int.{ℤ, pos}
use uaflow.Dpdk.{ok, DevInfo, Conf}
use uaflow.Dpdk.Aliq.{PowerTest, bit_and-getaliq}
use uaflow.Dpdk.Queues.{Wide, setconf-Wide}
use uaflow.Dpdk.SendQueues.{setconf-queues}
use uaflow.Ddos.Items.{Ptr}
use uaflow.Config.Build.{Automaton}
use uaflow.Egress.{RingQueue, Device, World, defsend_loop}
use uaflow.Egress.Route.{AllSent, defsend_loop-AllSent}
use uaflow.System.{Host, Booted, boot, assemble, zero_conf, gettx}
use uaflow.System.Boot.{boot-assemble}
use mathlib.Core.Option.{some-injective}
use uaflow.Threads.{module_init, Threads, looping, begin, TimelyReach}
use uaflow.Threads.Startup.{TimelyReach-looping}

pos-injective : (m n : ℕ) → pos m ≡ pos n → m ≡ n
pos-injective m n e = cc

-- The first port to send to, on a queue of a worker that is marked as set up, and that DPDK has set
-- up on each port.
abbrev pub ToWorker : Host → Conf → (first_tx : ℕ) → (port queue : ℕ) → Type 0
ToWorker h conf first_tx port queue =
    (port ≡ first_tx)
    × (queue < h.nb_lcores - 1)
    × (conf.tx_queue_mask queue ≡ true)
    × ((i : ℕ) → i < length h.infos → h.dev.tx_queue_setup i queue ≡ true)

module _ (ac : Automaton) (head : (is_v6 : Bool) → (coreid slot : ℕ) → Ptr) (h : Host) where
  boot-tx_queue_num :
      (b : Booted ac head) (info : DevInfo) (infos : List DevInfo)
      → h.infos ≡ info ∷ infos
      → Wide h.nb_lcores (info ∷ infos)
      → boot ac head h ≡ ok b
      → b.conf.tx_queue_num ≡ h.nb_lcores - 1
  unfolding assemble
  boot-tx_queue_num b info infos ports wide run =
      let (cores, loaded, conf, _, same, set) = boot-assemble ac head h b run in
      rw (← same) (setconf-Wide h.dev h.nb_lcores info infos zero_conf conf wide (rw ports at set))

  boot-queues :
      (b : Booted ac head)
      → Wide h.nb_lcores h.infos
      → boot ac head h ≡ ok b
      → (queue : ℕ) → queue < h.nb_lcores - 1
      → 0 < length h.infos
      → (b.conf.tx_queue_mask queue ≡ true)
        × ((i : ℕ) → i < length h.infos → h.dev.tx_queue_setup i queue ≡ true)
  unfolding assemble
  boot-queues b wide run queue less some_port =
      let (cores, loaded, conf, _, same, set) = boot-assemble ac head h b run in
      let each = setconf-queues h.dev h.nb_lcores h.infos zero_conf conf wide set in
      let (_, marked) = each 0 queue some_port less in
      (
        ap (λ (x : Booted ac head). x.conf.tx_queue_mask queue) (sym same) ∙ marked,
        λ i there. (each i queue there less).0,
      )

  boot-begin :
      (b : Booted ac head) (first : Threads)
      → b.sender ≡ some first
      → boot ac head h ≡ ok b
      → begin ≡ first
  unfolding assemble module_init
  boot-begin b first there run =
      let (cores, loaded, conf, _, same, _) = boot-assemble ac head h b run in
      let created : (module_init h.ring_created).0 ≡ some first =
        ap (λ (x : Booted ac head). x.sender) same ∙ there in
      elim (Bool-cases h.ring_created) [
        | inl e ↦ some-injective begin first (rw e at created)
        | inr e ↦ let none_created : none ≡ some first = rw e at created in cc
      ]

  -- After a start with at least one worker and one port, in which each port has a queue to send for
  -- every worker, the configuration has a port to send to and the sender is created: where the
  -- sender's wait does not end before its `run`, whatever the sender sends in its loop, and for
  -- whatever bytes of the packets, goes to the first port to send to, on a queue whose number is
  -- below the number of workers, which the start has marked as set up, and which DPDK has set up on
  -- each of the ports.
  pub boot-defsend_loop :
      (t : PowerTest) (b : Booted ac head) (info : DevInfo) (infos : List DevInfo)
      → h.infos ≡ info ∷ infos
      → Wide h.nb_lcores (info ∷ infos)
      → 1 < h.nb_lcores
      → boot ac head h ≡ ok b
      → (first_tx : ℕ) (other_tx : List ℕ) → gettx b.tables ≡ first_tx ∷ other_tx
      → (first : Threads) → b.sender ≡ some first
      → (nb_workers : ℕ) {s : Threads}
      → TimelyReach t.test b.conf.tx_queue_num nb_workers (gettx b.tables) first s
      → (idx : ℕ) (mask : ℤ) → s.sender ≡ looping idx mask
      → (q : RingQueue) (takes : Device q) (byte_at : ℕ → ℕ → ℕ) (rounds : ℕ) (w : World q)
      → w.sent ≡ []
      → (m : ℕ) × (mask ≡ pos m)
        × AllSent (ToWorker h b.conf first_tx) (defsend_loop q takes byte_at idx m rounds w).sent
  boot-defsend_loop t b info infos ports wide workers run first_tx other_tx tx first created
        nb_workers {s} reach idx mask at q takes byte_at rounds w fresh =
      let num = boot-tx_queue_num b info infos ports wide run in
      let there : TimelyReach t.test b.conf.tx_queue_num nb_workers (first_tx ∷ other_tx) begin s =
        rw (tx, sym (boot-begin b first created run)) at reach in
      let (_, route) =
        TimelyReach-looping t.test b.conf.tx_queue_num nb_workers first_tx other_tx there in
      let (to_first, aliq) = route idx mask at in
      let (m, value, _) = bit_and-getaliq t b.conf.tx_queue_num 0 (omega (arith, num)) in
      let inside : (byte : ℕ) → ToWorker h b.conf first_tx idx (bit_and byte m) = λ byte.
        let (m', value', small) = bit_and-getaliq t b.conf.tx_queue_num byte (omega (arith, num)) in
        let same : m' ≡ m = pos-injective m' m (sym value' ∙ value) in
        let below : bit_and byte m < h.nb_lcores - 1 =
          omega (arith, num, small, ap (bit_and byte) same) in
        let (marked, asked) =
          boot-queues b (rw ports wide) run (bit_and byte m) below (rw ports (omega arith)) in
        (to_first, below, marked, asked) in
      (
        m,
        aliq ∙ value,
        defsend_loop-AllSent q takes (ToWorker h b.conf first_tx) byte_at idx m inside rounds w
            (rw fresh tt),
      )
