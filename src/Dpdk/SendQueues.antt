-- ===== src/Dpdk/SendQueues.antt =====
-- Which queues to send `flow_dpdk_module_setconf` has set up, where it ends normally.
use uaflow.Prelude.{
  ℕ, zero, suc, ◌+◌, ◌-◌, ◌≤◌, ◌<◌, ◌≡◌, refl, Bool, true, List, [], ◌∷◌, arith, ==_refl, length,
}
use native.Mathlib.Decide.{ℕ_discrete}
use uaflow.Dpdk.{
  pool_name, put_pool, ok, must, within, lcore_max_slot, DevInfo, EthDev, Conf, raise, queues_for,
  rx_setup, tx_setup, port_setup, ports_setup, setconf, nb_sockets,
}
use uaflow.Dpdk.Outcomes.{bind-ok, ok-injective, must-ok}
use uaflow.Dpdk.Queues.{Wide, queues_for_wide}

raise_other : (mask : ℕ → Bool) (q j : ℕ) → mask j ≡ true → raise mask q j ≡ true
raise_other mask q j h = ground arith

module _ (dev : EthDev) where
  -- The mark of a queue to send stays.
  abbrev Keeps : Conf → Conf → Type 0
  Keeps c c' = (j : ℕ) → c.tx_queue_mask j ≡ true → c'.tx_queue_mask j ≡ true

  rx_setup-Keeps : (port n q : ℕ) (c c' : Conf) → rx_setup dev port n q c ≡ ok c' → Keeps c c'
  unfolding rx_setup
  rx_setup-Keeps port zero q c c' h = λ j. rw (ok-injective c c' h) (λ e. e)
  rx_setup-Keeps port (suc n) q c c' h =
      let (_, _, h1) = bind-ok (must (dev.rx_queue_setup port q (c.pktmbuf_pool port))) _ c' h in
      let (_, _, h2) = bind-ok (within q lcore_max_slot) _ c' h1 in
      rx_setup-Keeps port n (q + 1) (record c { rx_queue_mask = raise c.rx_queue_mask q }) c' h2

  -- The queues from `q` on are set up and marked.
  tx_setup-queues :
      (port n q : ℕ) (c c' : Conf)
      → tx_setup dev port n q c ≡ ok c'
      → Keeps c c'
        × ((j : ℕ)
            → q ≤ j
            → j < q + n
            → (dev.tx_queue_setup port j ≡ true) × (c'.tx_queue_mask j ≡ true))
  unfolding tx_setup
  tx_setup-queues port zero q c c' h =
      (λ j. rw (ok-injective c c' h) (λ e. e), λ j from to. absurd (omega arith))
  tx_setup-queues port (suc n) q c c' h =
      let (_, asked, h1) = bind-ok (must (dev.tx_queue_setup port q)) _ c' h in
      let (_, _, h2) = bind-ok (within q lcore_max_slot) _ c' h1 in
      let (keeps, rest) =
        tx_setup-queues port n (q + 1) (record c { tx_queue_mask = raise c.tx_queue_mask q }) c'
          h2 in
      (
        λ j e. keeps j (raise_other c.tx_queue_mask q j e),
        λ j from to. elim (ℕ_discrete q j) [
          | yes e ↦ (
            rw (← e) (must-ok (dev.tx_queue_setup port q) asked),
            keeps j (rw (e, ==_refl j) refl),
          )
          | no ne ↦ rest j (omega arith) (omega arith)
        ],
      )

  port_setup-queues :
      (nb_lcores port : ℕ) (info : DevInfo) (c c' : Conf)
      → port_setup dev nb_lcores port info c ≡ ok c'
      → Keeps c c'
        × ((j : ℕ)
            → j < queues_for nb_lcores info.max_tx_queues
            → (dev.tx_queue_setup port j ≡ true) × (c'.tx_queue_mask j ≡ true))
  unfolding port_setup
  port_setup-queues nb_lcores port info c c' h =
      let nb_rx = queues_for nb_lcores info.max_rx_queues in
      let nb_tx = queues_for nb_lcores info.max_tx_queues in
      let (_, _, h1) = bind-ok (within port nb_sockets) _ c' h in
      let (_, _, h2) = bind-ok (must (dev.configure port nb_rx nb_tx)) _ c' h1 in
      let c0 = record c {
        pktmbuf_pool = put_pool port (dev.pool_create (pool_name port)) c.pktmbuf_pool;
        rx_queue_num = nb_rx;
        tx_queue_num = nb_tx;
      } in
      let (c1, rx, h3) = bind-ok (rx_setup dev port nb_rx 0 c0) _ c' h2 in
      let (c2, tx, h4) = bind-ok (tx_setup dev port nb_tx 0 c1) _ c' h3 in
      let (_, _, h5) = bind-ok (must (dev.start port)) _ c' h4 in
      let (keeps, queues) = tx_setup-queues port nb_tx 0 c1 c' (rw (ok-injective c2 c' h5) at tx) in
      (
        λ j e. keeps j (rx_setup-Keeps port nb_rx 0 c0 c1 rx j e),
        λ j less. queues j (omega arith) (omega arith),
      )

  ports_setup-queues :
      (nb_lcores port : ℕ) (infos : List DevInfo) (c c' : Conf)
      → Wide nb_lcores infos
      → ports_setup dev nb_lcores port infos c ≡ ok c'
      → Keeps c c'
        × ((i j : ℕ)
            → port ≤ i
            → i < port + length infos
            → j < nb_lcores - 1
            → (dev.tx_queue_setup i j ≡ true) × (c'.tx_queue_mask j ≡ true))
  unfolding ports_setup
  ports_setup-queues nb_lcores port [] c c' wide h =
      (λ j. rw (ok-injective c c' h) (λ e. e), λ i j from to. absurd (omega arith))
  ports_setup-queues nb_lcores port (info ∷ infos) c c' wide h =
      let (c1, run, rest) = bind-ok (port_setup dev nb_lcores port info c) _ c' h in
      let (keeps, queues) = port_setup-queues nb_lcores port info c c1 run in
      let (keeps', others) = ports_setup-queues nb_lcores (port + 1) infos c1 c' wide.1 rest in
      let all = queues_for_wide dev nb_lcores info.max_tx_queues wide.0 in
      (
        λ j e. keeps' j (keeps j e),
        λ i j from to less. elim (ℕ_discrete port i) [
          | yes e ↦
              let (asked, marked) = queues j (rw all less) in (rw (← e) asked, keeps' j marked)
          | no ne ↦ others i j (omega arith) (omega arith) less
        ],
      )

  -- Where each port has a queue to send for every worker, a set-up that ends normally has set up
  -- and marked a queue for each of them on each port.
  pub setconf-queues :
      (nb_lcores : ℕ) (infos : List DevInfo) (c c' : Conf)
      → Wide nb_lcores infos
      → setconf dev nb_lcores infos c ≡ ok c'
      → (i j : ℕ) → i < length infos
      → j < nb_lcores - 1
      → (dev.tx_queue_setup i j ≡ true) × (c'.tx_queue_mask j ≡ true)
  unfolding setconf
  setconf-queues nb_lcores infos c c' wide h i j to less =
      let (_, queues) = ports_setup-queues nb_lcores 0 infos c c' wide h in
      queues i j (omega arith) (omega arith) less
