-- ===== src/Dpdk/Queues.antt =====
-- How many queues `flow_dpdk_module_setconf` counts, whatever DPDK answers on the way.
use uaflow.Prelude.{ℕ, zero, suc, ◌+◌, ◌-◌, ◌≤◌, ◌≡◌, sym, ◌∙◌, ap, List, [], ◌∷◌, arith}
use uaflow.Dpdk.{
  pool_name, put_pool, ok, must, within, lcore_max_slot, DevInfo, EthDev, Conf, raise, queues_for,
  rx_setup, tx_setup, port_setup, ports_setup, setconf, nb_sockets,
}
use uaflow.Dpdk.Outcomes.{bind-ok, ok-injective}

-- Each port has a queue to send for every worker.
abbrev pub Wide : (nb_lcores : ℕ) → List DevInfo → Type 0
Wide nb_lcores [] = Unit
Wide nb_lcores (info ∷ infos) = (nb_lcores - 1 ≤ info.max_tx_queues) × Wide nb_lcores infos

module _ (dev : EthDev) where
  rx_setup-tx_queue_num :
      (port n q : ℕ) (c c' : Conf)
      → rx_setup dev port n q c ≡ ok c'
      → c'.tx_queue_num ≡ c.tx_queue_num
  unfolding rx_setup
  rx_setup-tx_queue_num port zero q c c' h =
      ap (λ (k : Conf). k.tx_queue_num) (sym (ok-injective c c' h))
  rx_setup-tx_queue_num port (suc n) q c c' h =
      let (_, _, h1) = bind-ok (must (dev.rx_queue_setup port q (c.pktmbuf_pool port))) _ c' h in
      let (_, _, h2) = bind-ok (within q lcore_max_slot) _ c' h1 in
      rx_setup-tx_queue_num port n (q + 1) (record c { rx_queue_mask = raise c.rx_queue_mask q }) c'
        h2

  tx_setup-tx_queue_num :
      (port n q : ℕ) (c c' : Conf)
      → tx_setup dev port n q c ≡ ok c'
      → c'.tx_queue_num ≡ c.tx_queue_num
  unfolding tx_setup
  tx_setup-tx_queue_num port zero q c c' h =
      ap (λ (k : Conf). k.tx_queue_num) (sym (ok-injective c c' h))
  tx_setup-tx_queue_num port (suc n) q c c' h =
      let (_, _, h1) = bind-ok (must (dev.tx_queue_setup port q)) _ c' h in
      let (_, _, h2) = bind-ok (within q lcore_max_slot) _ c' h1 in
      tx_setup-tx_queue_num port n (q + 1) (record c { tx_queue_mask = raise c.tx_queue_mask q }) c'
        h2

  port_setup-tx_queue_num :
      (nb_lcores port : ℕ) (info : DevInfo) (c c' : Conf)
      → port_setup dev nb_lcores port info c ≡ ok c'
      → c'.tx_queue_num ≡ queues_for nb_lcores info.max_tx_queues
  unfolding port_setup
  port_setup-tx_queue_num nb_lcores port info c c' h =
      let nb_rx = queues_for nb_lcores info.max_rx_queues in
      let nb_tx = queues_for nb_lcores info.max_tx_queues in
      let (_, _, h1) = bind-ok (within port nb_sockets) _ c' h in
      let (_, _, h2) = bind-ok (must (dev.configure port nb_rx nb_tx)) _ c' h1 in
      let c0 = record c {
        pktmbuf_pool = put_pool port (dev.pool_create (pool_name port)) c.pktmbuf_pool;
        rx_queue_num = nb_rx;
        tx_queue_num = nb_tx;
      } in
      let (c1, rx, h3) = bind-ok (rx_setup dev port nb_rx 0 c0) _ c' h2 in
      let (c2, tx, h4) = bind-ok (tx_setup dev port nb_tx 0 c1) _ c' h3 in
      let (_, _, h5) = bind-ok (must (dev.start port)) _ c' h4 in
      let same = ap (λ (k : Conf). k.tx_queue_num) (sym (ok-injective c2 c' h5)) in
      same
      ∙ tx_setup-tx_queue_num port nb_tx 0 c1 c2 tx
      ∙ rx_setup-tx_queue_num port nb_rx 0 c0 c1 rx

  pub queues_for_wide :
      (nb_lcores n : ℕ) → nb_lcores - 1 ≤ n → queues_for nb_lcores n ≡ nb_lcores - 1
  unfolding queues_for
  queues_for_wide nb_lcores n h = ground arith

  ports_setup-Wide :
      (nb_lcores port : ℕ) (infos : List DevInfo) (c c' : Conf)
      → Wide nb_lcores infos
      → c.tx_queue_num ≡ nb_lcores - 1
      → ports_setup dev nb_lcores port infos c ≡ ok c'
      → c'.tx_queue_num ≡ nb_lcores - 1
  unfolding ports_setup
  ports_setup-Wide nb_lcores port [] c c' wide num h =
      ap (λ (k : Conf). k.tx_queue_num) (sym (ok-injective c c' h)) ∙ num
  ports_setup-Wide nb_lcores port (info ∷ infos) c c' wide num h =
      let (c1, run, rest) = bind-ok (port_setup dev nb_lcores port info c) _ c' h in
      let num1 =
        port_setup-tx_queue_num nb_lcores port info c c1 run
        ∙ queues_for_wide nb_lcores info.max_tx_queues wide.0 in
      ports_setup-Wide nb_lcores (port + 1) infos c1 c' wide.1 num1 rest

  -- A set-up of at least one port that ends normally counts one queue for each worker.
  pub setconf-Wide :
      (nb_lcores : ℕ) (info : DevInfo) (infos : List DevInfo) (c c' : Conf)
      → Wide nb_lcores (info ∷ infos)
      → setconf dev nb_lcores (info ∷ infos) c ≡ ok c'
      → c'.tx_queue_num ≡ nb_lcores - 1
  unfolding setconf ports_setup
  setconf-Wide nb_lcores info infos c c' wide h =
      let (c1, run, rest) = bind-ok (port_setup dev nb_lcores 0 info c) _ c' h in
      let num1 =
        port_setup-tx_queue_num nb_lcores 0 info c c1 run
        ∙ queues_for_wide nb_lcores info.max_tx_queues wide.0 in
      ports_setup-Wide nb_lcores 1 infos c1 c' wide.1 num1 rest
