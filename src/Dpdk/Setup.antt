-- ===== src/Dpdk/Setup.antt =====
-- `flow_dpdk_module_setconf`: which queues are set up, and how many ports it can take.
use uaflow.Prelude.{
  some, ◌≢◌, ==_refl, ℕ, zero, suc, ◌+◌, ◌-◌, ◌≤◌, ◌<◌, ◌≡◌, refl, Bool, true, false, ◌&&◌, ◌||◌,
  List, [], ◌∷◌, arith, ltb, leb, lt→ltb, ltb→lt, length, inl, inr, Bool-cases,
}
use uaflow.Dpdk.Pools.{
  raise_from, after_port, after_ports, after_ports-pool_name, pool_name-injective,
}
use uaflow.Dpdk.{
  pool_name, put_pool, ok, overflow, lcore_max_slot, nb_sockets, DevInfo, EthDev, Conf, raise,
  queues_for, rx_setup, tx_setup, port_setup, ports_setup, setconf,
}

-- Every call of DPDK succeeds.
pub record Works (dev : EthDev) : Type 0 where
  pub configures : (port rx tx : ℕ) → dev.configure port rx tx ≡ true
  pub creates : (port : ℕ) → (pool : ℕ) × (dev.pool_create (pool_name port) ≡ some pool)
  pub rx_sets_up : (port q pool : ℕ) → dev.rx_queue_setup port q (some pool) ≡ true
  pub tx_sets_up : (port q : ℕ) → dev.tx_queue_setup port q ≡ true
  pub starts : (port : ℕ) → dev.start port ≡ true

raise_from-range :
    (n q : ℕ) (mask : ℕ → Bool) (j : ℕ)
    → raise_from n q mask j ≡ ((leb q j && ltb j (q + n)) || mask j)
unfolding raise_from
raise_from-range zero q mask j = ground arith
raise_from-range (suc n) q mask j = ground (arith, raise_from-range n (q + 1) (raise mask q) j)

pub raise_from-zero :
    (n : ℕ) (mask : ℕ → Bool) (j : ℕ) → raise_from n 0 mask j ≡ (ltb j n || mask j)
raise_from-zero n mask j = ground (arith, raise_from-range n 0 mask j)

queues_for-le : (nb_lcores n : ℕ) → queues_for nb_lcores n ≤ nb_lcores - 1
unfolding queues_for
queues_for-le nb_lcores n = ground arith

module _ {dev : EthDev} (works : Works dev) where
  rx_setup-ok :
      (port n q : ℕ) (c : Conf) (pool : ℕ)
      → c.pktmbuf_pool port ≡ some pool
      → q + n ≤ lcore_max_slot
      → rx_setup dev port n q c ≡ ok (record c { rx_queue_mask = raise_from n q c.rx_queue_mask })
  unfolding rx_setup raise_from
  rx_setup-ok port zero q c pool has h = refl
  rx_setup-ok port (suc n) q c pool has h =
      rw (has, works.rx_sets_up port q pool, lt→ltb q 32 (omega arith))
        (rx_setup-ok port n (q + 1) (record c { rx_queue_mask = raise c.rx_queue_mask q }) pool has
          (omega arith))

  tx_setup-ok :
      (port n q : ℕ) (c : Conf)
      → q + n ≤ lcore_max_slot
      → tx_setup dev port n q c ≡ ok (record c { tx_queue_mask = raise_from n q c.tx_queue_mask })
  unfolding tx_setup raise_from
  tx_setup-ok port zero q c h = refl
  tx_setup-ok port (suc n) q c h =
      rw (works.tx_sets_up port q, lt→ltb q 32 (omega arith))
        (tx_setup-ok port n (q + 1) (record c { tx_queue_mask = raise c.tx_queue_mask q })
          (omega arith))

  port_setup-ok :
      (nb_lcores port : ℕ) (info : DevInfo) (c : Conf)
      → nb_lcores ≤ lcore_max_slot
      → port < nb_sockets
      → port_setup dev nb_lcores port info c ≡ ok (after_port dev nb_lcores port info c)
  unfolding port_setup after_port
  port_setup-ok nb_lcores port info c h p =
      let nb_rx = queues_for nb_lcores info.max_rx_queues in
      let nb_tx = queues_for nb_lcores info.max_tx_queues in
      let pools = put_pool port (dev.pool_create (pool_name port)) c.pktmbuf_pool in
      let c1 = record c { pktmbuf_pool = pools; rx_queue_num = nb_rx; tx_queue_num = nb_tx } in
      let (pool, created) = works.creates port in
      rw (
        lt→ltb port 8 p,
        works.configures port nb_rx nb_tx,
        rx_setup-ok port nb_rx 0 c1 pool (rw (==_refl port) created)
            (omega (arith, queues_for-le nb_lcores info.max_rx_queues)),
        tx_setup-ok port nb_tx 0 (record c1 { rx_queue_mask = raise_from nb_rx 0 c.rx_queue_mask })
            (omega (arith, queues_for-le nb_lcores info.max_tx_queues)),
        works.starts port,
      )

  ports_setup-ok :
      (nb_lcores port : ℕ) (infos : List DevInfo) (c : Conf)
      → nb_lcores ≤ lcore_max_slot
      → port + length infos ≤ nb_sockets
      → ports_setup dev nb_lcores port infos c ≡ ok (after_ports dev nb_lcores port infos c)
  unfolding ports_setup after_ports
  ports_setup-ok nb_lcores port [] c h p = refl
  ports_setup-ok nb_lcores port (info ∷ rest) c h p =
      rw (port_setup-ok nb_lcores port info c h (omega arith)) (
        ports_setup-ok nb_lcores (port + 1) rest (after_port dev nb_lcores port info c) h
          (omega arith))

  ports_setup-overflow :
      (nb_lcores port : ℕ) (infos : List DevInfo) (c : Conf)
      → nb_lcores ≤ lcore_max_slot
      → port ≤ nb_sockets
      → nb_sockets < port + length infos
      → ports_setup dev nb_lcores port infos c ≡ overflow
  unfolding ports_setup
  ports_setup-overflow nb_lcores port [] c h p q = absurd (omega arith)
  ports_setup-overflow nb_lcores port (info ∷ rest) c h p q = elim (Bool-cases (ltb port 8)) [
    | inl e ↦
        let fits : port < nb_sockets = ltb→lt port 8 e in
        rw (port_setup-ok nb_lcores port info c h fits) (
          ports_setup-overflow nb_lcores (port + 1) rest (after_port dev nb_lcores port info c) h
            (omega arith) (omega arith))
    | inr e ↦ unfold port_setup in rw e
  ]

-- Does some port have queue `j`, by the number that `available` gives for each port?
pub any_port : (DevInfo → ℕ) → (nb_lcores : ℕ) → List DevInfo → ℕ → Bool
any_port available nb_lcores [] j = false
any_port available nb_lcores (info ∷ rest) j =
    (leb (suc j) (nb_lcores - 1) && leb (suc j) (available info))
    || any_port available nb_lcores rest j

queues_for-lt :
    (nb_lcores n j : ℕ)
    → ltb j (queues_for nb_lcores n) ≡ (leb (suc j) (nb_lcores - 1) && leb (suc j) n)
unfolding queues_for
queues_for-lt nb_lcores n j = ground arith

-- What `flow_dpdk_module_setconf` leaves in the masks and in the array of pools.
pub record IsServed (dev : EthDev) (nb_lcores : ℕ) (infos : List DevInfo) (old new : Conf)
    : Type 0 where
  pub rx :
      (j : ℕ)
      → new.rx_queue_mask j
        ≡ (any_port (λ i. i.max_rx_queues) nb_lcores infos j || old.rx_queue_mask j)
  pub tx :
      (j : ℕ)
      → new.tx_queue_mask j
        ≡ (any_port (λ i. i.max_tx_queues) nb_lcores infos j || old.tx_queue_mask j)
  pub pools :
      (port : ℕ) → port < length infos → new.pktmbuf_pool port ≡ dev.pool_create (pool_name port)
  pub names : (i j : ℕ) → i ≢ j → pool_name i ≢ pool_name j

-- The masks alone.
record IsMarked (nb_lcores : ℕ) (infos : List DevInfo) (old new : Conf) : Type 0 where
  rx :
      (j : ℕ)
      → new.rx_queue_mask j
        ≡ (any_port (λ i. i.max_rx_queues) nb_lcores infos j || old.rx_queue_mask j)
  tx :
      (j : ℕ)
      → new.tx_queue_mask j
        ≡ (any_port (λ i. i.max_tx_queues) nb_lcores infos j || old.tx_queue_mask j)

served_step :
    (available : DevInfo → ℕ) (nb_lcores : ℕ) (info : DevInfo) (rest : List DevInfo)
    (mask final : ℕ → Bool) (j : ℕ)
    → final j ≡ (
        any_port available nb_lcores rest j
        || raise_from (queues_for nb_lcores (available info)) 0 mask j)
    → final j ≡ (any_port available nb_lcores (info ∷ rest) j || mask j)
unfolding any_port
served_step available nb_lcores info rest mask final j h =
    let n = queues_for nb_lcores (available info) in
    ground (arith, raise_from-zero n mask j, queues_for-lt nb_lcores (available info) j)

after_ports-IsMarked :
    (dev : EthDev) (nb_lcores port : ℕ) (infos : List DevInfo) (c : Conf)
    → IsMarked nb_lcores infos c (after_ports dev nb_lcores port infos c)
unfolding after_ports after_port any_port
after_ports-IsMarked dev nb_lcores port [] c = record { rx = λ j. refl; tx = λ j. refl }
after_ports-IsMarked dev nb_lcores port (info ∷ rest) c =
    let one = after_port dev nb_lcores port info c in
    let ih = after_ports-IsMarked dev nb_lcores (port + 1) rest one in
    record {
      rx = λ j.
          served_step (λ i. i.max_rx_queues) nb_lcores info rest c.rx_queue_mask
            (after_ports dev nb_lcores (port + 1) rest one).rx_queue_mask j (ih.rx j);
      tx = λ j.
          served_step (λ i. i.max_tx_queues) nb_lcores info rest c.tx_queue_mask
            (after_ports dev nb_lcores (port + 1) rest one).tx_queue_mask j (ih.tx j);
    }

after_ports-IsServed :
    (dev : EthDev) (nb_lcores : ℕ) (infos : List DevInfo) (c : Conf)
    → IsServed dev nb_lcores infos c (after_ports dev nb_lcores 0 infos c)
after_ports-IsServed dev nb_lcores infos c =
    let marks = after_ports-IsMarked dev nb_lcores 0 infos c in
    record {
      rx = marks.rx;
      tx = marks.tx;
      pools = λ port less.
          after_ports-pool_name dev nb_lcores 0 infos c port (omega arith) (omega arith);
      names = λ i j ne e. ne (pool_name-injective i j e);
    }

module _ {dev : EthDev} (works : Works dev) (nb_lcores : ℕ) (infos : List DevInfo) (c : Conf) where
  -- With no more than 32 cores and 8 ports, and every call of DPDK successful, the set-up ends
  -- normally. A queue is then marked exactly when it was before or when some port has it among as
  -- many queues as there are workers, and each port has the pool that was created under its name,
  -- which no other port's pool has.
  pub setconf-IsServed :
      nb_lcores ≤ lcore_max_slot
      → length infos ≤ nb_sockets
      → (new : Conf) × (setconf dev nb_lcores infos c ≡ ok new) × IsServed dev nb_lcores infos c new
  unfolding setconf
  setconf-IsServed few fits = (
    after_ports dev nb_lcores 0 infos c,
    ports_setup-ok works nb_lcores 0 infos c few (omega arith),
    after_ports-IsServed dev nb_lcores infos c,
  )

  -- With no more than 32 cores, more than 8 ports and every call of DPDK successful, the set-up
  -- writes past the end of `flow_pktmbuf_pool`.
  pub setconf-overflow :
      nb_lcores ≤ lcore_max_slot
      → nb_sockets < length infos
      → setconf dev nb_lcores infos c ≡ overflow
  unfolding setconf
  setconf-overflow few many =
      ports_setup-overflow works nb_lcores 0 infos c few (omega arith) (omega arith)
