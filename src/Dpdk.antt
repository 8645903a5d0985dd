-- ===== src/Dpdk.antt =====
-- flow_dpdk/flow_dpdk.c and flow_dpdk/flow_dpdk.h: the choice of cores, the set-up of ports and
-- queues, the worker's loop and the queue mask of the default sender. The calls of DPDK are
-- parameters.
pub mod Aliq
pub mod Cores
pub mod Outcomes
pub mod Pools
pub mod Setup
pub mod Queues
pub mod SendQueues
pub mod Dump
pub mod Report
use uaflow.Prelude.{
  ℕ, zero, suc, ◌+◌, ◌-◌, ◌<◌, min, ◌≡◌, Bool, true, false, Option, List, [], ◌∷◌, ◌++◌, ltb, leb,
  ◌==◌, if◌then◌else◌,
}
use uaflow.Prelude.Decimal.{decimal}
use uaflow.Prelude.Int.{ℤ, pos, negsuc, pred_ℤ}

-- FLOW_LCORE_MAX_SLOT, the length of the arrays with an entry for each core or queue.
abbrev pub lcore_max_slot : ℕ
lcore_max_slot = 32

-- FLOW_DPDK_NB_SOCKETS, the length of `flow_pktmbuf_pool`.
abbrev pub nb_sockets : ℕ
nb_sockets = 8

-- MAX_PKT_BURST
abbrev pub max_pkt_burst : ℕ
max_pkt_burst = 32

-- The loop of `flow_dpdk_module_getaliq`: `txnum` counts down to the first power of two. When it
-- passes 0 it is -1, and the value stored in `ret` before the label is overwritten.
unfoldable pub getaliq : (ℕ → Bool) → ℕ → ℤ
getaliq is_power_of_2 zero = if is_power_of_2 0 then pred_ℤ 0 else negsuc 1
getaliq is_power_of_2 (suc n) =
    if is_power_of_2 (suc n) then pred_ℤ (suc n) else getaliq is_power_of_2 n

-- The core mask that `flow_dpdk_module_init` hands to `rte_eal_init`, by the number of processors.
unfoldable pub core_mask : ℕ → ℕ
core_mask ncpu =
    if ncpu == 4
    then 0x7
    else if ncpu == 6
    then 0x1f
    else if ncpu == 8
    then 0x7f
    else if ncpu == 12
    then 0x7ff
    else if ncpu == 16
    then 0x7fff
    else if ncpu == 18
    then 0x1ffff
    else if ncpu == 24
    then 0x7fffff
    else if ncpu == 32
    then 0x7fffffff
    else 0x7

-- `flow_forward_defsend_module_setbid`: a core out of range is replaced by core 0.
unfoldable pub setbid : ℤ → ℕ
setbid (negsuc _) = 0
setbid (pos tid) = if leb lcore_max_slot tid then 0 else tid

-- How a set-up step ends: normally, by `rte_exit`, or by a write outside an array.
pub data Outcome (A : Type 0) : Type 0 where
  ok : A → Outcome A
  exited : Outcome A
  overflow : Outcome A

infixl 5 ◌>>=◌ ◌>>◌
abbrev pub ◌>>=◌ : {A B : Type 0} → Outcome A → (A → Outcome B) → Outcome B
ok a >>= f = f a
exited >>= f = exited
overflow >>= f = overflow

abbrev pub ◌>>◌ : {B : Type 0} → Outcome (Unit {0}) → Outcome B → Outcome B
m >> k = m >>= λ _. k

-- A call of DPDK whose negative result is answered by `rte_exit`.
abbrev pub must : Bool → Outcome (Unit {0})
must true = ok tt
must false = exited

-- `a[i] = …` for an array of `n` entries.
abbrev pub within : ℕ → ℕ → Outcome (Unit {0})
within i n = if ltb i n then ok tt else overflow

-- `flow_dpdk_module_init`: the mask and the core of the default sender. Two processors are refused,
-- as is a failure of `rte_eal_init` on that mask.
unfoldable pub init : (ℕ → Bool) → ℕ → Outcome (ℕ × ℕ)
unfolding core_mask setbid
init eal_init ncpu =
    if ncpu == 2
    then exited
    else (do must (eal_init (core_mask ncpu)); ok (core_mask ncpu, setbid (pred_ℤ ncpu)))

-- What `rte_eth_dev_info_get` says of a port.
pub record DevInfo : Type 0 where
  pub max_rx_queues : ℕ
  pub max_tx_queues : ℕ

-- The DPDK calls of `flow_dpdk_module_setconf`: the pool that is created under a name, or a null
-- pointer, and whether each of the others succeeds for this port and queue.
pub record EthDev : Type 0 where
  pub pool_create : List ℕ → Option ℕ
  pub configure : ℕ → ℕ → ℕ → Bool
  pub rx_queue_setup : (port queue : ℕ) → (pool : Option ℕ) → Bool
  pub tx_queue_setup : ℕ → ℕ → Bool
  pub start : ℕ → Bool

-- The static variables that `flow_dpdk_module_setconf` sets.
pub record Conf : Type 0 where
  pub pktmbuf_pool : ℕ → Option ℕ
  pub rx_queue_mask : ℕ → Bool
  pub tx_queue_mask : ℕ → Bool
  pub rx_queue_num : ℕ
  pub tx_queue_num : ℕ

abbrev pub raise : (ℕ → Bool) → ℕ → ℕ → Bool
raise mask i j = if i == j then true else mask j

-- `sprintf(name, "flow_dpdk_mempool_%u", i)`
abbrev pool_prefix : List ℕ
pool_prefix =
    b'f' ∷ b'l' ∷ b'o' ∷ b'w' ∷ b'_' ∷ b'd' ∷ b'p' ∷ b'd' ∷ b'k' ∷ b'_' ∷ b'm' ∷ b'e' ∷ b'm' ∷ b'p'
    ∷ b'o' ∷ b'o' ∷ b'l' ∷ b'_' ∷ []

abbrev pub pool_name : ℕ → List ℕ
pool_name i = pool_prefix ++ decimal i

-- `flow_pktmbuf_pool[port] = pool`
abbrev pub put_pool {ℓ} : {A : Type ℓ} → ℕ → A → (ℕ → A) → ℕ → A
put_pool port pool pools i = if port == i then pool else pools i

-- The queues of a port: as many as it has, and no more than there are workers.
unfoldable pub queues_for : (nb_lcores available : ℕ) → ℕ
queues_for nb_lcores available = if ltb (nb_lcores - 1) available then nb_lcores - 1 else available

module _ (dev : EthDev) where
  -- The loop over the receive queues, with `n` rounds left.
  unfoldable pub rx_setup : (port n rxi : ℕ) → Conf → Outcome Conf
  rx_setup port zero rxi c = ok c
  rx_setup port (suc n) rxi c = do
    must (dev.rx_queue_setup port rxi (c.pktmbuf_pool port))
    within rxi lcore_max_slot
    rx_setup port n (rxi + 1) (record c { rx_queue_mask = raise c.rx_queue_mask rxi })

  unfoldable pub tx_setup : (port n txi : ℕ) → Conf → Outcome Conf
  tx_setup port zero txi c = ok c
  tx_setup port (suc n) txi c = do
    must (dev.tx_queue_setup port txi)
    within txi lcore_max_slot
    tx_setup port n (txi + 1) (record c { tx_queue_mask = raise c.tx_queue_mask txi })

  -- One round of the loop over the ports.
  unfoldable pub port_setup : (nb_lcores port : ℕ) → DevInfo → Conf → Outcome Conf
  port_setup nb_lcores port info c =
      let nb_rx = queues_for nb_lcores info.max_rx_queues in
      let nb_tx = queues_for nb_lcores info.max_tx_queues in
      do
        within port nb_sockets
        let pools = put_pool port (dev.pool_create (pool_name port)) c.pktmbuf_pool
        must (dev.configure port nb_rx nb_tx)
        c ←
            rx_setup port nb_rx 0
              (record c { pktmbuf_pool = pools; rx_queue_num = nb_rx; tx_queue_num = nb_tx })
        c ← tx_setup port nb_tx 0 c
        must (dev.start port)
        ok c

  unfoldable pub ports_setup : (nb_lcores port : ℕ) → List DevInfo → Conf → Outcome Conf
  ports_setup nb_lcores port [] c = ok c
  ports_setup nb_lcores port (info ∷ rest) c =
      port_setup nb_lcores port info c >>= ports_setup nb_lcores (port + 1) rest

-- `flow_dpdk_module_setconf`, for at most RTE_MAX_ETHPORTS ports: what each port offers, in order.
unfoldable pub setconf : EthDev → (nb_lcores : ℕ) → List DevInfo → Conf → Outcome Conf
unfolding ports_setup
setconf dev nb_lcores infos c = ports_setup dev nb_lcores 0 infos c

-- `flow_dpdk_module_cores_loop` on core `lcore_id`, a worker: it stops at once if its queue was not
-- set up, and otherwise polls that queue until the run flag is set. `rounds` counts the rounds
-- before the flag is seen.
unfoldable pub cores_loop {ℓ} :
    {S : Type ℓ} → Conf → (forward : ℕ → S → S) → (lcore_id rounds : ℕ) → S → S
cores_loop c forward lcore_id zero s = s
cores_loop c forward lcore_id (suc rounds) s =
    if c.rx_queue_mask (lcore_id - 1)
    then cores_loop c forward lcore_id rounds (forward (lcore_id - 1) s)
    else s
