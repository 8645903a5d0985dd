-- ===== src/Dpdk/Pools.antt =====
-- What `flow_dpdk_module_setconf` leaves where all goes well, and the ports' pools in it.
use native.Mathlib.Decide.{ℕ_discrete}
use uaflow.Prelude.{
  ℕ, zero, suc, ◌+◌, ◌≡◌, ◌≤◌, ◌<◌, refl, sym, ap, ◌∙◌, Bool, List, [], ◌∷◌, ◌++◌, arith, length,
  drop, ==_refl, ne→==,
}
use uaflow.Prelude.Decimal.{decimal, digits_value, digits_value-decimal}
use uaflow.Dpdk.{DevInfo, EthDev, Conf, pool_name, put_pool, raise, queues_for}

-- The mask after `n` queues from `q` on have been raised.
unfoldable pub raise_from : (n q : ℕ) → (ℕ → Bool) → ℕ → Bool
raise_from zero q mask = mask
raise_from (suc n) q mask = raise_from n (q + 1) (raise mask q)

-- The state after one port.
unfoldable pub after_port : EthDev → (nb_lcores port : ℕ) → DevInfo → Conf → Conf
after_port dev nb_lcores port info c =
    let nb_rx = queues_for nb_lcores info.max_rx_queues in
    let nb_tx = queues_for nb_lcores info.max_tx_queues in
    record {
      pktmbuf_pool = put_pool port (dev.pool_create (pool_name port)) c.pktmbuf_pool;
      rx_queue_mask = raise_from nb_rx 0 c.rx_queue_mask;
      tx_queue_mask = raise_from nb_tx 0 c.tx_queue_mask;
      rx_queue_num = nb_rx;
      tx_queue_num = nb_tx;
    }

unfoldable pub after_ports : EthDev → (nb_lcores port : ℕ) → List DevInfo → Conf → Conf
after_ports dev nb_lcores port [] c = c
after_ports dev nb_lcores port (info ∷ rest) c =
    after_ports dev nb_lcores (port + 1) rest (after_port dev nb_lcores port info c)

-- No two ports have a pool of the same name.
pub pool_name-injective : (i j : ℕ) → pool_name i ≡ pool_name j → i ≡ j
unfolding digits_value
pool_name-injective i j e =
    let digits : decimal i ≡ decimal j = ap (λ name. drop 18 name) e in
    let same = ap (λ ds. digits_value 0 (ds ++ [])) digits in
    sym (digits_value-decimal i []) ∙ same ∙ digits_value-decimal j []

-- The entries of earlier ports stay as they are.
after_ports_before :
    (dev : EthDev) (nb_lcores port : ℕ) (infos : List DevInfo) (c : Conf) (i : ℕ)
    → i < port
    → (after_ports dev nb_lcores port infos c).pktmbuf_pool i ≡ c.pktmbuf_pool i
unfolding after_ports after_port
after_ports_before dev nb_lcores port [] c i less = refl
after_ports_before dev nb_lcores port (info ∷ rest) c i less =
    let one = after_port dev nb_lcores port info c in
    after_ports_before dev nb_lcores (port + 1) rest one i (omega arith)
    ∙ (rw (ne→== port i (λ e. absurd (omega arith))) refl)

pub after_ports-pool_name :
    (dev : EthDev) (nb_lcores port : ℕ) (infos : List DevInfo) (c : Conf) (i : ℕ)
    → port ≤ i
    → i < port + length infos
    → (after_ports dev nb_lcores port infos c).pktmbuf_pool i ≡ dev.pool_create (pool_name i)
unfolding after_ports after_port
after_ports-pool_name dev nb_lcores port [] c i low high = absurd (omega arith)
after_ports-pool_name dev nb_lcores port (info ∷ rest) c i low high =
    let one = after_port dev nb_lcores port info c in
    elim (ℕ_discrete port i) [
      | no ne ↦
          after_ports-pool_name dev nb_lcores (port + 1) rest one i (omega arith) (omega arith)
      | yes e ↦
          after_ports_before dev nb_lcores (port + 1) rest one i (omega arith)
          ∙ (rw (e, ==_refl i) refl)
    ]
