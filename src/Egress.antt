-- ===== src/Egress.antt =====
-- Where packets go: flow_forward/flow_forward.c (`send`) and flow_forward/flow_forward_defsend.c
-- (the ring of the default sender and its loop). A packet is the number of its buffer. The device
-- and the ring are DPDK's, and parameters.
pub mod Holdings
pub mod Conservation
pub mod Route
pub mod Drain
use uaflow.Prelude.{
  ℕ, zero, suc, ◌≡◌, Bool, true, false, Option, none, some, List, [], ◌∷◌, ◌++◌, if◌then◌else◌,
  bit_and,
}

-- A packet that the device took, with its port and queue.
pub record Sent : Type 0 where
  pub packet : ℕ
  pub port : ℕ
  pub queue : ℕ

-- `rte_ring`: a bounded queue. `enqueue` fails where the ring is full, `dequeue` where it is empty.
pub record RingQueue : Type 1 where
  pub Ring : Type 0
  pub items : Ring → List ℕ
  pub enqueue : ℕ → Ring → Option Ring
  pub dequeue : Ring → Option (ℕ × Ring)
  pub items-enqueue :
      (p : ℕ) (r : Ring) {r' : Ring} → enqueue p r ≡ some r' → items r' ≡ items r ++ p ∷ []
  pub items-dequeue :
      (r : Ring) {p : ℕ} {r' : Ring} → dequeue r ≡ some (p, r') → items r ≡ p ∷ items r'
  pub items_empty : (r : Ring) → dequeue r ≡ none → items r ≡ []

module _ (q : RingQueue) where
  -- The ring, what was sent, and the buffers that were given back to their pool, the last first.
  pub record World : Type 0 where
    pub ring : q.Ring
    pub sent : List Sent
    pub freed : List ℕ

-- What the device answers to `rte_eth_tx_burst` of one packet, by all that went before.
abbrev pub Device : RingQueue → Type 0
Device q = World q → (port queue packet : ℕ) → Bool

module _ (q : RingQueue) (takes : Device q) where
  -- `rte_pktmbuf_free`
  abbrev pub free : ℕ → World q → World q
  free p w = record w { freed = p ∷ w.freed }

  -- `flow_forward_module_send`: a packet that the device does not take is freed.
  unfoldable pub send : (packet port queue : ℕ) → World q → World q
  send p port queue w =
      if takes w port queue p
      then record w { sent = record { packet = p; port = port; queue = queue } ∷ w.sent }
      else free p w

  -- `flow_forward_defsend_module_push`: has the packet been taken into the ring?
  unfoldable pub push : ℕ → World q → World q × Bool
  push p w = elim (q.enqueue p w.ring) [
    | none ↦ (w, false)
    | some r ↦ (record w { ring = r }, true)
  ]

  -- `flow_forward_module_inside_send_pkt_default`, and the same lines of
  -- `flow_ua_common_module_httphandle`: a packet that the ring does not take is freed.
  unfoldable pub send_pkt_default : ℕ → World q → World q
  unfolding push
  send_pkt_default p w = let (w', taken) = push p w in if taken then w' else free p w'

  -- `flow_forward_defsend_module_pop`
  unfoldable pub pop : World q → Option (ℕ × World q)
  pop w = elim (q.dequeue w.ring) [ none ↦ none | some (p, r) ↦ some (p, record w { ring = r }) ]

  -- One round of `flow_forward_defsend_main_loop`: a waiting packet is sent to the default port, on
  -- the queue that the byte at offset 17 selects. (`rte_pktmbuf_mtod` is an address inside the
  -- buffer, so the test for a null pointer passes.)
  unfoldable pub defsend_round : (byte_at : ℕ → ℕ → ℕ) → (defaultidx mask : ℕ) → World q → World q
  unfolding pop send
  defsend_round byte_at defaultidx mask w = elim (pop w) [
    | none ↦ w
    | some (p, w') ↦ send p defaultidx (bit_and (byte_at p 17) mask) w'
  ]

  -- The loop, for the rounds that it makes before the run flag is set.
  unfoldable pub defsend_loop :
      (byte_at : ℕ → ℕ → ℕ) → (defaultidx mask rounds : ℕ) → World q → World q
  defsend_loop byte_at defaultidx mask zero w = w
  defsend_loop byte_at defaultidx mask (suc n) w =
      defsend_loop byte_at defaultidx mask n (defsend_round byte_at defaultidx mask w)
