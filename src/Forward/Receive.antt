-- ===== src/Forward/Receive.antt =====
-- The receive loop: every packet of a burst once and in order, and which ports are polled.
use uaflow.Prelude.{
  ℕ, zero, suc, ◌+◌, ◌-◌, ◌≡◌, refl, sym, ◌∙◌, some, List, [], ◌∷◌, ◌++◌, length, take, drop,
  take-append-drop, ap,
}
use uaflow.Dpdk.{max_pkt_burst}
use uaflow.Egress.{RingQueue}
use uaflow.Egress.Holdings.{held, count}
use uaflow.Forward.{
  Detector, Core, Env, inside_forward, forward_all, forward_burst, receive_loop, forward,
  prefetch_offset,
}
use uaflow.Forward.Conservation.{holds-forward_all}

-- The packets that the device delivers in the rounds from `i` on.
pub delivered : (ℕ → ℕ → ℕ → List ℕ) → (idx queueid left i : ℕ) → List ℕ
delivered rx_burst idx queueid zero i = []
delivered rx_burst idx queueid (suc left) i =
    take max_pkt_burst (rx_burst idx queueid i) ++ delivered rx_burst idx queueid left (i + 1)

module _ (q : RingQueue) (d : Detector) (env : Env q) where
  forward_all-append :
      (ps qs : List ℕ) (c : Core q d)
      → forward_all q d env (ps ++ qs) c ≡ forward_all q d env qs (forward_all q d env ps c)
  unfolding forward_all
  forward_all-append [] qs c = refl
  forward_all-append (p ∷ ps) qs c = forward_all-append ps qs (inside_forward q d env p c)

  -- The two loops over a burst handle each of its packets once, in the order of their arrival,
  -- also where the burst is shorter than the distance of the prefetch.
  pub forward_burst-forward_all :
      (burst : List ℕ) (c : Core q d) → forward_burst q d env burst c ≡ forward_all q d env burst c
  unfolding forward_burst
  forward_burst-forward_all burst c =
      let n = length burst - prefetch_offset in
      sym (forward_all-append (take n burst) (drop n burst) c)
      ∙ ap (λ ps. forward_all q d env ps c) (take-append-drop n burst)

  receive_loop-delivered :
      (rx_burst : ℕ → ℕ → ℕ → List ℕ) (idx queueid left i : ℕ) (c : Core q d)
      → receive_loop q d env rx_burst idx queueid left i c
        ≡ forward_all q d env (delivered rx_burst idx queueid left i) c
  unfolding receive_loop delivered forward_all
  receive_loop-delivered rx_burst idx queueid zero i c = refl
  receive_loop-delivered rx_burst idx queueid (suc left) i c =
      let burst = take max_pkt_burst (rx_burst idx queueid i) in
      rw (forward_burst-forward_all burst c, forward_all-append burst)
        (receive_loop-delivered rx_burst idx queueid left (i + 1) (forward_all q d env burst c))

  -- Where there is a receive port, a call of `forward` handles, each once and in order, the packets
  -- of one burst for each receive port; but all those bursts are of the first port, whatever the
  -- other entries are.
  pub forward-delivered :
      (rx_burst : ℕ → ℕ → ℕ → List ℕ) (idx : ℕ) (rest : List ℕ) (queueid : ℕ) (c : Core q d)
      → forward q d env rx_burst (idx ∷ rest) queueid c
        ≡ some (forward_all q d env (delivered rx_burst idx queueid (suc (length rest)) 0) c)
  unfolding forward
  forward-delivered rx_burst idx rest queueid c =
      ap some (receive_loop-delivered rx_burst idx queueid (suc (length rest)) 0 c)

  -- Where there is a receive port, a call of `forward` ends, and after it each packet is held as
  -- often more than before as it was delivered, by the ring, the device or the pool: none is lost,
  -- and none is sent or freed twice.
  pub held-forward :
      (a : ℕ) (rx_burst : ℕ → ℕ → ℕ → List ℕ) (idx : ℕ) (rest : List ℕ) (queueid : ℕ) (c : Core q d)
      → (c' : Core q d) × (forward q d env rx_burst (idx ∷ rest) queueid c ≡ some c')
        × (held q a c'.world
            ≡ held q a c.world + count a (delivered rx_burst idx queueid (suc (length rest)) 0))
  held-forward a rx_burst idx rest queueid c =
      let ps = delivered rx_burst idx queueid (suc (length rest)) 0 in
      (
        forward_all q d env ps c,
        forward-delivered rx_burst idx rest queueid c,
        holds-forward_all q d env a ps c,
      )
