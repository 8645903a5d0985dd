-- ===== src/Egress/Route.antt =====
-- To which ports and queues the default sender sends.
use uaflow.Prelude.{
  ℕ, zero, suc, List, [], ◌∷◌, Bool-cases, Option-cases, inl, inr, bit_and, ◌≡◌, refl,
}
use uaflow.Egress.{Sent, RingQueue, World, Device, send, pop, defsend_round, defsend_loop}

-- Everything that was sent went to a port and a queue of which `P` holds.
abbrev pub AllSent : (P : (port queue : ℕ) → Type 0) → List Sent → Type 0
AllSent P [] = Unit
AllSent P (s ∷ sent) = P s.port s.queue × AllSent P sent

module _ (q : RingQueue) (takes : Device q) (P : (port queue : ℕ) → Type 0) where
  send-AllSent :
      (p port queue : ℕ) (w : World q)
      → P port queue
      → AllSent P w.sent
      → AllSent P (send q takes p port queue w).sent
  unfolding send
  send-AllSent p port queue w good all = elim (Bool-cases (takes w port queue p)) [
    | inl e ↦ rw e (good, all)
    | inr e ↦ rw e all
  ]

  module _ (byte_at : ℕ → ℕ → ℕ) (defaultidx mask : ℕ)
      (good : (byte : ℕ) → P defaultidx (bit_and byte mask)) where
    defsend_round-AllSent :
        (w : World q)
        → AllSent P w.sent
        → AllSent P (defsend_round q takes byte_at defaultidx mask w).sent
    unfolding defsend_round pop
    defsend_round-AllSent w all = elim (Option-cases (q.dequeue w.ring)) [
      | inl e ↦
          let idle : defsend_round q takes byte_at defaultidx mask w ≡ w =
            rw (e, defsend_round, pop) refl in
          rw idle all
      | inr ((p, r), e) ↦
          let queue = bit_and (byte_at p 17) mask in
          let sends : defsend_round q takes byte_at defaultidx mask w
              ≡ send q takes p defaultidx queue (record w { ring = r }) =
            rw (e, defsend_round, pop) refl in
          rw sends
            (send-AllSent p defaultidx queue (record w { ring = r }) (good (byte_at p 17)) all)
    ]

    -- Where `P` holds of the default port and each queue that the mask leaves of a byte, it holds
    -- of everything that the loop sends.
    pub defsend_loop-AllSent :
        (rounds : ℕ) (w : World q)
        → AllSent P w.sent
        → AllSent P (defsend_loop q takes byte_at defaultidx mask rounds w).sent
    unfolding defsend_loop
    defsend_loop-AllSent zero w all = all
    defsend_loop-AllSent (suc rounds) w all =
        defsend_loop-AllSent rounds (defsend_round q takes byte_at defaultidx mask w)
          (defsend_round-AllSent w all)
