-- ===== src/Egress/Drain.antt =====
-- The default sender's loop empties the ring.
use uaflow.Prelude.{
  ℕ, zero, suc, ◌≤◌, ◌≡◌, refl, ap, arith, length, Bool-cases, Option-cases, inl, inr, bit_and,
}
use uaflow.Egress.{RingQueue, World, Device, send, pop, defsend_round, defsend_loop}

module _ (q : RingQueue) (takes : Device q) (byte_at : ℕ → ℕ → ℕ) (defaultidx mask : ℕ) where
  ring-send : (p port queue : ℕ) (w : World q) → (send q takes p port queue w).ring ≡ w.ring
  unfolding send
  ring-send p port queue w = elim (Bool-cases (takes w port queue p)) [
    | inl e ↦ rw e refl
    | inr e ↦ rw e refl
  ]

  -- A round takes one packet out of the ring, if there is one.
  defsend_round_shorter :
      (n : ℕ) (w : World q)
      → length (q.items w.ring) ≤ suc n
      → length (q.items (defsend_round q takes byte_at defaultidx mask w).ring) ≤ n
  unfolding defsend_round pop
  defsend_round_shorter n w h = elim (Option-cases (q.dequeue w.ring)) [
    | inl e ↦
        let idle : defsend_round q takes byte_at defaultidx mask w ≡ w =
          rw (e, defsend_round, pop) refl in
        rw idle (omega (arith, ap length (q.items_empty w.ring e)))
    | inr ((p, r), e) ↦
        let queue = bit_and (byte_at p 17) mask in
        let sends : defsend_round q takes byte_at defaultidx mask w
            ≡ send q takes p defaultidx queue (record w { ring = r }) =
          rw (e, defsend_round, pop) refl in
        let same = ring-send p defaultidx queue (record w { ring = r }) in
        rw (sends, same) (omega (arith, h, ap length (q.items-dequeue w.ring e)))
  ]

  -- As many rounds as there are packets in the ring empty it.
  pub defsend_loop_empties :
      (rounds : ℕ) (w : World q)
      → length (q.items w.ring) ≤ rounds
      → length (q.items (defsend_loop q takes byte_at defaultidx mask rounds w).ring) ≡ 0
  unfolding defsend_loop
  defsend_loop_empties zero w h = omega (arith, h)
  defsend_loop_empties (suc n) w h =
      defsend_loop_empties n (defsend_round q takes byte_at defaultidx mask w)
        (defsend_round_shorter n w h)
