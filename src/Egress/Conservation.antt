-- ===== src/Egress/Conservation.antt =====
-- No packet is lost, and none is sent or freed twice.
use uaflow.Prelude.{
  ℕ, zero, suc, ◌+◌, ◌≡◌, refl, ◌∙◌, [], ◌∷◌, arith, ◌==◌, if◌then◌else◌, Option-cases, inl, inr,
  ap, bit_and,
}
use uaflow.Egress.{RingQueue, World, Device, send, send_pkt_default, defsend_round, defsend_loop}
use uaflow.Egress.Holdings.{count, count-append, held}

-- A packet more in hand: what `a` gains where `p` is the packet.
abbrev pub one : ℕ → ℕ → ℕ
one a p = if a == p then 1 else 0

module _ (q : RingQueue) (takes : Device q) (a : ℕ) where
  pub held-send :
      (p port queue : ℕ) (w : World q)
      → held q a (send q takes p port queue w) ≡ held q a w + one a p
  unfolding send held count
  held-send p port queue w = ground arith

  pub held-send_pkt_default :
      (p : ℕ) (w : World q) → held q a (send_pkt_default q takes p w) ≡ held q a w + one a p
  unfolding send_pkt_default held count
  held-send_pkt_default p w = elim (Option-cases (q.enqueue p w.ring)) [
    | inl e ↦ ground arith
    | inr (r, e) ↦
        ground (
          arith,
          ap (count a) (q.items-enqueue p w.ring e),
          count-append a (q.items w.ring) (p ∷ []),
        )
  ]

  pub held-defsend_round :
      (byte_at : ℕ → ℕ → ℕ) (idx mask : ℕ) (w : World q)
      → held q a (defsend_round q takes byte_at idx mask w) ≡ held q a w
  unfolding defsend_round
  held-defsend_round byte_at idx mask w = elim (Option-cases (q.dequeue w.ring)) [
    | inl e ↦ rw (e, defsend_round)
    | inr ((p, r), e) ↦
        rw (e, defsend_round)
          (held-send p idx (bit_and (byte_at p 17) mask) (record w { ring = r })
            ∙ (unfold held count in omega (arith, ap (count a) (q.items-dequeue w.ring e))))
  ]

  -- The default sender's loop neither loses nor repeats a packet, however many rounds it makes.
  pub held-defsend_loop :
      (byte_at : ℕ → ℕ → ℕ) (idx mask rounds : ℕ) (w : World q)
      → held q a (defsend_loop q takes byte_at idx mask rounds w) ≡ held q a w
  unfolding defsend_loop
  held-defsend_loop byte_at idx mask zero w = refl
  held-defsend_loop byte_at idx mask (suc n) w =
      held-defsend_loop byte_at idx mask n (defsend_round q takes byte_at idx mask w)
      ∙ held-defsend_round byte_at idx mask w
