-- ===== src/Forward/Conservation.antt =====
-- No received packet is lost, and none is sent or freed twice.
use uaflow.Prelude.{
  ℕ, ◌+◌, ◌≡◌, refl, ◌∙◌, List, [], ◌∷◌, arith, ◌==◌, Bool-cases, Option-cases, inl, inr, bit_and,
  ap,
}
use uaflow.Egress.{RingQueue}
use uaflow.Egress.Holdings.{held, count}
use uaflow.Egress.Conservation.{one, held-send_pkt_default}
use uaflow.Ua.Dispatch.{held-httphandle}
use uaflow.Forward.{
  Detector, Core, Env, Segment, default, http, detect_v4, detect_v6, ipv4_segment, ipv6_segment,
  ipv4_fwd_pkts, ipv6_fwd_pkts, inside_forward, forward_all,
}

module _ (q : RingQueue) (d : Detector) (env : Env q) (a : ℕ) where
  -- How often the packet `a` is held.
  abbrev pub holds : Core q d → ℕ
  holds c = held q a c.world

  holds-default : (p : ℕ) (c : Core q d) → holds (default q d env p c) ≡ holds c + one a p
  unfolding default
  holds-default p c = held-send_pkt_default q env.takes a p c.world

  holds-http : (p : ℕ) (s : Segment) (c : Core q d) → holds (http q d env p s c) ≡ holds c + one a p
  unfolding http
  holds-http p s c =
      held-httphandle q env.takes env.search a env.lcore_id p (env.parse p s.tcp_hdr s.length)
        c.world

  world-detect_v4 : (p : ℕ) (s : Segment) (c : Core q d) → (detect_v4 q d env p s c).world ≡ c.world
  unfolding detect_v4
  world-detect_v4 p s c =
      elim (Bool-cases (bit_and ((env.frame p).tcp_at s.tcp_hdr).tcp_flags 0xa == 0)) [
        | inl e ↦ rw (e, detect_v4)
        | inr e ↦ rw (e, detect_v4)
      ]

  world-detect_v6 : (p : ℕ) (s : Segment) (c : Core q d) → (detect_v6 q d env p s c).world ≡ c.world
  unfolding detect_v6
  world-detect_v6 p s c = refl

  holds-ipv4 : (p : ℕ) (c : Core q d) → holds (ipv4_fwd_pkts q d env p c) ≡ holds c + one a p
  unfolding ipv4_fwd_pkts
  holds-ipv4 p c = elim (Option-cases (ipv4_segment env.size (env.frame p))) [
    | inl e ↦ rw (e, ipv4_fwd_pkts) (holds-default p c)
    | inr (s, e) ↦
        rw (e, ipv4_fwd_pkts)
          (holds-http p s (detect_v4 q d env p s c)
            ∙ ap (λ w. held q a w + one a p) (world-detect_v4 p s c))
  ]

  holds-ipv6 : (p : ℕ) (c : Core q d) → holds (ipv6_fwd_pkts q d env p c) ≡ holds c + one a p
  unfolding ipv6_fwd_pkts
  holds-ipv6 p c = elim (Option-cases (ipv6_segment env.size (env.frame p))) [
    | inl e ↦ rw (e, ipv6_fwd_pkts) (holds-default p c)
    | inr (s, e) ↦
        rw (e, ipv6_fwd_pkts)
          (holds-http p s (detect_v6 q d env p s c)
            ∙ ap (λ w. held q a w + one a p) (world-detect_v6 p s c))
  ]

  -- Whatever a packet contains, and whatever the detector says of it, after the handler it is held
  -- once more than before, by the ring, the device or the pool, and no other packet is touched.
  pub holds-inside_forward :
      (p : ℕ) (c : Core q d) → holds (inside_forward q d env p c) ≡ holds c + one a p
  unfolding inside_forward
  holds-inside_forward p c = elim (Bool-cases (env.frame p).rx_ipv4_hdr) [
    | inl e ↦ rw (e, inside_forward) (holds-ipv4 p c)
    | inr e ↦ elim (Bool-cases (env.frame p).rx_ipv6_hdr) [
      | inl e' ↦ rw (e, e', inside_forward) (holds-ipv6 p c)
      | inr e' ↦ rw (e, e', inside_forward) (holds-default p c)
    ]
  ]

  pub holds-forward_all :
      (ps : List ℕ) (c : Core q d) → holds (forward_all q d env ps c) ≡ holds c + count a ps
  unfolding forward_all count
  holds-forward_all [] c = omega arith
  holds-forward_all (p ∷ ps) c =
      omega (arith, holds-forward_all ps (inside_forward q d env p c), holds-inside_forward p c)
