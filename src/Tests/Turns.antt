-- ===== src/Tests/Turns.antt =====
-- Two packets through two workers, with a round of the sender between them.
use uaflow.Prelude.{false, ℕ, ◌+◌, ◌≤◌, ◌≡◌, refl, [], ◌∷◌, arith, length}
use uaflow.Egress.{send_pkt_default, defsend_round, defsend_loop}
use uaflow.Egress.Holdings.{count, packets, held}
use uaflow.Forward.{Core, Env, inside_forward}
use uaflow.System.Traffic.{handles, sends, received, Turns, here, next, Turns-defsend_loop}
use uaflow.Tests.Instances.{small_ring, port_one, small_enqueue, small_dequeue}
use uaflow.Tests.Traffic.{quiet_detector, env, v4_frame}

abbrev idle : Core small_ring quiet_detector
idle = record { tables = tt; alarms = 0; world = record { ring = []; sent = []; freed = [] } }

-- Packets that are neither IPv4 nor IPv6 go the default way.
abbrev other : Env small_ring
other = record env { frame = λ p. record v4_frame { rx_ipv4_hdr = false } }

abbrev first : Core small_ring quiet_detector
first = inside_forward small_ring quiet_detector other 4 idle

abbrev second : Core small_ring quiet_detector
second = record first { world = defsend_round small_ring port_one (λ p i. 3) 1 1 first.world }

abbrev third : Core small_ring quiet_detector
third = inside_forward small_ring quiet_detector other 6 second

idle-held : (a : ℕ) → held small_ring a idle.world ≡ 0
unfolding held count
idle-held a = refl

turns : Turns small_ring quiet_detector (λ i. other) port_one (λ p i. 3) 1 1 idle (4 ∷ 6 ∷ []) third
unfolding received
turns = next (next (next here (handles 0 4 refl) refl) (sends refl) refl) (handles 1 6 refl) refl

third_short : length third.world.ring ≤ 2
unfolding inside_forward send_pkt_default small_enqueue defsend_round small_dequeue
third_short = omega arith

Turns-defsend_loop_example :
    (length (defsend_loop small_ring port_one (λ p i. 3) 1 1 2 third.world).ring ≡ 0)
    × ((a : ℕ)
        → count a (packets (defsend_loop small_ring port_one (λ p i. 3) 1 1 2 third.world).sent)
            + count a (defsend_loop small_ring port_one (λ p i. 3) 1 1 2 third.world).freed
          ≡ count a (4 ∷ 6 ∷ []))
Turns-defsend_loop_example =
    Turns-defsend_loop small_ring quiet_detector (λ i. other) port_one (λ p i. 3) 1 1 idle-held
      turns 2 third_short
