-- ===== src/Tests/Sources.antt =====
-- Two sources in turns, one over IPv4 and one over IPv6, against the lists of sources.
use mathlib.Core.Option.{some-injective, none-ne-some}
use uaflow.Prelude.{
  ℕ, ◌≡◌, sym, ◌<◌, ◌≤◌, In, length, refl, Bool, true, false, Option, some, none, List, [], ◌∷◌,
  arith, inl, inr,
}
use uaflow.Dpdk.{lcore_max_slot}
use uaflow.Ddos.{full, slot, elapsed}
use uaflow.Ddos.Alarm.{judge}
use uaflow.Ddos.Items.{Ptr, Memory, ok}
use uaflow.Ddos.Table.{Arrival, IsHead, init_heads}
use uaflow.Ddos.Table.Sources.{
  Sources, nobody, sources, verdicts, verdict, here, AreTimely, IsTimely,
}
use uaflow.Ddos.Table.Refines.{detect_all, init-detect_all}
use uaflow.Ddos.PortSet.{no_ports, set_verdicts}
use uaflow.Ddos.Table.Interleaving.{packets_at, verdicts_at}
use uaflow.Ddos.Table.Single.{AreOf, GetsItem, ports_of, detect_all-set_verdicts}
use uaflow.Tests.Table.{head_at, unset, sum, static}

abbrev packet : Bool → (addr port : ℕ) → Option Ptr → Arrival
packet v addr port fresh = record {
  is_v6 = v;
  coreid = 3;
  probe = record { addr = addr; port = port };
  fresh = fresh;
  clock = λ t. 1000;
}

abbrev arrivals : List Arrival
arrivals =
    packet false 77 443 (some 1000000)
    ∷ packet true 88 443 (some 1000001)
    ∷ packet false 77 80 none
    ∷ packet true 88 443 none
    ∷ packet false 77 22 none
    ∷ []

verdicts-arrivals :
    verdicts head_at sum static arrivals nobody ≡ false ∷ false ∷ false ∷ false ∷ true ∷ []
unfolding verdicts verdict sources judge slot elapsed
verdicts-arrivals = refl

-- The pool's items are no elements of the arrays.
beyond_heads : (p : ℕ) → 1000000 ≤ p → ¬ (IsHead head_at p)
unfolding IsHead
beyond_heads p far (true, i, j, core, small, e) = omega arith
beyond_heads p far (false, i, j, core, small, e) = omega arith

-- A packet on a bucket that is not full.
packet-IsTimely :
    (v : Bool) (addr port : ℕ) (fresh : Option Ptr) (w : Sources)
    → length (here head_at sum static (packet v addr port fresh) w) < full
    → ((item : Ptr) → fresh ≡ some item → (1000000 ≤ item) × (¬ (In item w.used)))
    → IsTimely head_at sum static (packet v addr port fresh) w
packet-IsTimely v addr port fresh w short new = record {
  core = omega arith;
  still = λ t. refl;
  usable = λ item unheard room e.
      let (far, unused) = new item e in (λ z. absurd (omega arith), beyond_heads item far, unused);
  room = λ unheard filled. absurd (omega arith);
}

arrivals-AreTimely : AreTimely head_at sum static arrivals nobody
unfolding verdict sources judge slot elapsed
arrivals-AreTimely = (
  first_two.0,
  (
    first_two.1,
    (
      known false 77 80 w2 (omega arith),
      (known true 88 443 w3 (omega arith), (known false 77 22 w4 (omega arith), tt)),
    ),
  ),
)
  where
    w1 : Sources
    w1 = sources head_at sum static (packet false 77 443 (some 1000000)) nobody

    w2 : Sources
    w2 = sources head_at sum static (packet true 88 443 (some 1000001)) w1

    w3 : Sources
    w3 = sources head_at sum static (packet false 77 80 none) w2

    w4 : Sources
    w4 = sources head_at sum static (packet true 88 443 none) w3

    other : (item : Ptr) → 1000001 ≡ item → ¬ (In item w1.used)
    other item same (inl e) = omega arith
    other item same (inr gone) = gone

    first_two :
        IsTimely head_at sum static (packet false 77 443 (some 1000000)) nobody
        × IsTimely head_at sum static (packet true 88 443 (some 1000001)) w1
    first_two = (
      packet-IsTimely false 77 443 (some 1000000) nobody (omega arith)
          (λ item e. let same = some-injective 1000000 item e in (omega arith, λ there. there)),
      packet-IsTimely true 88 443 (some 1000001) w1 (omega arith)
          (λ item e. let same = some-injective 1000001 item e in (omega arith, other item same)),
    )

    known :
        (v : Bool) (addr port : ℕ) (w : Sources)
        → length (here head_at sum static (packet v addr port none) w) < full
        → IsTimely head_at sum static (packet v addr port none) w
    known v addr port w short =
        packet-IsTimely v addr port none w short (λ item e. absurd (none-ne-some item e))

init-detect_all_example :
    (m' : Memory) × (detect_all head_at sum static arrivals
        (init_heads head_at lcore_max_slot 0 unset)
      ≡ ok (verdicts head_at sum static arrivals nobody) m')
init-detect_all_example =
    init-detect_all head_at sum static (omega arith) unset arrivals arrivals-AreTimely

-- The bucket of the packets over IPv4, all of which are of one source.
abbrev own_bucket : Ptr
own_bucket = head_at false 3 86

own-AreOf : AreOf 77 1000 (packets_at head_at sum static own_bucket arrivals)
unfolding packets_at slot
own-AreOf = (refl, refl, (refl, refl, (refl, refl, tt)))

own-GetsItem : GetsItem (packets_at head_at sum static own_bucket arrivals)
unfolding packets_at slot
own-GetsItem e = none-ne-some 1000000 (sym e)

detect_all-set_verdicts_example :
    (alarms : List Bool) × (m' : Memory) × (detect_all head_at sum static arrivals
        (init_heads head_at lcore_max_slot 0 unset)
      ≡ ok alarms m')
    × (verdicts_at head_at sum static own_bucket arrivals alarms
        ≡ set_verdicts 2 no_ports (ports_of (packets_at head_at sum static own_bucket arrivals)))
detect_all-set_verdicts_example =
    detect_all-set_verdicts head_at sum static (omega arith) unset arrivals arrivals-AreTimely
      own_bucket 77 1000 own-AreOf own-GetsItem
