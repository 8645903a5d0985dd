-- ===== src/Ddos/Table/Single.antt =====
-- A source that has a bucket to itself, among the packets of all others.
use uaflow.Prelude.{
  ℕ, ◌<◌, ◌≡◌, ◌≢◌, arith, refl, ap, sym, ◌∙◌, Bool, Option, none, some, List, [], ◌∷◌, ==_refl,
}
use uaflow.Dpdk.{lcore_max_slot}
use uaflow.Ddos.{elapsed, everynode_entry_max_sz}
use uaflow.Ddos.Alarm.{counted, counted-judge, judge}
use uaflow.Ddos.Items.{Ptr, Memory, ok}
use uaflow.Ddos.Table.{Static, Arrival, init_heads}
use uaflow.Ddos.Table.Refines.{detect_all}
use uaflow.Ddos.Table.Sources.{Source, nobody, still_open, heard, turn, come, opened, AreTimely}
use uaflow.Ddos.PortSet.{no_ports, set_verdicts, set_verdicts-counted}
use uaflow.Ddos.Table.Interleaving.{
  packets_at, verdicts_at, verdicts_alone, detect_all-verdicts_alone,
}

-- Are the packets of this source, of one millisecond?
abbrev pub AreOf : (addr now : ℕ) → List Arrival → Type 0
AreOf addr now [] = Unit
AreOf addr now (a ∷ rest) = (a.probe.addr ≡ addr) × (a.clock 0 ≡ now) × AreOf addr now rest

-- The pool has an item for the first of them.
abbrev pub GetsItem : List Arrival → Type 0
GetsItem [] = Unit
GetsItem (a ∷ rest) = a.fresh ≢ none

abbrev pub ports_of : List Arrival → List ℕ
ports_of [] = []
ports_of (a ∷ rest) = a.probe.port ∷ ports_of rest

module _ (head : (is_v6 : Bool) → (coreid slot : ℕ) → Ptr)
    (jhash : (is_v6 : Bool) → (addr initval : ℕ) → ℕ) (s : Static) where
  -- In the millisecond of its last packet all of a source's ports still count.
  still_open-same : (source : Source) → still_open s.limits source.time source ≡ source.ports
  unfolding still_open elapsed
  still_open-same source = ground arith

  -- The source with what is judged of its ports and one more.
  abbrev judged : (addr now : ℕ) (ports : List ℕ) (port : ℕ) → Bool × List Source
  judged addr now ports port =
      let (alarm, after) = judge s.limits.number ports port in
      (alarm, record { addr = addr; time = now; ports = after } ∷ [])

  turn-one :
      (addr now port : ℕ) (ports : List ℕ) (fresh : Option Ptr)
      → turn s.limits addr port now fresh (record { addr = addr; time = now; ports = ports } ∷ [])
        ≡ judged addr now ports port
  unfolding turn heard
  turn-one addr now port ports fresh =
      let source : Source = record { addr = addr; time = now; ports = ports } in
      rw (turn, heard, ==_refl addr, still_open-same source) refl

  turn-none :
      (addr now port : ℕ) (fresh : Option Ptr)
      → fresh ≢ none
      → turn s.limits addr port now fresh [] ≡ judged addr now [] port
  unfolding turn heard come opened
  turn-none addr now port none gets = absurd (gets refl)
  turn-none addr now port (some item) gets = refl

  -- The rest of the packets, behind one that has been judged.
  counted-step :
      (addr now port : ℕ) (ports : List ℕ) (rest : List Arrival)
      → ((seen : List ℕ)
          → verdicts_alone head jhash s rest (record { addr = addr; time = now; ports = seen } ∷ [])
            ≡ counted s.limits.number seen (ports_of rest))
      → (judged addr now ports port).0
          ∷ verdicts_alone head jhash s rest (judged addr now ports port).1
        ≡ counted s.limits.number ports (port ∷ ports_of rest)
  counted-step addr now port ports rest later =
      let (alarm, seen) = judge s.limits.number ports port in
      ap (λ vs. alarm ∷ vs) (later seen)
      ∙ sym (counted-judge s.limits.number port ports (ports_of rest) alarm seen refl)

  known-counted :
      (addr now : ℕ) (arrivals : List Arrival)
      → AreOf addr now arrivals
      → (ports : List ℕ)
      → verdicts_alone head jhash s arrivals
          (record { addr = addr; time = now; ports = ports } ∷ [])
        ≡ counted s.limits.number ports (ports_of arrivals)
  unfolding verdicts_alone counted
  known-counted addr now [] of_it ports = refl
  known-counted addr now (a ∷ rest) (same, still, of_it) ports =
      let later = known-counted addr now rest of_it in
      rw (same, still, turn-one addr now a.probe.port ports a.fresh)
        (counted-step addr now a.probe.port ports rest later)

  alone-counted :
      (addr now : ℕ) (arrivals : List Arrival)
      → AreOf addr now arrivals
      → GetsItem arrivals
      → verdicts_alone head jhash s arrivals [] ≡ counted s.limits.number [] (ports_of arrivals)
  unfolding verdicts_alone counted
  alone-counted addr now [] of_it gets = refl
  alone-counted addr now (a ∷ rest) (same, still, of_it) gets =
      let later = known-counted addr now rest of_it in
      rw (same, still, turn-none addr now a.probe.port a.fresh gets)
        (counted-step addr now a.probe.port [] rest later)

  -- Where the limit is below the length of the array of entries: after `flow_ddos_module_init`,
  -- for whatever packets come that are timely (`IsTimely`), in whatever order, where all those of
  -- one bucket are of one source and of one millisecond, and the pool has an item for the first
  -- of them: the calls of the detectors end, and the verdicts on these packets are those of a set
  -- of ports that is empty at first, whatever the places of the ports in the array of entries:
  -- the alarm is raised, and the set emptied, exactly at one port more than the limit.
  pub detect_all-set_verdicts :
      s.limits.number < everynode_entry_max_sz
      → (start : Memory) (arrivals : List Arrival) → AreTimely head jhash s arrivals nobody
      → (h : Ptr) (addr now : ℕ) → AreOf addr now (packets_at head jhash s h arrivals)
      → GetsItem (packets_at head jhash s h arrivals)
      → (alarms : List Bool) × (m' : Memory) × (detect_all head jhash s arrivals
            (init_heads head lcore_max_slot 0 start)
          ≡ ok alarms m')
        × (verdicts_at head jhash s h arrivals alarms
            ≡ set_verdicts s.limits.number no_ports (ports_of (packets_at head jhash s h arrivals)))
  detect_all-set_verdicts room start arrivals timely h addr now of_it gets =
      let own = packets_at head jhash s h arrivals in
      let (alarms, m', run, says) =
        detect_all-verdicts_alone head jhash s room start arrivals timely in
      let alone = alone-counted addr now own of_it gets in
      let as_set = set_verdicts-counted s.limits.number (ports_of own) [] in
      (alarms, m', run, says h ∙ alone ∙ sym as_set)
