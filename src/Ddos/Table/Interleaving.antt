-- ===== src/Ddos/Table/Interleaving.antt =====
-- The packets of one bucket among those of all others.
use uaflow.Prelude.{
  ℕ, ◌<◌, ◌≡◌, refl, ap, ◌∙◌, Bool, true, false, List, [], ◌∷◌, ◌==◌, ==_iff, if◌then◌else◌,
  Bool-cases, inl, inr,
}
use uaflow.Dpdk.{lcore_max_slot}
use uaflow.Ddos.{everynode_entry_max_sz}
use uaflow.Ddos.Items.{Ptr, Memory, ok}
use uaflow.Ddos.Table.{Static, Arrival, bucket_of, init_heads}
use uaflow.Ddos.Table.Refines.{detect_all, init-detect_all}
use uaflow.Ddos.Table.Sources.{Source, Sources, nobody, turn, verdict, sources, verdicts, AreTimely}

module _ (head : (is_v6 : Bool) → (coreid slot : ℕ) → Ptr)
    (jhash : (is_v6 : Bool) → (addr initval : ℕ) → ℕ) (s : Static) where
  -- The packets of the bucket at `h`.
  unfoldable pub packets_at : Ptr → List Arrival → List Arrival
  packets_at h [] = []
  packets_at h (a ∷ rest) =
      let others = packets_at h rest in if bucket_of head jhash s a == h then a ∷ others else others

  -- The verdicts on them, among those on all packets.
  unfoldable pub verdicts_at : Ptr → List Arrival → List Bool → List Bool
  verdicts_at h [] alarms = []
  verdicts_at h (a ∷ rest) [] = []
  verdicts_at h (a ∷ rest) (alarm ∷ alarms) =
      let others = verdicts_at h rest alarms in
      if bucket_of head jhash s a == h then alarm ∷ others else others

  -- The verdicts of one bucket's sources on packets that are all for them.
  unfoldable pub verdicts_alone : List Arrival → List Source → List Bool
  verdicts_alone [] ss = []
  verdicts_alone (a ∷ rest) ss =
      let (alarm, after) = turn s.limits a.probe.addr a.probe.port (a.clock 0) a.fresh ss in
      alarm ∷ verdicts_alone rest after

  sources-apart :
      (h : Ptr) (a : Arrival) (w : Sources)
      → (bucket_of head jhash s a == h) ≡ false
      → (sources head jhash s a w).bucket h ≡ w.bucket h
  unfolding sources
  sources-apart h a w e = rw e refl

  sources-same :
      (h : Ptr) (a : Arrival) (w : Sources)
      → (bucket_of head jhash s a == h) ≡ true
      → ((sources head jhash s a w).bucket h
          ≡ (turn s.limits a.probe.addr a.probe.port (a.clock 0) a.fresh (w.bucket h)).1)
        × (verdict head jhash s a w
            ≡ (turn s.limits a.probe.addr a.probe.port (a.clock 0) a.fresh (w.bucket h)).0)
  unfolding sources verdict
  sources-same h a w e =
      let own =
        ap (λ g. turn s.limits a.probe.addr a.probe.port (a.clock 0) a.fresh (w.bucket g))
          ((==_iff (bucket_of head jhash s a) h).0 e) in
      (rw e (ap (λ (x : Bool × List Source). x.1) own), ap (λ (x : Bool × List Source). x.0) own)

  verdicts_at-verdicts :
      (h : Ptr) (arrivals : List Arrival) (w : Sources)
      → verdicts_at h arrivals (verdicts head jhash s arrivals w)
        ≡ verdicts_alone (packets_at h arrivals) (w.bucket h)
  unfolding packets_at verdicts_at verdicts_alone verdicts verdict sources
  verdicts_at-verdicts h [] w = refl
  verdicts_at-verdicts h (a ∷ rest) w =
      let ih = verdicts_at-verdicts h rest (sources head jhash s a w) in
      elim (Bool-cases (bucket_of head jhash s a == h)) [
        | inl e ↦
            let (after, says) = sources-same h a w e in
            let later = ih ∙ ap (λ ss. verdicts_alone (packets_at h rest) ss) after in
            rw (e, says, later) refl
        | inr e ↦
            rw e (ih ∙ ap (λ ss. verdicts_alone (packets_at h rest) ss) (sources-apart h a w e))
      ]

  -- Where the limit is below the length of the array of entries: after `flow_ddos_module_init`,
  -- for whatever packets come that are timely (`IsTimely`), in whatever order, the calls of the
  -- detectors end, and the verdicts on the packets of each bucket are those that the
  -- bucket's list of sources gives on them alone.
  pub detect_all-verdicts_alone :
      s.limits.number < everynode_entry_max_sz
      → (start : Memory) (arrivals : List Arrival) → AreTimely head jhash s arrivals nobody
      → (alarms : List Bool) × (m' : Memory) × (detect_all head jhash s arrivals
            (init_heads head lcore_max_slot 0 start)
          ≡ ok alarms m')
        × ((h : Ptr) → verdicts_at h arrivals alarms ≡ verdicts_alone (packets_at h arrivals) [])
  detect_all-verdicts_alone room start arrivals timely =
      let (m', run) = init-detect_all head jhash s room start arrivals timely in
      (verdicts head jhash s arrivals nobody, m', run, λ h. verdicts_at-verdicts h arrivals nobody)
