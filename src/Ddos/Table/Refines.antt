-- ===== src/Ddos/Table/Refines.antt =====
-- The detector's table, with its memory, against the lists of sources.
use uaflow.Prelude.{ℕ, ◌<◌, ◌≡◌, refl, Bool, List, [], ◌∷◌}
use uaflow.Dpdk.{lcore_max_slot}
use uaflow.Ddos.{everynode_entry_max_sz}
use uaflow.Ddos.Items.{Ptr, Memory, Run, ok, ◌>>=◌, return}
use uaflow.Ddos.Table.{Static, Arrival, detect, after, init_heads}
use uaflow.Ddos.Table.Outcome.{Represents}
use uaflow.Ddos.Table.Packets.{packet-Represents}
use uaflow.Ddos.Table.Runs.{begin-IsTable}
use uaflow.Ddos.Table.Sources.{Sources, nobody, sources, verdicts, AreTimely}

module _ (head : (is_v6 : Bool) → (coreid slot : ℕ) → Ptr)
    (jhash : (is_v6 : Bool) → (addr initval : ℕ) → ℕ) (s : Static) where
  -- The calls of the detectors for packet after packet.
  unfoldable pub detect_all : List Arrival → Memory → Run (List Bool)
  detect_all [] = return []
  detect_all (a ∷ rest) = do
    alarm ← detect head jhash s a
    alarms ← detect_all rest
    return (alarm ∷ alarms)

  module _ (room : s.limits.number < everynode_entry_max_sz) where
    detect_all-verdicts :
        (arrivals : List Arrival) (m : Memory) (items : Ptr → List Ptr) (w : Sources)
        → Represents head jhash s m items w
        → AreTimely head jhash s arrivals w
        → (m' : Memory) × (detect_all arrivals m ≡ ok (verdicts head jhash s arrivals w) m')
    unfolding detect_all verdicts
    detect_all-verdicts [] m items w rep timely = (m, refl)
    detect_all-verdicts (a ∷ rest) m items w rep timely =
        let (m1, run, kept) =
          packet-Represents (record { room = room; rep = rep; timely = timely.0 }) in
        let (m', later) =
          detect_all-verdicts rest m1 (after head jhash s m items a) (sources head jhash s a w) kept
            timely.1 in
        (m', rw (run, later) refl)

    -- Where the limit is below the length of the array of entries: after `flow_ddos_module_init`,
    -- for whatever timely packets come, of however many sources, over IPv4 and IPv6 and on all
    -- cores, the calls of the detectors end, without a use of a null pointer or an access outside
    -- an array, with the verdicts of the lists of sources. There each bucket has a list of
    -- sources, each with its set of ports: a packet adds its port, and the alarm is raised, and
    -- the set emptied, exactly at one port more than the limit; what the code's test of the time
    -- calls outdated is dropped first; a source that finds the bucket full takes the place of the
    -- oldest and of all that came after that; and where the pool has no item for it, it is let
    -- pass and not kept. A packet is timely if it is on one of the 32 cores and handled within
    -- one reading of the clock, if the pool gives its source, where that is new, no null pointer,
    -- no bucket's head and no item that it gave before, and if a full bucket without its source
    -- has an oldest source, from before 3000000000 milliseconds, that is not the last.
    pub init-detect_all :
        (start : Memory) (arrivals : List Arrival)
        → AreTimely head jhash s arrivals nobody
        → (m' : Memory) × (detect_all arrivals (init_heads head lcore_max_slot 0 start)
            ≡ ok (verdicts head jhash s arrivals nobody) m')
    init-detect_all start arrivals timely =
        let m = init_heads head lcore_max_slot 0 start in
        detect_all-verdicts arrivals m (λ h. []) nobody
          (record {
            table = begin-IsTable head jhash s start;
            holds = λ h at. tt;
            used = λ h x at there. absurd there;
          })
          timely
