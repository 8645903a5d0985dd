-- ===== src/Kni/Reach.antt =====
-- Runs of the kernel interface's thread, and what is meant to hold in them.
use uaflow.Prelude.{ℕ, ◌+◌, ◌≤◌, ◌≡◌, Bool, true, List, [], ◌++◌, length, if◌then◌else◌}
use uaflow.Egress.Holdings.{count}
use uaflow.Kni.{
  pkt_burst_sz, Task, starting, waiting, looping, finished, crashed, exiting, Kni, Step, start,
  wait, wake, expire, loop, interrupt,
}
use uaflow.Kni.Bursts.{held}

-- The packets that the kernel delivers in a step.
unfoldable pub taken : {s t : Kni} → Step s t → List ℕ
taken {s} (loop tx_burst burst _ _) = if s.run_flag then [] else burst
taken (start _ _) = []
taken (wait _ _) = []
taken (wake _ _ _) = []
taken (expire _ _) = []
taken (interrupt _) = []

-- The wait does not end before `run`, and no burst is longer than the thread's array.
unfoldable pub Proper : {s t : Kni} → Step s t → Type 0
Proper {s} (expire _ _) = s.runflag_set ≡ true
Proper (loop tx_burst burst _ _) = length burst ≤ pkt_burst_sz
Proper (start _ _) = Unit
Proper (wait _ _) = Unit
Proper (wake _ _ _) = Unit
Proper (interrupt _) = Unit

-- A state that is reached by proper steps, with the packets delivered on the way.
pub data Reach (s : Kni) : List ℕ → Kni → Type 0 where
  here : Reach s [] s
  next :
      {ps qs : List ℕ} {t u : Kni}
      → Reach s ps t
      → (step : Step t u) → Proper step
      → qs ≡ ps ++ taken step
      → Reach s qs u

-- Where the thread is, the run flag's pointer, the flag and the releases of the interface.
abbrev pub IsAt : Task → (runflag_set run_flag : Bool) → (released : ℕ) → Type 0
IsAt starting runflag_set run_flag released = released ≡ 0
IsAt waiting runflag_set run_flag released = released ≡ 0
IsAt looping runflag_set run_flag released = (runflag_set ≡ true) × (released ≡ 0)
IsAt finished runflag_set run_flag released =
    (runflag_set ≡ true) × (run_flag ≡ true) × (released ≡ 1)
IsAt crashed runflag_set run_flag released = ⊥
IsAt exiting runflag_set run_flag released = ⊥

-- The thread is at none of the two faults; the interface is released once it has finished, and
-- only then; and each packet delivered was sent or freed, once.
pub record IsSound (s : Kni) (ps : List ℕ) (t : Kni) : Type 0 where
  pub at : IsAt t.task t.runflag_set t.run_flag t.released
  pub woken : t.signalled ≡ true → t.runflag_set ≡ true
  pub portid : t.portid ≡ s.portid
  pub conf : t.conf ≡ s.conf
  pub packets : (a : ℕ) → held a t.world ≡ held a s.world + count a ps
