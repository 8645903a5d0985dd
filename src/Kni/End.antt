-- ===== src/Kni/End.antt =====
-- The end of the thread of the kernel's interface.
use uaflow.Prelude.{ℕ, ◌≡◌, refl, sym, true, false, List, [], arith}
use mathlib.Core.List.{append-nil}
use uaflow.Dpdk.{ok}
use uaflow.Kni.{
  KniHost, init, Task, starting, waiting, looping, finished, crashed, exiting, Kni, test, wait,
  expire, loop,
}
use uaflow.Kni.Reach.{taken, Proper, Reach, next, IsAt}
use uaflow.Kni.Thread.{init-IsSound}

-- The thread at its end, on the way to which no packet was delivered.
pub record Ends (s : Kni) (ps : List ℕ) : Type 0 where
  pub final : Kni
  pub reach : Reach s ps final
  pub task : final.task ≡ finished

-- A state that proper steps lead to, with the run flag's pointer and the run flag set.
record Stopping (s : Kni) (ps : List ℕ) (t : Kni) : Type 0 where
  reach : Reach s ps t
  set : t.runflag_set ≡ true
  flag : t.run_flag ≡ true

module _ {s : Kni} {ps : List ℕ} where
  looping-Ends : {t : Kni} → Stopping s ps t → t.task ≡ looping → Ends s ps
  unfolding test taken Proper
  looping-Ends {t} r at_loop = record {
    final = test (λ _. 0) [] t;
    reach =
        next r.reach (loop (λ _. 0) [] at_loop refl) (omega arith)
          (rw r.flag (sym (append-nil ps)));
    task = rw (r.set, r.flag) refl;
  }

  waiting-Ends : {t : Kni} → Stopping s ps t → t.task ≡ waiting → Ends s ps
  unfolding taken Proper
  waiting-Ends {t} r at_wait =
      let after : Stopping s ps (record t { task = looping; signalled = false }) = record {
        reach = next r.reach (expire at_wait refl) r.set (sym (append-nil ps));
        set = r.set;
        flag = r.flag;
      } in
      looping-Ends after refl

  starting-Ends : {t : Kni} → Stopping s ps t → t.task ≡ starting → Ends s ps
  unfolding taken Proper
  starting-Ends {t} r at_start =
      let after : Stopping s ps (record t { task = waiting }) = record {
        reach = next r.reach (wait at_start refl) tt (sym (append-nil ps));
        set = r.set;
        flag = r.flag;
      } in
      waiting-Ends after refl

  task-Ends :
      {t : Kni} (r : Stopping s ps t) (k : Task)
      → t.task ≡ k
      → IsAt k t.runflag_set t.run_flag t.released
      → Ends s ps
  task-Ends r starting e at = starting-Ends r e
  task-Ends r waiting e at = waiting-Ends r e
  task-Ends r looping e at = looping-Ends r e
  task-Ends {t} r finished e at = record { final = t; reach = r.reach; task = e }
  task-Ends r crashed e at = absurd at
  task-Ends r exiting e at = absurd at

-- From every state that proper steps lead to from a successful `init`, once the run flag's pointer
-- and the run flag are set, proper steps lead to the end of the thread, on which no further packet
-- is delivered.
pub init-Ends :
    (h : KniHost) (rx_idx : List ℕ) {s : Kni}
    → init h rx_idx ≡ ok s
    → {ps : List ℕ} {t : Kni} → Reach s ps t
    → t.runflag_set ≡ true
    → t.run_flag ≡ true
    → Ends s ps
init-Ends h rx_idx e {ps} {t} reach set flag =
    task-Ends (record { reach = reach; set = set; flag = flag }) t.task refl
      (init-IsSound h rx_idx e reach).at
