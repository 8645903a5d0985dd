-- ===== src/Kni/Thread.antt =====
-- The thread of the kernel's interface from its start to its end.
use uaflow.Prelude.{
  ℕ, ◌+◌, ◌≤◌, ◌≡◌, refl, sym, ◌∙◌, ap, Bool, true, false, List, [], ◌++◌, arith, length,
  if◌then◌else◌, inl, inr, Bool-cases,
}
use mathlib.Core.Path.{subst}
use uaflow.Dpdk.{ok}
use uaflow.Egress.Holdings.{count, count-append}
use uaflow.Kni.{
  pkt_burst_sz, KniConf, KniHost, init, created, Task, starting, waiting, looping, finished,
  crashed, exiting, Kni, run, test, Step, start, wait, wake, expire, loop, interrupt,
}
use uaflow.Kni.Bursts.{held, held-round}
use uaflow.Kni.Name.{init-created}
use uaflow.Kni.Reach.{taken, Proper, Reach, here, next, IsAt, IsSound}

IsAt-set : (k : Task) (f g : Bool) (r : ℕ) → IsAt k f g r → IsAt k true g r
IsAt-set starting f g r h = h
IsAt-set waiting f g r h = h
IsAt-set looping f g r h = (refl, h.1)
IsAt-set finished f g r h = (refl, h.1, h.2)
IsAt-set crashed f g r h = h
IsAt-set exiting f g r h = h

IsAt-interrupt : (k : Task) (f g : Bool) (r : ℕ) → IsAt k f g r → IsAt k f true r
IsAt-interrupt starting f g r h = h
IsAt-interrupt waiting f g r h = h
IsAt-interrupt looping f g r h = h
IsAt-interrupt finished f g r h = (h.0, refl, h.2)
IsAt-interrupt crashed f g r h = h
IsAt-interrupt exiting f g r h = h

looping-IsAt : (k : Task) (f g : Bool) (r : ℕ) → k ≡ looping → IsAt k f g r → (f ≡ true) × (r ≡ 0)
looping-IsAt k f g r e h = rw e at h

IsAt-looping : (k : Task) (f g : Bool) (r : ℕ) → k ≡ looping → f ≡ true → r ≡ 0 → IsAt k f g r
IsAt-looping k f g r e set none_released = rw e (set, none_released)

count-none : (a : ℕ) (ps : List ℕ) → count a (ps ++ []) ≡ count a ps
unfolding count
count-none a ps = omega (arith, count-append a ps [])

starting-IsAt : (k : Task) (f g : Bool) (r : ℕ) → k ≡ starting → IsAt k f g r → r ≡ 0
starting-IsAt k f g r e h = rw e at h

waiting-IsAt : (k : Task) (f g : Bool) (r : ℕ) → k ≡ waiting → IsAt k f g r → r ≡ 0
waiting-IsAt k f g r e h = rw e at h

module _ {s t : Kni} {ps : List ℕ} (i : IsSound s ps t) where
  none_taken : (a : ℕ) → held a t.world ≡ held a s.world + count a (ps ++ [])
  none_taken a = i.packets a ∙ ap (λ n. held a s.world + n) (sym (count-none a ps))

  -- The end of the wait, once the run flag's pointer is set.
  proceed-IsSound :
      t.task ≡ waiting
      → t.runflag_set ≡ true
      → IsSound s (ps ++ []) (record t { task = looping; signalled = false })
  proceed-IsSound at_wait set = record {
    at = (set, waiting-IsAt t.task t.runflag_set t.run_flag t.released at_wait i.at);
    woken = λ _. set;
    portid = i.portid;
    conf = i.conf;
    packets = none_taken;
  }

  -- A test of the loop.
  test-IsSound :
      (tx_burst : List ℕ → ℕ) (burst : List ℕ)
      → t.task ≡ looping
      → length burst ≤ pkt_burst_sz
      → IsSound s (ps ++ (if t.run_flag then [] else burst)) (test tx_burst burst t)
  unfolding test
  test-IsSound tx_burst burst at_loop short =
      let (set, none_released) =
        looping-IsAt t.task t.runflag_set t.run_flag t.released at_loop i.at in
      elim (Bool-cases t.run_flag) [
        | inl e ↦
            rw (set, e)
              record {
                at = (refl, refl, omega (arith, none_released));
                woken = λ _. refl;
                portid = i.portid;
                conf = i.conf;
                packets = none_taken;
              }
        | inr e ↦
            let (w, run, same) = held-round tx_burst burst t.world short in
            rw (set, e, run)
              record {
                at =
                    IsAt-looping t.task t.runflag_set t.run_flag t.released at_loop set
                      none_released;
                woken = λ _. set;
                portid = i.portid;
                conf = i.conf;
                packets = λ a. omega (arith, same a, i.packets a, count-append a ps burst);
              }
      ]

-- A step.
step-IsSound :
    {s t u : Kni} {ps qs : List ℕ}
    → IsSound s ps t
    → (step : Step t u) → Proper step
    → qs ≡ ps ++ taken step
    → IsSound s qs u
unfolding run taken Proper
step-IsSound {s} {t} i (start fresh after) proper more =
    rw (after, more)
      record {
        at = IsAt-set t.task t.runflag_set t.run_flag t.released i.at;
        woken = λ _. refl;
        portid = i.portid;
        conf = i.conf;
        packets = none_taken i;
      }
step-IsSound {s} {t} i (wait at_start after) proper more =
    rw (after, more)
      record {
        at = starting-IsAt t.task t.runflag_set t.run_flag t.released at_start i.at;
        woken = i.woken;
        portid = i.portid;
        conf = i.conf;
        packets = none_taken i;
      }
step-IsSound i (wake at_wait signal after) proper more =
    rw (after, more) (proceed-IsSound i at_wait (i.woken signal))
step-IsSound i (expire at_wait after) proper more =
    rw (after, more) (proceed-IsSound i at_wait proper)
step-IsSound i (loop tx_burst burst at_loop after) short more =
    rw (after, more) (test-IsSound i tx_burst burst at_loop short)
step-IsSound {s} {t} i (interrupt after) proper more =
    rw (after, more)
      record {
        at = IsAt-interrupt t.task t.runflag_set t.run_flag t.released i.at;
        woken = i.woken;
        portid = i.portid;
        conf = i.conf;
        packets = none_taken i;
      }

-- What steps lead from the created thread to has the invariant.
Reach-IsSound :
    (portid : ℕ) (conf : KniConf) {ps : List ℕ} {t : Kni}
    → Reach (created portid conf) ps t
    → IsSound (created portid conf) ps t
unfolding count
Reach-IsSound portid conf here = record {
  at = refl;
  woken = λ e. absurd (cc);
  portid = refl;
  conf = refl;
  packets = λ a. omega arith;
}
Reach-IsSound portid conf (next before step proper more) =
    step-IsSound (Reach-IsSound portid conf before) step proper more

-- Whatever the receive ports are and DPDK answers, in every state that steps lead to from a
-- successful `init`, where the wait does not end before `run` and the kernel delivers no more than
-- the thread's array holds: the thread has neither used a null pointer nor exited, each packet
-- delivered was sent or freed, once, and the interface is released once if the thread has
-- finished, and is not otherwise.
pub init-IsSound :
    (h : KniHost) (rx_idx : List ℕ) {s : Kni}
    → init h rx_idx ≡ ok s
    → {ps : List ℕ} {t : Kni} → Reach s ps t
    → IsSound s ps t
init-IsSound h rx_idx {s} e {ps} {t} reach =
    let (portid, conf, begun) = init-created h rx_idx e in
    subst (λ (k : Kni). Reach k ps t → IsSound k ps t) (sym begun) (Reach-IsSound portid conf) reach
