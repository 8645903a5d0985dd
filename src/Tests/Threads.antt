-- ===== src/Tests/Threads.antt =====
-- The threads in short runs.
use uaflow.Prelude.{ℕ, ◌≡◌, ◌≢◌, ◌≤◌, ◌<◌, ◌⊎◌, refl, true, List, [], ◌∷◌}
use uaflow.Prelude.Int.{ℤ}
use uaflow.Dpdk.{getaliq}
use uaflow.Threads.{
  configured, launched, left, waiting, crashed, looping, Threads, begin, run, proceed, setconf,
  handler, start, leave, wait, expire, Timely, TimelyReach, here, next,
}
use uaflow.Threads.Startup.{TimelyReach-looping}
use uaflow.Threads.Early.{IsEarly, EarlyReach, here, next, sender_steps, Turn, EarlyReach-crashed}
use uaflow.Threads.Shutdown.{steps_left, Own, Steps, done, more, IsOver, Steps-le, Steps-IsOver}
use uaflow.Tests.Instances.{power_test}

abbrev ports : List ℕ
ports = 2 ∷ 5 ∷ []

-- The states of a start with four queues and two workers.
abbrev configured_state : Threads
configured_state = record begin { phase = configured; tx_queue_num = 4 }

abbrev launched_state : Threads
launched_state = record configured_state { phase = launched; workers = 2 }

abbrev serving_state : Threads
serving_state = run launched_state

abbrev waiting_state : Threads
waiting_state = record serving_state { sender = waiting }

abbrev looping_state : Threads
looping_state = proceed power_test.test 4 2 ports waiting_state

timely : TimelyReach power_test.test 4 2 ports begin looping_state
unfolding run Timely
timely =
    next
      (next
        (next (next (next here (setconf refl refl) tt) (handler refl refl) tt) (start refl refl) tt)
        (wait refl refl) tt)
      (expire refl refl) refl

TimelyReach-looping_example :
    (looping_state.sender ≢ crashed)
    × ((idx : ℕ) (mask : ℤ)
        → looping_state.sender ≡ looping idx mask
        → (idx ≡ 2) × (mask ≡ getaliq power_test.test 4))
TimelyReach-looping_example = TimelyReach-looping power_test.test 4 2 2 (5 ∷ []) timely

abbrev early : Threads
early = record begin { sender = waiting }

abbrev early_configured : Threads
early_configured = record early { phase = configured; tx_queue_num = 4 }

-- The wait ends between `setconf` and `run`.
early_run :
    EarlyReach power_test.test 4 2 ports early (proceed power_test.test 4 2 ports early_configured)
unfolding IsEarly
early_run = next (next here (setconf refl refl) tt) (expire refl refl) tt

EarlyReach-crashed_example :
    (sender_steps power_test.test 4 2 ports early_run ≤ 2)
    × (((proceed power_test.test 4 2 ports early_configured).sender ≡ crashed)
        ⊎ ((sender_steps power_test.test 4 2 ports early_run < 2)
            × Turn power_test.test 4 2 ports (proceed power_test.test 4 2 ports early_configured)))
EarlyReach-crashed_example = EarlyReach-crashed power_test.test 4 2 ports refl refl early_run

abbrev stopping : Threads
stopping = record waiting_state { run_flag = true }

left_once : Steps power_test.test 4 2 ports stopping 1 (record stopping { phase = left })
unfolding Own run
left_once = more done (leave refl refl refl) tt

Steps-le_example : 1 ≤ steps_left power_test.test 4 2 ports stopping
Steps-le_example = Steps-le power_test.test 4 2 ports refl left_once

Steps-IsOver_example :
    (u : Threads) × (n : ℕ) × Steps power_test.test 4 2 ports stopping n u
    × IsOver power_test.test 4 2 ports u
Steps-IsOver_example = Steps-IsOver power_test.test 4 2 ports stopping refl
