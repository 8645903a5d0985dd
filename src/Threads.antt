-- ===== src/Threads.antt =====
-- The threads of the process and their start: the order of `main` in flow_start/flow_start.c from
-- `flow_forward_defsend_module.init` on, the sender's thread of
-- flow_forward/flow_forward_defsend.c with its wait, and the workers of flow_dpdk/flow_dpdk.c. What
-- they do to packets is in Egress and Forward; here are the steps by which they start and stop.
pub mod Startup
pub mod Shutdown
pub mod Early
use uaflow.Prelude.{
  List, [], ◌∷◌, ℕ, zero, suc, ◌+◌, ◌≡◌, ◌≢◌, Bool, true, false, if◌then◌else◌, Option, none, some,
}
use uaflow.Prelude.Int.{ℤ, pos, negsuc}
use uaflow.Dpdk.{getaliq}

-- Where `main` is: after the sender's `init`, after `setconf`, after `handler`, after the sender's
-- `run` in its own loop, and behind that loop.
pub data Phase : Type 0 where
  created configured launched serving left : Phase

-- The sender's thread: before its timed wait, in it, in its loop with the default port and the mask
-- that it read, behind the loop, and at the use of a null pointer.
pub data Sender : Type 0 where
  starting waiting finished crashed : Sender
  looping : (defaultidx : ℕ) (mask : ℤ) → Sender

pub record Threads : Type 0 where
  pub phase : Phase
  -- flow_dpdk_tx_queue_num
  pub tx_queue_num : ℕ
  -- Is the sender's `runflag` set, or still the null pointer that `memset` left?
  pub runflag_set : Bool
  -- Has the condition been signalled to a thread that waits for it?
  pub signalled : Bool
  -- flow_dpdk_core_run_flag
  pub run_flag : Bool
  pub sender : Sender
  -- the workers in their loop
  pub workers : ℕ

-- After `flow_forward_defsend_module_init`.
abbrev pub begin : Threads
begin = record {
  phase = created;
  tx_queue_num = 0;
  runflag_set = false;
  signalled = false;
  run_flag = false;
  sender = starting;
  workers = 0;
}

-- `flow_forward_defsend_module_init`, if its ring is created or not: the threads, none where there is
-- no thread of the sender, and the result.
unfoldable pub module_init : (ring_created : Bool) → Option Threads × ℤ
module_init false = (none, negsuc 0)
module_init true = (some begin, pos 0)

abbrev pub is_waiting : Sender → Bool
is_waiting waiting = true
is_waiting starting = false
is_waiting finished = false
is_waiting crashed = false
is_waiting (looping _ _) = false

-- `pthread_cond_signal` in `flow_forward_defsend_module_run`: it reaches a waiting thread only.
unfoldable pub run : Threads → Threads
run s = record s { phase = serving; runflag_set = true; signalled = is_waiting s.sender }

-- One test of the sender's loop, `while(!*tmparg->runflag)`.
unfoldable pub test : ℕ → ℤ → Threads → Threads
test defaultidx mask s = record s {
  sender =
      if s.runflag_set then (if s.run_flag then finished else looping defaultidx mask) else crashed;
}

-- The way from the wait to the loop, by the ports of `gettx`: the first of them is the default one.
abbrev pub enter : (ℕ → Bool) → List ℕ → ℕ → Sender
enter is_power_of_2 [] tx_queue_num = crashed
enter is_power_of_2 (idx ∷ rest) tx_queue_num = looping idx (getaliq is_power_of_2 tx_queue_num)

module _ (is_power_of_2 : ℕ → Bool) (tx_queues nb_workers : ℕ) (tx_idx : List ℕ) where
  unfoldable pub proceed : Threads → Threads
  proceed s = record s { sender = enter is_power_of_2 tx_idx s.tx_queue_num; signalled = false }

  -- A step of `main`, of the sender, of a worker or of the operating system; `setconf` finds
  -- `tx_queues` queues, and `handler` starts `nb_workers` workers. `expire` is the end of the timed
  -- wait without a signal, which may come at any time.
  pub data Step (s t : Threads) : Type 0 where
    setconf :
        s.phase ≡ created → t ≡ record s { phase = configured; tx_queue_num = tx_queues } → Step s t
    handler :
        s.phase ≡ configured → t ≡ record s { phase = launched; workers = nb_workers } → Step s t
    start : s.phase ≡ launched → t ≡ run s → Step s t
    leave : s.phase ≡ serving → s.run_flag ≡ true → t ≡ record s { phase = left } → Step s t
    wait : s.sender ≡ starting → t ≡ record s { sender = waiting } → Step s t
    wake : s.sender ≡ waiting → s.signalled ≡ true → t ≡ proceed s → Step s t
    expire : s.sender ≡ waiting → t ≡ proceed s → Step s t
    loop :
        (defaultidx : ℕ) (mask : ℤ)
        → s.sender ≡ looping defaultidx mask
        → t ≡ test defaultidx mask s
        → Step s t
    stop : (k : ℕ) → s.workers ≡ suc k → s.run_flag ≡ true → t ≡ record s { workers = k } → Step s t
    interrupt : t ≡ record s { run_flag = true } → Step s t

  -- The wait does not end before the sender's `run`.
  unfoldable pub Timely : {s t : Threads} → Step s t → Type 0
  Timely {s} (expire _ _) = s.runflag_set ≡ true
  Timely (setconf _ _) = Unit {0}
  Timely (handler _ _) = Unit {0}
  Timely (start _ _) = Unit {0}
  Timely (leave _ _ _) = Unit {0}
  Timely (wait _ _) = Unit {0}
  Timely (wake _ _ _) = Unit {0}
  Timely (loop _ _ _ _) = Unit {0}
  Timely (stop _ _ _ _) = Unit {0}
  Timely (interrupt _) = Unit {0}

  -- What can be reached by steps in which the wait is long enough.
  pub data TimelyReach (s : Threads) : Threads → Type 0 where
    here : TimelyReach s s
    next : {t u : Threads} → TimelyReach s t → (step : Step t u) → Timely step → TimelyReach s u
