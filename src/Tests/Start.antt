-- ===== src/Tests/Start.antt =====
-- The clock, the options, the pid file and the main loop at concrete inputs.
use uaflow.Prelude.{◌+◌, ◌≡◌, refl, true, false, some, List, [], ◌∷◌, ◌++◌, arith, replicate}
use uaflow.Prelude.CString.{eq_nocase, lower, strncpy, padded, text}
use uaflow.Prelude.Decimal.{decimal}
use uaflow.Prelude.Int.{pos}
use uaflow.Current.{Timeval, Clock}
use uaflow.Start.{
  Opt, logfile, mode, unknown, Settings, goes_on, fresh, options, log_of, wr_pid, print,
  kill_prefix, Signal, usr1, int, Service, serve,
}
use uaflow.Start.Options.{last_logfile, asks_back, options-log_of}
use uaflow.Start.Pid.{print-wr_pid}
use uaflow.Start.Serve.{until_int, asked, interrupted, serve_lem}

-- Two milliseconds before and three after the 32 bits of the clock are used up.
abbrev before : Timeval
before = record { tv_sec = 4294967; tv_usec = 294000 }

abbrev after : Timeval
after = record { tv_sec = 4294967; tv_usec = 299000 }

abbrev stopped : Clock
stopped = record { flow_current_time = 0 }

-- -o a -x -m BACK -o b
abbrev line : List Opt
line =
    logfile (b'a' ∷ []) ∷ unknown ∷ mode (b'B' ∷ b'A' ∷ b'C' ∷ b'K' ∷ []) ∷ logfile (b'b' ∷ []) ∷ []

abbrev chosen : Settings
chosen = record { logname = b'b' ∷ replicate 255 0; logmark = true; backmark = true }

line_run : options line fresh ≡ goes_on chosen
unfolding options fresh strncpy padded eq_nocase lower
line_run = refl

options-log_of_example : (text (log_of chosen) ≡ b'b' ∷ []) × (true ≡ asks_back line)
unfolding last_logfile text
options-log_of_example = options-log_of line chosen line_run

print-wr_pid_example :
    print (pos 0) (wr_pid true 4711 (some (b'x' ∷ []))).0 ≡ some (kill_prefix ++ decimal 4711)
print-wr_pid_example = print-wr_pid 4711 (pos 0) (some (b'x' ∷ [])) (omega arith)

-- Two requests for a dump before the first round, SIGINT before the second, and a third round.
abbrev rounds : List (List Signal × Timeval)
rounds = (usr1 ∷ usr1 ∷ [], before) ∷ (int ∷ [], before) ∷ (usr1 ∷ [], after) ∷ []

abbrev pub service : Service
service = record { dump_signum = false; run_flag = false; clock = stopped; dumps = 0 }

serve_lem_example :
    ((serve rounds service).1 ≡ interrupted rounds)
    × ((serve rounds service).0.dumps ≡ 0 + asked (until_int rounds))
    × ((serve rounds service).0.dump_signum ≡ false)
serve_lem_example = serve_lem rounds service refl refl
