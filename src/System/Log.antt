-- ===== src/System/Log.antt =====
-- The log that the loop of `main` writes on SIGUSR1: the tables, and behind them the ports.
use uaflow.Prelude.{
  ℕ, ◌<◌, ◌≡◌, refl, ◌∙◌, ap, min, Bool, true, false, Option, none, some, List, ◌++◌, arith, In,
  length, inl, inr, [], ◌∷◌, if◌then◌else◌, Bool-cases, ◌||◌,
}
use uaflow.Prelude.Ascii.{ascii}
use uaflow.Config.{Key, Tables, fresh}
use uaflow.Config.Tree.{Xml}
use uaflow.Config.Devices.{Machine}
use uaflow.Config.Parse.{parse}
use uaflow.Config.Dump.{dump, buff_size, key_line}
use uaflow.Config.Log.{log_of, dump-log_of}
use uaflow.Current.{Timeval}
use uaflow.Dpdk.Dump.{Ports, dump_module}
use uaflow.Dpdk.Report.{HasWidths, report, dump_module-report}
use uaflow.Start.{Signal, Service, handle_all, tick, serve}
use uaflow.Start.Serve.{has_usr1, has_int, handle_all-flags, tick-handle_all}

-- The two calls of the loop, `flow_config_module.dump` and `flow_dpdk_module.dump`, by whether each
-- can open the log.
unfoldable pub write_log :
    (tables_open ports_open : Bool) → Tables → Ports → (log : List ℕ) → Option (List ℕ)
write_log tables_open ports_open t ports log = elim (dump tables_open t log) [
  | none ↦ none
  | some log' ↦ dump_module ports_open ports log'
]

-- A round of the loop: the signals that are handled before it, the time that it reads, whether each
-- of the two dumps can open the log, and what DPDK says of the ports.
pub record Round : Type 0 where
  pub signals : List Signal
  pub now : Timeval
  pub tables_open : Bool
  pub ports_open : Bool
  pub ports : Ports

-- The loop with what it does to the log: a round writes it where the flag of SIGUSR1 is set.
unfoldable pub serve_log :
    Tables → List Round → Service → (log : List ℕ) → Option ((Service × Bool) × List ℕ)
unfolding write_log
serve_log t [] s log = some ((s, false), log)
serve_log t (r ∷ rest) s log =
    let signalled = handle_all r.signals s in
    let (s1, stops) = tick r.now signalled in
    let written =
      if signalled.dump_signum
      then write_log r.tables_open r.ports_open t r.ports log
      else some log in
    elim written [
      | none ↦ none
      | some log' ↦ elim stops [ true ↦ some ((s1, true), log') | false ↦ serve_log t rest s1 log' ]
    ]

-- The signals and times of the rounds.
abbrev pub times : List Round → List (List Signal × Timeval)
times [] = []
times (r ∷ rest) = (r.signals, r.now) ∷ times rest

-- The rounds before which SIGUSR1 arrives, up to the first before which SIGINT arrives.
abbrev pub asked_rounds : List Round → List Round
asked_rounds [] = []
asked_rounds (r ∷ rest) =
    let later = if has_int r.signals then [] else asked_rounds rest in
    if has_usr1 r.signals then r ∷ later else later

-- The log after a dump: the tables in place of what it held, and behind them the ports, each where
-- the log could be opened for it.
abbrev pub dumped : Tables → Round → List ℕ → List ℕ
dumped t r log =
    let front = if r.tables_open then log_of t else log in
    if r.ports_open
    then front
      ++ ascii "\n\n[NIC-LinkStatus]:\n\n"
      ++ report r.ports (min r.ports.dev_count r.ports.max_ethports) 0
    else front

abbrev pub all_dumped : Tables → List Round → List ℕ → List ℕ
all_dumped t [] log = log
all_dumped t (r ∷ rest) log = all_dumped t rest (dumped t r log)

abbrev pub HaveWidths : List Round → Type 0
HaveWidths [] = Unit
HaveWidths (r ∷ rest) = HasWidths r.ports × HaveWidths rest

-- The line of each key fits the buffer.
abbrev pub HasShortKeys : Tables → Type 0
HasShortKeys t = (slot : ℕ) (key : Key) → In key (t.keys slot) → length (key_line key) < buff_size

module _ (mc : Machine) (doc : Xml) (t : Tables) (parsed : parse mc doc fresh ≡ some t)
    (short : HasShortKeys t) where
  dump-short :
      (opens : Bool) (log : List ℕ) → dump opens t log ≡ some (if opens then log_of t else log)
  unfolding dump
  dump-short false log = refl
  dump-short true log = elim (dump-log_of mc doc t log parsed) [
    | inl run ↦ run
    | inr (_, (slot, _, (key, there, long))) ↦ absurd (omega (arith, long, short slot key there))
  ]

  write_log-dumped :
      (r : Round) (log : List ℕ)
      → HasWidths r.ports
      → write_log r.tables_open r.ports_open t r.ports log ≡ some (dumped t r log)
  unfolding write_log
  write_log-dumped r log widths =
      rw (write_log, dump-short r.tables_open log)
        (dump_module-report r.ports_open r.ports (if r.tables_open then log_of t else log) widths)

  round_log :
      (r : Round) (s : Service) (log : List ℕ)
      → HasWidths r.ports
      → (handle_all r.signals s).dump_signum ≡ (has_usr1 r.signals || false)
      → (if (handle_all r.signals s).dump_signum
          then write_log r.tables_open r.ports_open t r.ports log
          else some log)
        ≡ some (if has_usr1 r.signals then dumped t r log else log)
  round_log r s log wide asks = elim (Bool-cases (has_usr1 r.signals)) [
    | inl e ↦ rw (asks, e) (write_log-dumped r log wide)
    | inr e ↦ rw (asks, e) refl
  ]

  all_dumped-next :
      (b : Bool) (r : Round) (later : List Round) (log : List ℕ)
      → all_dumped t later (if b then dumped t r log else log)
        ≡ all_dumped t (if b then r ∷ later else later) log
  all_dumped-next true r later log = refl
  all_dumped-next false r later log = refl

  -- With the tables of a configuration in which the line of each key fits the buffer, and where the
  -- numbers of DPDK have the widths of their types in every round: if neither flag is set at first,
  -- the loop of `main` does to its flags and clock what it does without its log, and no text leaves
  -- its buffer. Each round before which SIGUSR1 arrives, up to the first before which SIGINT does,
  -- puts the tables in the place of all that the log held, where `flow_config_module_dump` can open
  -- it, and adds the ports as they are in that round, where `flow_dpdk_module_dump` can; nothing
  -- else changes the log.
  pub serve_log-all_dumped :
      (rounds : List Round) (s : Service) (log : List ℕ)
      → HaveWidths rounds
      → s.run_flag ≡ false
      → s.dump_signum ≡ false
      → serve_log t rounds s log
        ≡ some (serve (times rounds) s, all_dumped t (asked_rounds rounds) log)
  unfolding serve_log serve
  serve_log-all_dumped [] s log widths runs clear = refl
  serve_log-all_dumped (r ∷ rest) s log (wide, widths) runs clear =
      let (_, asks, _) = handle_all-flags r.signals s in
      let (stops, flag, cleared, _) = tick-handle_all r.signals r.now s runs clear in
      let log' = if has_usr1 r.signals then dumped t r log else log in
      let wrote = round_log r s log wide (asks ∙ ap (λ b. has_usr1 r.signals || b) clear) in
      elim (Bool-cases (has_int r.signals)) [
        | inl e ↦
            rw (serve_log, serve, wrote, stops, e)
              (ap (λ l. some (((tick r.now (handle_all r.signals s)).0, true), l))
                (all_dumped-next (has_usr1 r.signals) r [] log))
        | inr e ↦
            let later =
              serve_log-all_dumped rest (tick r.now (handle_all r.signals s)).0 log' widths
                (flag ∙ e) cleared in
            rw (serve_log, serve, wrote, stops, e)
              (later
                ∙ ap (λ l. some (serve (times rest) (tick r.now (handle_all r.signals s)).0, l))
                    (all_dumped-next (has_usr1 r.signals) r (asked_rounds rest) log))
      ]
