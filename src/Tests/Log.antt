-- ===== src/Tests/Log.antt =====
-- The log of a service that is asked for it twice before it ends.
use uaflow.Prelude.{◌≡◌, refl, some, List, [], ◌∷◌, Bool, true, false}
use uaflow.Config
use uaflow.Start.{usr1, int, serve}
use uaflow.System.Log.{
  HasShortKeys, Round, serve_log, times, asked_rounds, all_dumped, serve_log-all_dumped,
}
use uaflow.Tests.Config.{machine, one_item, after_one, parse_run}
use uaflow.Tests.Dpdk.{nics, nics-HasWidths}
use uaflow.Tests.Start.{service}

after_one-HasShortKeys : HasShortKeys after_one
unfolding Config.fresh
after_one-HasShortKeys slot key there = absurd there

-- A round that is asked for its log, where the tables and the ports can be written or not.
abbrev asked_round : (tables_open ports_open : Bool) → Round
asked_round tables_open ports_open = record {
  signals = usr1 ∷ [];
  now = record { tv_sec = 7; tv_usec = 294000 };
  tables_open = tables_open;
  ports_open = ports_open;
  ports = nics;
}

-- The second dump fails to open the log for the tables, and the last comes with SIGINT.
abbrev log_rounds : List Round
log_rounds =
    asked_round true true
    ∷ record (asked_round true true) { signals = [] }
    ∷ asked_round false true
    ∷ record (asked_round true false) { signals = int ∷ usr1 ∷ [] }
    ∷ asked_round true true
    ∷ []

serve_log-all_dumped_example :
    serve_log after_one log_rounds service (b'x' ∷ [])
    ≡ some (
      serve (times log_rounds) service,
      all_dumped after_one (asked_rounds log_rounds) (b'x' ∷ []),
    )
serve_log-all_dumped_example =
    serve_log-all_dumped machine one_item after_one parse_run after_one-HasShortKeys log_rounds
      service (b'x' ∷ [])
      (nics-HasWidths, (nics-HasWidths, (nics-HasWidths, (nics-HasWidths, (nics-HasWidths, tt)))))
      refl refl
