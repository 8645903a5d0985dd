-- ===== src/Start/Serve.antt =====
-- The main loop between the signals.
use uaflow.Prelude.{
  ℕ, ◌+◌, ◌≡◌, refl, ◌∙◌, Bool, true, false, ◌||◌, List, [], ◌∷◌, arith, if◌then◌else◌, Bool-cases,
  inl, inr,
}
use uaflow.Current.{Timeval}
use uaflow.Start.{Signal, usr1, int, Service, handle, handle_all, tick, serve}

abbrev pub has_usr1 : List Signal → Bool
has_usr1 [] = false
has_usr1 (usr1 ∷ sigs) = true
has_usr1 (int ∷ sigs) = has_usr1 sigs

abbrev pub has_int : List Signal → Bool
has_int [] = false
has_int (usr1 ∷ sigs) = has_int sigs
has_int (int ∷ sigs) = true

-- The rounds up to the first one before which SIGINT arrives, that one included.
pub until_int : List (List Signal × Timeval) → List (List Signal × Timeval)
until_int [] = []
until_int ((sigs, now) ∷ rest) =
    if has_int sigs then (sigs, now) ∷ [] else (sigs, now) ∷ until_int rest

-- The rounds before which SIGUSR1 arrives.
pub asked : List (List Signal × Timeval) → ℕ
asked [] = 0
asked ((sigs, now) ∷ rest) = (if has_usr1 sigs then 1 else 0) + asked rest

pub interrupted : List (List Signal × Timeval) → Bool
interrupted [] = false
interrupted ((sigs, now) ∷ rest) = has_int sigs || interrupted rest

pub handle_all-flags :
    (sigs : List Signal) (s : Service)
    → ((handle_all sigs s).run_flag ≡ (has_int sigs || s.run_flag))
      × ((handle_all sigs s).dump_signum ≡ (has_usr1 sigs || s.dump_signum))
      × ((handle_all sigs s).dumps ≡ s.dumps)
unfolding handle_all handle
handle_all-flags [] s = (refl, refl, refl)
handle_all-flags (usr1 ∷ sigs) s =
    ground (arith, handle_all-flags sigs (record s { dump_signum = true }))
handle_all-flags (int ∷ sigs) s =
    ground (arith, handle_all-flags sigs (record s { run_flag = true }))

-- One round after signals, where neither flag was set before them.
module _ (sigs : List Signal) (now : Timeval) (s : Service) (r : s.run_flag ≡ false)
    (d : s.dump_signum ≡ false) where
  pub tick-handle_all :
      ((tick now (handle_all sigs s)).1 ≡ has_int sigs)
      × ((tick now (handle_all sigs s)).0.run_flag ≡ has_int sigs)
      × ((tick now (handle_all sigs s)).0.dump_signum ≡ false)
      × ((tick now (handle_all sigs s)).0.dumps ≡ s.dumps + (if has_usr1 sigs then 1 else 0))
  unfolding tick
  tick-handle_all = ground (arith, handle_all-flags sigs s)

-- Where neither flag is set, the main loop is left exactly if SIGINT arrives; up to that round it
-- writes the log once for each round before which SIGUSR1 arrives, however often, and the request
-- is used up: it is left with the flag clear.
pub serve_lem :
    (rounds : List (List Signal × Timeval)) (s : Service)
    → s.run_flag ≡ false
    → s.dump_signum ≡ false
    → ((serve rounds s).1 ≡ interrupted rounds)
      × ((serve rounds s).0.dumps ≡ s.dumps + asked (until_int rounds))
      × ((serve rounds s).0.dump_signum ≡ false)
unfolding serve until_int asked interrupted
serve_lem [] s r d = (refl, omega arith, d)
serve_lem ((sigs, now) ∷ rest) s r d =
    let s1 = (tick now (handle_all sigs s)).0 in
    let (stops, flag, clear, dumps) = tick-handle_all sigs now s r d in
    elim (Bool-cases (has_int sigs)) [
      | inl e ↦ rw (stops, e, serve, interrupted, until_int) (refl, omega (arith, dumps), clear)
      | inr e ↦
          let (left, total, cleared) = serve_lem rest s1 (flag ∙ e) clear in
          rw (stops, e, serve, interrupted, until_int) (left, omega (arith, dumps, total), cleared)
    ]
