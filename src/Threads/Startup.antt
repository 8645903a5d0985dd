-- ===== src/Threads/Startup.antt =====
-- The start of the sender's thread.
use uaflow.Prelude.{List, ◌∷◌, ℕ, ◌≡◌, ◌≢◌, refl, Bool, true, false, arith}
use uaflow.Prelude.Int.{ℤ}
use uaflow.Dpdk.{getaliq}
use uaflow.Threads.{
  Phase, created, configured, launched, serving, left, Sender, starting, waiting, finished, crashed,
  looping, Threads, begin, run, test, proceed, Step, Timely, setconf, handler, start, leave, wait,
  wake, expire, loop, stop, interrupt, TimelyReach, here, next,
}

module _ (is_power_of_2 : ℕ → Bool) (tx_queues nb_workers first_tx : ℕ) (other_tx : List ℕ) where
  abbrev tx_idx : List ℕ
  tx_idx = first_tx ∷ other_tx

  -- Has `main` passed the sender's `run`?
  abbrev runs : Phase → Bool
  runs created = false
  runs configured = false
  runs launched = false
  runs serving = true
  runs left = true

  abbrev is_set_up : Phase → Bool
  is_set_up created = false
  is_set_up configured = true
  is_set_up launched = true
  is_set_up serving = true
  is_set_up left = true

  abbrev mask_of : ℤ
  mask_of = getaliq is_power_of_2 tx_queues

  -- What the sender's state asks for.
  abbrev SenderIsSafe : Sender → Bool → Type 0
  SenderIsSafe starting flag = Unit {0}
  SenderIsSafe waiting flag = Unit {0}
  SenderIsSafe finished flag = flag ≡ true
  SenderIsSafe crashed flag = ⊥
  SenderIsSafe (looping idx mask) flag = (flag ≡ true) × (idx ≡ first_tx) × (mask ≡ mask_of)

  record IsSafe (s : Threads) : Type 0 where
    flag : s.runflag_set ≡ runs s.phase
    signal : s.signalled ≡ true → s.runflag_set ≡ true
    queues : is_set_up s.phase ≡ true → s.tx_queue_num ≡ tx_queues
    sender : SenderIsSafe s.sender s.runflag_set

  begin-IsSafe : IsSafe begin
  begin-IsSafe = ground arith

  SenderIsSafe-true : (x : Sender) (b : Bool) → SenderIsSafe x b → SenderIsSafe x true
  SenderIsSafe-true starting b h = tt
  SenderIsSafe-true waiting b h = tt
  SenderIsSafe-true finished b h = refl
  SenderIsSafe-true crashed b h = h
  SenderIsSafe-true (looping idx mask) b h = (refl, h.1, h.2)

  runs-is_set_up : (x : Phase) → runs x ≡ true → is_set_up x ≡ true
  runs-is_set_up x h = ground arith

  proceed-IsSafe :
      (s : Threads)
      → s.runflag_set ≡ true
      → IsSafe s
      → IsSafe (proceed is_power_of_2 tx_queues nb_workers tx_idx s)
  unfolding proceed
  proceed-IsSafe s flag h = grind (arith, runs-is_set_up s.phase)

  Step-IsSafe :
      {s t : Threads} (step : Step is_power_of_2 tx_queues nb_workers tx_idx s t)
      → Timely is_power_of_2 tx_queues nb_workers tx_idx step
      → IsSafe s
      → IsSafe t
  unfolding Timely run test proceed
  Step-IsSafe {s} {t} (setconf at e) timely h = grind arith
  Step-IsSafe {s} {t} (handler at e) timely h = grind arith
  Step-IsSafe {s} {t} (start at e) timely h =
      grind (arith, SenderIsSafe-true s.sender s.runflag_set h.sender)
  Step-IsSafe {s} {t} (leave at flag e) timely h = grind arith
  Step-IsSafe {s} {t} (wait at e) timely h = grind arith
  Step-IsSafe {s} {t} (wake at signal e) timely h = rw e (proceed-IsSafe s (h.signal signal) h)
  Step-IsSafe {s} {t} (expire at e) timely h = rw e (proceed-IsSafe s timely h)
  Step-IsSafe {s} {t} (loop idx mask at e) timely h =
      let safe : SenderIsSafe (looping idx mask) s.runflag_set = rw at at h.sender in
      rw e (grind arith)
  Step-IsSafe {s} {t} (stop k at flag e) timely h = grind arith
  Step-IsSafe {s} {t} (interrupt e) timely h = grind arith

  TimelyReach-IsSafe :
      {s t : Threads}
      → IsSafe s
      → TimelyReach is_power_of_2 tx_queues nb_workers tx_idx s t
      → IsSafe t
  TimelyReach-IsSafe h here = h
  TimelyReach-IsSafe h (next r step timely) = Step-IsSafe step timely (TimelyReach-IsSafe h r)

  -- Where there is a port to send to, and the sender's wait never ends before its `run`, the
  -- sender does not use a null pointer, and it sends to the first of the ports to send to, with
  -- the mask of the queues that were set up.
  pub TimelyReach-looping :
      {t : Threads}
      → TimelyReach is_power_of_2 tx_queues nb_workers (first_tx ∷ other_tx) begin t
      → (t.sender ≢ crashed)
        × ((idx : ℕ) (mask : ℤ)
            → t.sender ≡ looping idx mask
            → (idx ≡ first_tx) × (mask ≡ getaliq is_power_of_2 tx_queues))
  TimelyReach-looping {t} r =
      let h = TimelyReach-IsSafe begin-IsSafe r in
      (
        λ e. let bad : SenderIsSafe crashed t.runflag_set = rw e at h.sender in bad,
        λ idx mask e.
            let safe : SenderIsSafe (looping idx mask) t.runflag_set = rw e at h.sender in
            (safe.1, safe.2),
      )
