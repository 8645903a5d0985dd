-- ===== src/Threads/Shutdown.antt =====
-- The end of the threads after SIGINT.
use uaflow.Prelude.{
  List, [], ◌∷◌, ℕ, zero, suc, ◌+◌, ◌≤◌, ◌<◌, ◌≡◌, ◌⊎◌, inl, inr, refl, Bool, true, arith,
}
use uaflow.Threads.{
  Phase, created, configured, launched, serving, left, Sender, starting, waiting, finished, crashed,
  looping, Threads, enter, run, test, proceed, Step, setconf, handler, start, leave, wait, wake,
  expire, loop, stop, interrupt,
}

-- How many steps a part of the process is from its end.
abbrev phase_left : ℕ → Phase → ℕ
phase_left n created = 4 + n
phase_left n configured = 3 + n
phase_left n launched = 2
phase_left n serving = 1
phase_left n left = 0

abbrev pub sender_left : Sender → ℕ
sender_left starting = 3
sender_left waiting = 2
sender_left (looping _ _) = 1
sender_left finished = 0
sender_left crashed = 0

module _ (is_power_of_2 : ℕ → Bool) (tx_queues nb_workers : ℕ) (tx_idx : List ℕ) where
  -- The steps that the threads of the process have left at most, once the flag is set.
  pub steps_left : Threads → ℕ
  steps_left s = phase_left nb_workers s.phase + sender_left s.sender + s.workers

  -- A step that is no signal.
  unfoldable pub Own : {s t : Threads} → Step is_power_of_2 tx_queues nb_workers tx_idx s t → Type 0
  Own (interrupt _) = ⊥
  Own (setconf _ _) = Unit {0}
  Own (handler _ _) = Unit {0}
  Own (start _ _) = Unit {0}
  Own (leave _ _ _) = Unit {0}
  Own (wait _ _) = Unit {0}
  Own (wake _ _ _) = Unit {0}
  Own (expire _ _) = Unit {0}
  Own (loop _ _ _ _) = Unit {0}
  Own (stop _ _ _ _) = Unit {0}

  pub enter-sender_left : (n : ℕ) → sender_left (enter is_power_of_2 tx_idx n) ≤ 1
  enter-sender_left n = go tx_idx
    where
      go : (tx : List ℕ) → sender_left (enter is_power_of_2 tx n) ≤ 1
      go [] = omega arith
      go (idx ∷ rest) = omega arith

  -- The flag stays set, and each step of a thread brings the end nearer.
  Step-steps_left :
      {s t : Threads} (step : Step is_power_of_2 tx_queues nb_workers tx_idx s t)
      → s.run_flag ≡ true
      → Own step
      → (t.run_flag ≡ true) × (steps_left t < steps_left s)
  unfolding steps_left run test proceed Own
  Step-steps_left (setconf at e) f own = ground arith
  Step-steps_left (handler at e) f own = ground arith
  Step-steps_left (start at e) f own = ground arith
  Step-steps_left (leave at flag e) f own = ground arith
  Step-steps_left (wait at e) f own = ground arith
  Step-steps_left {s} (wake at signal e) f own = ground (arith, enter-sender_left s.tx_queue_num)
  Step-steps_left {s} (expire at e) f own = ground (arith, enter-sender_left s.tx_queue_num)
  Step-steps_left (loop idx mask at e) f own = ground arith
  Step-steps_left (stop k at flag e) f own = ground arith
  Step-steps_left (interrupt e) f own = absurd own

  -- Runs of `n` steps of threads.
  pub data Steps (s : Threads) : ℕ → Threads → Type 0 where
    done : Steps s zero s
    more :
        {n : ℕ} {t u : Threads}
        → Steps s n t
        → (step : Step is_power_of_2 tx_queues nb_workers tx_idx t u) → Own step
        → Steps s (suc n) u

  Steps-steps_left :
      {s t : Threads} {n : ℕ}
      → s.run_flag ≡ true
      → Steps s n t
      → (t.run_flag ≡ true) × (n + steps_left t ≤ steps_left s)
  Steps-steps_left f done = (f, omega arith)
  Steps-steps_left f (more r step own) =
      let (flag, before) = Steps-steps_left f r in
      let (flag', less) = Step-steps_left step flag own in (flag', omega arith)

  -- Once SIGINT has set the flag, the process has only so many steps of its threads left, in
  -- whatever order they come and whatever signals came before.
  pub Steps-le : {s t : Threads} {n : ℕ} → s.run_flag ≡ true → Steps s n t → n ≤ steps_left s
  Steps-le f r = let (_, bound) = Steps-steps_left f r in omega arith

  -- `main` is behind its loop, no worker is in its own, and the sender has ended or has crashed.
  pub record IsOver (s : Threads) : Type 0 where
    pub main : s.phase ≡ left
    pub workers : s.workers ≡ 0
    pub sender : (s.sender ≡ finished) ⊎ (s.sender ≡ crashed)

  -- What a thread can do next.
  abbrev Move : Threads → Type 0
  Move s = (t : Threads) × (step : Step is_power_of_2 tx_queues nb_workers tx_idx s t) × Own step

  main-Move : (s : Threads) → s.run_flag ≡ true → (s.phase ≡ left) ⊎ Move s
  unfolding Own
  main-Move s f = go s.phase refl
    where
      go : (x : Phase) → s.phase ≡ x → (s.phase ≡ left) ⊎ Move s
      go created e =
          inr (record s { phase = configured; tx_queue_num = tx_queues }, setconf e refl, tt)
      go configured e =
          inr (record s { phase = launched; workers = nb_workers }, handler e refl, tt)
      go launched e = inr (run s, start e refl, tt)
      go serving e = inr (record s { phase = left }, leave e f refl, tt)
      go left e = inl e

  worker-Move : (s : Threads) → s.run_flag ≡ true → (s.workers ≡ 0) ⊎ Move s
  unfolding Own
  worker-Move s f = go s.workers refl
    where
      go : (n : ℕ) → s.workers ≡ n → (s.workers ≡ 0) ⊎ Move s
      go zero e = inl e
      go (suc k) e = inr (record s { workers = k }, stop k e f refl, tt)

  sender-Move : (s : Threads) → ((s.sender ≡ finished) ⊎ (s.sender ≡ crashed)) ⊎ Move s
  unfolding Own
  sender-Move s = go s.sender refl
    where
      go : (x : Sender) → s.sender ≡ x → ((s.sender ≡ finished) ⊎ (s.sender ≡ crashed)) ⊎ Move s
      go starting e = inr (record s { sender = waiting }, wait e refl, tt)
      go waiting e = inr (proceed is_power_of_2 tx_queues nb_workers tx_idx s, expire e refl, tt)
      go (looping idx mask) e = inr (test idx mask s, loop idx mask e refl, tt)
      go finished e = inl (inl e)
      go crashed e = inl (inr e)

  IsOver-or : (s : Threads) → s.run_flag ≡ true → IsOver s ⊎ Move s
  IsOver-or s f = elim (main-Move s f) [
    | inr move ↦ inr move
    | inl main ↦ elim (worker-Move s f) [
      | inr move ↦ inr move
      | inl workers ↦ elim (sender-Move s) [
        | inr move ↦ inr move
        | inl sender ↦ inl (record { main = main; workers = workers; sender = sender })
      ]
    ]
  ]

  ends_within :
      (fuel : ℕ) (s t : Threads) (n : ℕ)
      → steps_left t ≤ fuel
      → t.run_flag ≡ true
      → Steps s n t
      → (u : Threads) × (m : ℕ) × Steps s m u × IsOver u
  ends_within zero s t n bound f r = elim (IsOver-or t f) [
    | inl over ↦ (t, n, r, over)
    | inr (u, step, own) ↦ absurd (omega (arith, (Step-steps_left step f own).1))
  ]
  ends_within (suc fuel) s t n bound f r = elim (IsOver-or t f) [
    | inl over ↦ (t, n, r, over)
    | inr (u, step, own) ↦
        let (flag, less) = Step-steps_left step f own in
        ends_within fuel s u (suc n) (omega arith) flag (more r step own)
  ]

  -- Wherever the process is when SIGINT has set the flag, steps of its threads lead to their end:
  -- `main` is behind its loop, no worker is in its own, and the sender has ended or crashed.
  pub Steps-IsOver :
      (s : Threads) → s.run_flag ≡ true → (u : Threads) × (n : ℕ) × Steps s n u × IsOver u
  Steps-IsOver s f = ends_within (steps_left s) s s 0 (omega arith) f done
