-- ===== src/Threads/Early.antt =====
-- The sender's thread where its wait ends before `run`.
use uaflow.Prelude.{
  List, [], ◌∷◌, ℕ, ◌+◌, ◌≤◌, ◌<◌, ◌≡◌, ◌≢◌, refl, Bool, false, arith, ◌⊎◌, inl, inr,
}
use uaflow.Threads.{
  Sender, starting, waiting, finished, crashed, looping, Threads, enter, test, proceed, Step,
  setconf, handler, start, leave, wait, wake, expire, loop, stop, interrupt,
}
use uaflow.Threads.Shutdown.{sender_left, enter-sender_left}

module _ (is_power_of_2 : ℕ → Bool) (tx_queues nb_workers : ℕ) (tx_idx : List ℕ) where
  -- A step that is not `main`'s call of `run`.
  unfoldable pub IsEarly :
      {s t : Threads} → Step is_power_of_2 tx_queues nb_workers tx_idx s t → Type 0
  IsEarly (start _ _) = ⊥
  IsEarly (setconf _ _) = Unit {0}
  IsEarly (handler _ _) = Unit {0}
  IsEarly (leave _ _ _) = Unit {0}
  IsEarly (wait _ _) = Unit {0}
  IsEarly (wake _ _ _) = Unit {0}
  IsEarly (expire _ _) = Unit {0}
  IsEarly (loop _ _ _ _) = Unit {0}
  IsEarly (stop _ _ _ _) = Unit {0}
  IsEarly (interrupt _) = Unit {0}

  -- 1 for a step of the sender, 0 for any other.
  unfoldable pub of_sender :
      {s t : Threads} → Step is_power_of_2 tx_queues nb_workers tx_idx s t → ℕ
  of_sender (wait _ _) = 1
  of_sender (wake _ _ _) = 1
  of_sender (expire _ _) = 1
  of_sender (loop _ _ _ _) = 1
  of_sender (setconf _ _) = 0
  of_sender (handler _ _) = 0
  of_sender (start _ _) = 0
  of_sender (leave _ _ _) = 0
  of_sender (stop _ _ _ _) = 0
  of_sender (interrupt _) = 0

  -- Runs without that call, and the sender's steps in them.
  pub data EarlyReach (s : Threads) : Threads → Type 0 where
    here : EarlyReach s s
    next :
        {t u : Threads}
        → EarlyReach s t
        → (step : Step is_power_of_2 tx_queues nb_workers tx_idx t u) → IsEarly step
        → EarlyReach s u

  unfoldable pub sender_steps : {s t : Threads} → EarlyReach s t → ℕ
  sender_steps here = 0
  sender_steps (next r step early) = sender_steps r + of_sender step

  -- The flag's pointer is still null, and the sender has not found the flag set.
  record IsUnset (s : Threads) : Type 0 where
    flag : s.runflag_set ≡ false
    sender : s.sender ≢ finished

  enter-unfinished : (n : ℕ) → enter is_power_of_2 tx_idx n ≢ finished
  enter-unfinished n = go tx_idx
    where
      go : (tx : List ℕ) → enter is_power_of_2 tx n ≢ finished
      go [] e = cc
      go (idx ∷ rest) e = cc

  Step-IsUnset :
      {s t : Threads} (step : Step is_power_of_2 tx_queues nb_workers tx_idx s t)
      → IsEarly step
      → IsUnset s
      → IsUnset t × (sender_left t.sender + of_sender step ≤ sender_left s.sender)
  unfolding IsEarly of_sender test proceed
  Step-IsUnset (setconf at e) early h = grind (arith, h.flag, h.sender)
  Step-IsUnset (handler at e) early h = grind (arith, h.flag, h.sender)
  Step-IsUnset (start at e) early h = absurd early
  Step-IsUnset (leave at flag e) early h = grind (arith, h.flag, h.sender)
  Step-IsUnset (wait at e) early h = grind (arith, h.flag, h.sender)
  Step-IsUnset {s} (wake at signal e) early h = grind (
    arith,
    h.flag,
    enter-sender_left is_power_of_2 tx_queues nb_workers tx_idx s.tx_queue_num,
    enter-unfinished s.tx_queue_num,
  )
  Step-IsUnset {s} (expire at e) early h = grind (
    arith,
    h.flag,
    enter-sender_left is_power_of_2 tx_queues nb_workers tx_idx s.tx_queue_num,
    enter-unfinished s.tx_queue_num,
  )
  Step-IsUnset {s} (loop idx mask at e) early h = grind (arith, h.flag)
  Step-IsUnset (stop k at flag e) early h = grind (arith, h.flag, h.sender)
  Step-IsUnset (interrupt e) early h = grind (arith, h.flag, h.sender)

  EarlyReach-IsUnset :
      {s t : Threads}
      → IsUnset s
      → (r : EarlyReach s t)
      → IsUnset t × (sender_left t.sender + sender_steps r ≤ sender_left s.sender)
  unfolding sender_steps
  EarlyReach-IsUnset h here = (h, omega arith)
  EarlyReach-IsUnset h (next r step early) =
      let (unset, before) = EarlyReach-IsUnset h r in
      let (unset', less) = Step-IsUnset step early unset in (unset', omega (arith, before, less))

  -- What the sender can do next.
  abbrev pub Turn : Threads → Type 0
  Turn s =
      (t : Threads) × (step : Step is_power_of_2 tx_queues nb_workers tx_idx s t) × IsEarly step
      × (of_sender step ≡ 1)

  unset-Turn :
      (s : Threads) → IsUnset s → (s.sender ≡ crashed) ⊎ ((0 < sender_left s.sender) × Turn s)
  unfolding IsEarly of_sender
  unset-Turn s h = go s.sender refl
    where
      go :
          (x : Sender) → s.sender ≡ x → (s.sender ≡ crashed) ⊎ ((0 < sender_left s.sender) × Turn s)
      go starting e =
          inr (rw e (omega arith), (record s { sender = waiting }, wait e refl, tt, refl))
      go waiting e = inr (
        rw e (omega arith),
        (proceed is_power_of_2 tx_queues nb_workers tx_idx s, expire e refl, tt, refl),
      )
      go finished e = absurd (h.sender e)
      go crashed e = inl e
      go (looping idx mask) e =
          inr (rw e (omega arith), (test idx mask s, loop idx mask e refl, tt, refl))

  -- Where the sender waits and `run` has not set the flag's pointer: as long as `main` does not
  -- call `run`, whatever else the threads do and in whatever order, the sender makes at most two
  -- more steps; and it has crashed on a null pointer, or has made at most one of them and can make
  -- the next, so that it does not come to rest before it crashes.
  pub EarlyReach-crashed :
      {s t : Threads}
      → s.sender ≡ waiting
      → s.runflag_set ≡ false
      → (r : EarlyReach s t)
      → (sender_steps r ≤ 2) × ((t.sender ≡ crashed) ⊎ ((sender_steps r < 2) × Turn t))
  EarlyReach-crashed {s} {t} at unset r =
      let start_unset : IsUnset s = record {
        flag = unset;
        sender = λ e. let bad : waiting ≡ finished = rw at at e in cc;
      } in
      let (still, bound) = EarlyReach-IsUnset start_unset r in
      let two : sender_left s.sender ≡ 2 = rw at refl in
      elim (unset-Turn t still) [
        | inl e ↦ (omega (arith, bound, two), inl e)
        | inr (some_left, turn) ↦
            (omega (arith, bound, two), inr (omega (arith, bound, two, some_left), turn))
      ]
