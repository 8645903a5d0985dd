-- ===== src/Ddos/Burst.antt =====
-- The packets of a known source within one millisecond, through the whole detector.
use native.Mathlib.Decide.{ℕ_discrete}
use uaflow.Prelude.{
  ℕ, ◌^◌, ◌≤◌, ◌<◌, ◌≡◌, refl, sym, ◌∙◌, ap, inl, inr, Bool, true, false, List, [], ◌∷◌, arith,
  ==_refl, ne→==, length, some,
}
use mathlib.Core.Option.{some-injective}
use uaflow.Ddos.Items.{Ptr, Node, Memory, Run, ok, ◌>>=◌, update, return}
use uaflow.Ddos.{Probe, Call, v4detect, v6detect, account, everynode_entry_max_sz}
use uaflow.Ddos.Account.{Fits}
use uaflow.Ddos.Alarm.{
  counted, counted-judge, Remembers, Remembers-Counts, Counts, Step, account-Step,
}
use uaflow.Ddos.Ring.{IsBucket}
use uaflow.Ddos.Scan.{FirstAt}
use uaflow.Ddos.Detect.{detect-known}
use uaflow.Ddos.Table.Frame.{IsBucket-same}

-- The detector of either table.
abbrev pub detector : (is_v6 : Bool) → ℕ → Call → Probe → Memory → Run Bool
detector true = v6detect
detector false = v4detect

-- What holds of both detectors holds of the one of the table.
pub of_both :
    (P : Run Bool → Type 0) (is_v6 : Bool) (fuel : ℕ) (c : Call) (p : Probe) (m : Memory)
    → P (v4detect fuel c p m) × P (v6detect fuel c p m)
    → P (detector is_v6 fuel c p m)
of_both P true fuel c p m both = both.1
of_both P false fuel c p m both = both.0

-- The verdicts on packets of the source `addr` to these ports.
unfoldable pub burst :
    (is_v6 : Bool) (fuel : ℕ) → Call → (addr : ℕ) → List ℕ → Memory → Run (List Bool)
burst is_v6 fuel c addr [] = return []
burst is_v6 fuel c addr (port ∷ ports) = do
  alarm ← detector is_v6 fuel c (record { addr = addr; port = port })
  alarms ← burst is_v6 fuel c addr ports
  return (alarm ∷ alarms)

pub FirstAt-addr :
    (node : ℕ → Node) (addr : ℕ) (p : Ptr) (xs : List Ptr)
    → FirstAt node addr p xs
    → (node p).addr ≡ addr
FirstAt-addr node addr p [] f = absurd f
FirstAt-addr node addr p (x ∷ xs) (inl (here, same)) = rw here at same
FirstAt-addr node addr p (x ∷ xs) (inr (_, f)) = FirstAt-addr node addr p xs f

pub FirstAt-update :
    (node : ℕ → Node) (addr : ℕ) (p : Ptr) (n : Node) (xs : List Ptr)
    → n.addr ≡ addr
    → FirstAt node addr p xs
    → FirstAt (update node p n) addr p xs
FirstAt-update node addr p n [] same f = f
FirstAt-update node addr p n (x ∷ xs) same (inl (here, _)) = inl (here, rw (here, ==_refl p) same)
FirstAt-update node addr p n (x ∷ xs) same (inr (other, f)) = elim (ℕ_discrete p x) [
  | yes e ↦ absurd (other (ap (λ q. (node q).addr) (sym e) ∙ FirstAt-addr node addr p xs f))
  | no ne ↦ inr (rw (ne→== p x ne) other, FirstAt-update node addr p n xs same f)
]

module _ (is_v6 : Bool) (fuel : ℕ) (c : Call) (addr now : ℕ) (item : Ptr) (xs : List Ptr)
    (enough : length xs < fuel) (still : (t : ℕ) → c.clock t ≡ now) (small : now < 2 ^ 32)
    (room : c.limits.number < everynode_entry_max_sz) where
  -- One packet of the source.
  detector-Step :
      (port : ℕ) (m : Memory) (seen : List ℕ)
      → IsBucket m c.head xs
      → FirstAt m.node addr item xs
      → (r : Counts c.limits addr now (m.node item) seen) → Fits c.limits (m.node item)
      → (step : Step c.limits addr now (m.node item) seen r port)
      → detector is_v6 fuel c (record { addr = addr; port = port }) m
        ≡ ok step.alarm (record m { node = update m.node item step.after })
  detector-Step port m seen bucket first r fits step =
      let p : Probe = record { addr = addr; port = port } in
      let (n', alarm, run, r4, r6) = detect-known fuel c p m xs bucket enough item first fits in
      let timed : account c.limits p now now (m.node item) ≡ some (n', alarm) =
        rw (still 0, still 1) at run in
      let same : (n', alarm) ≡ (step.after, step.alarm) =
        some-injective (n', alarm) (step.after, step.alarm) (sym timed ∙ step.run) in
      let ends =
        ap (λ (x : Node × Bool). ok x.1 (record m { node = update m.node item x.0 })) same in
      let after = ok alarm (record m { node = update m.node item n' }) in
      of_both (λ r. r ≡ after) is_v6 fuel c p m (r4, r6) ∙ ends

  -- On a bucket that is a circular list, with more rounds than it has items, a limit below the
  -- length of the array of entries and a clock that stands still: for the packets of a source
  -- whose item remembers the ports `seen`, the verdicts of both detectors are those of the set of
  -- ports: a port that is new to it is remembered, and the alarm is raised, and the set emptied,
  -- exactly at one port more than the limit.
  pub burst-counted :
      (ports : List ℕ) (m : Memory) (seen : List ℕ)
      → IsBucket m c.head xs
      → FirstAt m.node addr item xs
      → Remembers c.limits addr now (m.node item) seen
      → length seen ≤ c.limits.number
      → (m' : Memory) × (burst is_v6 fuel c addr ports m
          ≡ ok (counted c.limits.number seen ports) m')
  unfolding burst counted
  burst-counted [] m seen bucket first r bound = (m, refl)
  burst-counted (port ∷ ports) m seen bucket first r bound =
      let fits : Fits c.limits (m.node item) = (omega (arith, r.count), room) in
      let counts = Remembers-Counts c.limits addr now (m.node item) seen small r in
      let step = account-Step c.limits addr now (m.node item) seen counts port fits in
      let m1 = record m { node = update m.node item step.after } in
      let run = detector-Step port m seen bucket first counts fits step in
      let kept : IsBucket m1 c.head xs = IsBucket-same c.head xs (λ _ _. refl) refl bucket in
      let same = step.addr' ∙ FirstAt-addr m.node addr item xs first in
      let later = FirstAt-update m.node addr item step.after xs same first in
      let remembers : Remembers c.limits addr now (m1.node item) step.seen' =
        rw (==_refl item) step.remembers in
      let (m', rest) = burst-counted ports m1 step.seen' kept later remembers step.bounded in
      let says = counted-judge c.limits.number port seen ports step.alarm step.seen' step.judged in
      (m', rw (run, rest, says) refl)
