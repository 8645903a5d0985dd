-- ===== src/Ddos/Moved.antt =====
-- The packets of a known source between which the clock moves, through the whole detector.
use uaflow.Prelude.{
  ℕ, ◌+◌, ◌*◌, ◌%◌, ◌^◌, ◌≤◌, ◌<◌, ◌≡◌, refl, sym, ◌∙◌, ap, inl, inr, Bool, false, List, [], ◌∷◌,
  arith, ==_refl, length, some,
}
use uaflow.Ddos.Items.{Ptr, Node, Memory, Run, ok, ◌>>=◌, update, return}
use uaflow.Ddos.{Limits, Probe, Call, account, everynode_entry_max_sz}
use uaflow.Ddos.Window.{live-moved}
use uaflow.Ddos.Account.{Fits, live, entered, account_branches}
use uaflow.Ddos.Burst.{detector, of_both, FirstAt-addr, FirstAt-update}
use uaflow.Ddos.Detect.{known-run}
use uaflow.Ddos.Ring.{IsBucket}
use uaflow.Ddos.Scan.{FirstAt}
use uaflow.Ddos.Table.Frame.{IsBucket-same}

-- A packet of a source: the milliseconds since the one before it, and its port.
pub record Paced : Type 0 where
  pub after : ℕ
  pub port : ℕ

-- The time of a packet on the clock's 32 bits.
abbrev pub moved : (now : ℕ) → Paced → ℕ
moved now q = (now + q.after) % 2 ^ 32

-- The call for a packet: both reads of the clock give its time.
abbrev pub at_time : Call → ℕ → Call
at_time c now = record c { clock = λ t. now }

-- The verdicts on packets of the source `addr`, one after the other, from the time `now` on.
unfoldable pub pace :
    (is_v6 : Bool) (fuel : ℕ) → Call → (addr now : ℕ) → List Paced → Memory → Run (List Bool)
pace is_v6 fuel c addr now [] = return []
pace is_v6 fuel c addr now (q ∷ qs) = do
  alarm ← detector is_v6 fuel (at_time c (moved now q)) (record { addr = addr; port = q.port })
  alarms ← pace is_v6 fuel c addr (moved now q) qs
  return (alarm ∷ alarms)

-- Each packet comes later than the one before it, and not so much later that the product of the
-- milliseconds with 1000 comes near 2 ^ 32.
abbrev pub Moves : Limits → List Paced → Type 0
Moves l [] = Unit
Moves l (q ∷ qs) = (0 < q.after) × (q.after * 1000 + l.millisecond < 2 ^ 32) × Moves l qs

abbrev pub silent : List Paced → List Bool
silent [] = []
silent (q ∷ qs) = false ∷ silent qs

-- Once the clock has moved the port is the item's only one.
account-moved :
    (l : Limits) (p : Probe) (old d later : ℕ) (n : Node)
    → n.modtime ≡ old
    → old < 2 ^ 32
    → 0 < d
    → d * 1000 + l.millisecond < 2 ^ 32
    → 0 < l.number
    → Fits l n
    → account l p ((old + d) % 2 ^ 32) later n
      ≡ some (entered l p ((old + d) % 2 ^ 32) later n 1, false)
account-moved l p old d later n time small moves window limit fits =
    let now = (old + d) % 2 ^ 32 in
    let none_live : live l now n ≡ 0 =
      ap (λ k. live l ((k + d) % 2 ^ 32) n) (sym time)
      ∙ live-moved l n d (omega (arith, time)) moves window in
    elim (account_branches l p now later n fits) [
      | inl ((j, low, high, _, _), _) ↦ absurd (omega arith)
      | inr (inl (_, below, run)) ↦
          run ∙ ap (λ k. some (entered l p now later n (k + 1), false)) none_live
      | inr (inr (_, at, run)) ↦ absurd (omega arith)
    ]

module _ (is_v6 : Bool) (fuel : ℕ) (c : Call) (addr : ℕ) (item : Ptr) (xs : List Ptr)
    (enough : length xs < fuel) (limit : 0 < c.limits.number)
    (room : c.limits.number < everynode_entry_max_sz) where
  detector-moved :
      (now : ℕ) (q : Paced) (m : Memory)
      → IsBucket m c.head xs
      → FirstAt m.node addr item xs
      → (m.node item).n_packets ≤ c.limits.number
      → (m.node item).modtime ≡ now
      → now < 2 ^ 32
      → 0 < q.after
      → q.after * 1000 + c.limits.millisecond < 2 ^ 32
      → detector is_v6 fuel (at_time c (moved now q)) (record { addr = addr; port = q.port }) m
        ≡ ok false (record m {
          node = update m.node item (
              entered c.limits
                (record { addr = addr; port = q.port })
                (moved now q)
                (moved now q)
                (m.node item)
                1);
        })
  detector-moved now q m bucket first count time small moves window =
      let p : Probe = record { addr = addr; port = q.port } in
      let call = at_time c (moved now q) in
      let run =
        account-moved c.limits p now q.after (moved now q) (m.node item) time small moves window
          limit (count, room) in
      let n = entered c.limits p (moved now q) (moved now q) (m.node item) 1 in
      let after = ok false (record m { node = update m.node item n }) in
      of_both (λ r. r ≡ after) is_v6 fuel call p m
        (known-run fuel call p m xs bucket enough item first run)

  -- On a bucket that is a circular list, with more rounds than it has items and a limit above 0 and
  -- below the length of the array of entries: a source that the bucket holds, and whose count fits,
  -- is never reported by either detector, whatever ports it goes through and however many, where
  -- the clock has moved between any two of its packets (by less than 2 ^ 32 / 1000 milliseconds,
  -- the configured time taken off).
  pub pace-silent :
      (qs : List Paced) (now : ℕ) (m : Memory)
      → IsBucket m c.head xs
      → FirstAt m.node addr item xs
      → (m.node item).n_packets ≤ c.limits.number
      → (m.node item).modtime ≡ now
      → now < 2 ^ 32
      → Moves c.limits qs
      → (m' : Memory) × (pace is_v6 fuel c addr now qs m ≡ ok (silent qs) m')
  unfolding pace
  pace-silent [] now m bucket first count time small moves = (m, refl)
  pace-silent (q ∷ qs) now m bucket first count time small (later, window, moves) =
      let run = detector-moved now q m bucket first count time small later window in
      let p : Probe = record { addr = addr; port = q.port } in
      let n = entered c.limits p (moved now q) (moved now q) (m.node item) 1 in
      let m1 = record m { node = update m.node item n } in
      let kept : IsBucket m1 c.head xs = IsBucket-same c.head xs (λ _ _. refl) refl bucket in
      let still = FirstAt-addr m.node addr item xs first in
      let first1 = FirstAt-update m.node addr item n xs still first in
      let (m', rest) =
        pace-silent qs (moved now q) m1 kept first1 (rw (==_refl item) (omega arith))
          (rw (==_refl item) refl) (omega arith) moves in
      (m', rw (run, rest) refl)
