-- ===== src/Ddos/Alarm.antt =====
-- The packets of one source within one millisecond, against a set of ports.
use uaflow.Prelude.{
  ℕ, ◌+◌, ◌^◌, ◌≤◌, ◌<◌, ◌≡◌, refl, sym, ◌∙◌, ap, inl, inr, Bool, true, false, ◌||◌, some, List, [],
  ◌∷◌, arith, ◌==◌, ==_refl, ==_iff, ne→==, if◌then◌else◌, length, Bool-cases, In,
}
use native.Mathlib.Decide.{ℕ_discrete}
use uaflow.Ddos.Items.{Node}
use uaflow.Ddos.{Limits, Probe, account}
use uaflow.Ddos.Window.{live-still}
use uaflow.Ddos.Account.{Fits, Recorded, live, live-le, current, entered, account_branches}

unfoldable pub has : ℕ → List ℕ → Bool
has port [] = false
has port (p ∷ seen) = p == port || has port seen

-- One packet against the ports of its source: the verdict and the ports afterwards.
unfoldable pub judge : (number : ℕ) → (seen : List ℕ) → (port : ℕ) → Bool × List ℕ
unfolding has
judge number seen port =
    if has port seen
    then (false, seen)
    else if length seen == number
    then (true, [])
    else (false, port ∷ seen)

-- What the detector means to do: to remember the ports of a source, and to raise the alarm, and
-- start anew, at one more than `number` of them.
unfoldable pub counted : (number : ℕ) → (seen ports : List ℕ) → List Bool
unfolding has
counted number seen [] = []
counted number seen (port ∷ ports) =
    let again = counted number seen ports in
    let anew = counted number [] ports in
    let further = counted number (port ∷ seen) ports in
    if has port seen
    then false ∷ again
    else if length seen == number
    then true ∷ anew
    else false ∷ further

pub counted-judge :
    (number port : ℕ) (seen ports : List ℕ) (alarm : Bool) (seen' : List ℕ)
    → judge number seen port ≡ (alarm, seen')
    → counted number seen (port ∷ ports) ≡ alarm ∷ counted number seen' ports
unfolding counted judge
counted-judge number port seen ports alarm seen' e =
    ground (arith, ap (λ (x : Bool × List ℕ). x.0) e, ap (λ (x : Bool × List ℕ). x.1) e)

has-In : (port : ℕ) (seen : List ℕ) → has port seen ≡ true → In port seen
unfolding has
has-In port [] h = cc
has-In port (p ∷ seen) h = elim (Bool-cases (p == port)) [
  | inl e ↦ inl (sym ((==_iff p port).0 e))
  | inr e ↦ inr (has-In port seen (rw e at h))
]

In-has : (port : ℕ) (seen : List ℕ) → In port seen → has port seen ≡ true
unfolding has
In-has port [] h = absurd h
In-has port (p ∷ seen) (inl e) = rw (e, ==_refl p) refl
In-has port (p ∷ seen) (inr h) = elim (Bool-cases (p == port)) [
  | inl e ↦ rw e refl
  | inr e ↦ rw e (In-has port seen h)
]

pub has_absent : (q : ℕ) (seen : List ℕ) → ¬ (In q seen) → has q seen ≡ false
has_absent q seen h = elim (Bool-cases (has q seen)) [
  | inl e ↦ absurd (h (has-In q seen e))
  | inr e ↦ e
]

module _ (l : Limits) (addr now : ℕ) where
  abbrev pub probe : ℕ → Probe
  probe port = record { addr = addr; port = port }

  -- The item holds these ports, and no others, in the array up to its count.
  pub record Remembers (n : Node) (seen : List ℕ) : Type 0 where
    pub count : n.n_packets ≡ length seen
    pub time : n.modtime ≡ now
    pub known : (port : ℕ) → In port seen → Recorded (probe port) n.entry 0 (length seen)
    pub only : (port : ℕ) → Recorded (probe port) n.entry 0 (length seen) → In port seen

  -- The ports that still count at this time.
  pub record Counts (n : Node) (seen : List ℕ) : Type 0 where
    pub alive : live l now n ≡ length seen
    pub known : (port : ℕ) → In port seen → Recorded (probe port) n.entry 0 (length seen)
    pub only : (port : ℕ) → Recorded (probe port) n.entry 0 (length seen) → In port seen

  pub Remembers-Counts :
      (n : Node) (seen : List ℕ) → now < 2 ^ 32 → Remembers n seen → Counts n seen
  Remembers-Counts n seen small r =
      let still = live-still l n (omega (arith, r.time)) in
      record {
        alive = ap (λ t. live l t n) (sym r.time) ∙ still ∙ r.count;
        known = r.known;
        only = r.only;
      }

  module _ (n : Node) (seen : List ℕ) (r : Counts n seen) where
    live-count : live l now n ≡ length seen
    live-count = r.alive

    current-Remembers : (port : ℕ) → Remembers (current l (probe port) now now n) seen
    current-Remembers port = record {
      count = live-count;
      time = refl;
      known = r.known;
      only = r.only;
    }

    entered-Remembers :
        (port : ℕ) → Remembers (entered l (probe port) now now n (live l now n + 1)) (port ∷ seen)
    entered-Remembers port = record {
      count = omega (arith, live-count);
      time = refl;
      known = λ q there. elim there [
        | inl e ↦ (
          length seen,
          omega arith,
          omega arith,
          rw (live-count, ==_refl (length seen)) (sym e),
          rw (live-count, ==_refl (length seen)) refl,
        )
        | inr old ↦
            let (j, low, high, at_port, at_addr) = r.known q old in
            (
              j,
              low,
              omega arith,
              rw (live-count, ne→== (length seen) j (λ e. absurd (omega arith))) at_port,
              rw (live-count, ne→== (length seen) j (λ e. absurd (omega arith))) at_addr,
            )
      ];
      only = λ q (j, low, high, at_port, at_addr). elim (ℕ_discrete (length seen) j) [
        | yes e ↦ let same : port ≡ q = rw (live-count, e, ==_refl j) at at_port in inl (sym same)
        | no ne ↦
            let old_port : (n.entry j).port ≡ q =
              rw (live-count, ne→== (length seen) j ne) at at_port in
            let old_addr : (n.entry j).addr ≡ addr =
              rw (live-count, ne→== (length seen) j ne) at at_addr in
            inr (r.only q (j, low, omega arith, old_port, old_addr))
      ];
    }

    reset-Remembers : (port : ℕ) → Remembers (entered l (probe port) now now n 0) []
    reset-Remembers port = record {
      count = refl;
      time = refl;
      known = λ q there. absurd there;
      only = λ q (j, low, high, at_port, at_addr). absurd (omega arith);
    }

    -- One packet: the bookkeeping says what the set of ports says.
    pub record Step (port : ℕ) : Type 0 where
      pub after : Node
      pub alarm : Bool
      pub seen' : List ℕ
      pub run : account l (probe port) now now n ≡ some (after, alarm)
      pub addr' : after.addr ≡ n.addr
      pub remembers : Remembers after seen'
      pub bounded : length seen' ≤ l.number
      pub judged : judge l.number seen port ≡ (alarm, seen')

    pub account-Step : (port : ℕ) → Fits l n → Step port
    unfolding judge
    account-Step port fits =
        let bound : length seen ≤ l.number = omega (arith, live-count, live-le l now n, fits.0) in
        let same = live-count in
        let unseen = λ (no_entry : ¬ (Recorded (probe port) n.entry 0 (live l now n))).
          has_absent port seen (λ there. no_entry (rw (← same) at r.known port there)) in
        elim (account_branches l (probe port) now now n fits) [
          | inl (entry, run) ↦
              let there = r.only port (rw same at entry) in
              record {
                after = current l (probe port) now now n;
                alarm = false;
                seen' = seen;
                run = run;
                addr' = refl;
                remembers = current-Remembers port;
                bounded = bound;
                judged = rw (In-has port seen there) refl;
              }
          | inr (inl (no_entry, below, run)) ↦ record {
            after = entered l (probe port) now now n (live l now n + 1);
            alarm = false;
            seen' = port ∷ seen;
            run = run;
            addr' = refl;
            remembers = entered-Remembers port;
            bounded = omega (arith, same);
            judged =
                rw
                  (
                    unseen no_entry,
                    ne→== (length seen) l.number (λ e. absurd (omega (arith, same))),
                  )
                  refl;
          }
          | inr (inr (no_entry, at, run)) ↦ record {
            after = entered l (probe port) now now n 0;
            alarm = true;
            seen' = [];
            run = run;
            addr' = refl;
            remembers = reset-Remembers port;
            bounded = omega arith;
            judged =
                rw (unseen no_entry, (==_iff (length seen) l.number).1 (omega (arith, same))) refl;
          }
        ]
