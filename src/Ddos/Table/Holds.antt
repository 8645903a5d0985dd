-- ===== src/Ddos/Table/Holds.antt =====
-- A bucket's items against the sources of `Ddos.Table.Sources`.
use uaflow.Prelude.{
  ℕ, ◌+◌, ◌≡◌, refl, sym, ◌∙◌, ◌≢◌, ◌⊎◌, ap, inl, inr, Bool, true, false, none, some, List, [], ◌∷◌,
  ◌++◌, arith, ==_iff, ne→==, ltb, length, In, Bool-cases,
}
use uaflow.Ddos.{Limits, elapsed, account}
use uaflow.Ddos.Account.{Fits, live}
use uaflow.Ddos.Alarm.{probe, Remembers, Counts, account-Step}
use uaflow.Ddos.Items.{Ptr, Node, update}
use uaflow.Ddos.Ring.{NotIn, Distinct}
use uaflow.Ddos.Scan.{search_items, Unknown, FirstAt}
use uaflow.Ddos.Table.Packet.{FirstAt-In}
use uaflow.Ddos.Table.Sources.{Source, still_open, heard, before_oldest}

NotIn-ne : (p q : Ptr) (xs : List Ptr) → NotIn p xs → In q xs → p ≢ q
NotIn-ne p q [] out there = absurd there
NotIn-ne p q (x ∷ xs) out (inl e) = λ o. out.0 (o ∙ e)
NotIn-ne p q (x ∷ xs) out (inr there) = NotIn-ne p q xs out.1 there

module _ (l : Limits) where
  -- The item holds what is kept of the source.
  pub record IsSource (n : Node) (s : Source) : Type 0 where
    pub addr : n.addr ≡ s.addr
    pub remembers : Remembers l s.addr s.time n s.ports

  -- The items hold the sources, one by one.
  abbrev pub Holds : (ℕ → Node) → List Ptr → List Source → Type 0
  Holds node [] [] = Unit
  Holds node [] (s ∷ ss) = ⊥
  Holds node (x ∷ xs) [] = ⊥
  Holds node (x ∷ xs) (s ∷ ss) = IsSource (node x) s × Holds node xs ss

  pub Holds-length :
      (node : ℕ → Node) (xs : List Ptr) (ss : List Source)
      → Holds node xs ss
      → length ss ≡ length xs
  Holds-length node [] [] h = refl
  Holds-length node [] (s ∷ ss) h = absurd h
  Holds-length node (x ∷ xs) [] h = absurd h
  Holds-length node (x ∷ xs) (s ∷ ss) h =
      let rest = Holds-length node xs ss h.1 in omega (arith, rest)

  pub Holds-same :
      (node node' : ℕ → Node) (xs : List Ptr) (ss : List Source)
      → ((x : Ptr) → In x xs → node' x ≡ node x)
      → Holds node xs ss
      → Holds node' xs ss
  Holds-same node node' [] [] same h = tt
  Holds-same node node' [] (s ∷ ss) same h = h
  Holds-same node node' (x ∷ xs) [] same h = h
  Holds-same node node' (x ∷ xs) (s ∷ ss) same h =
      (rw (same x (inl refl)) h.0, Holds-same node node' xs ss (λ y there. same y (inr there)) h.1)

  pub Holds-append :
      (node : ℕ → Node) (xs : List Ptr) (ss : List Source) (item : Ptr) (s : Source)
      → Holds node xs ss
      → IsSource (node item) s
      → Holds node (xs ++ item ∷ []) (ss ++ s ∷ [])
  Holds-append node [] [] item s h last = (last, tt)
  Holds-append node [] (r ∷ ss) item s h last = absurd h
  Holds-append node (x ∷ xs) [] item s h last = absurd h
  Holds-append node (x ∷ xs) (r ∷ ss) item s h last = (h.0, Holds-append node xs ss item s h.1 last)

  -- What still counts of an item is what is still open of its source.
  still_open-Counts :
      (n : Node) (s : Source) (now : ℕ) → IsSource n s → Counts l s.addr now n (still_open l now s)
  unfolding still_open live
  still_open-Counts n s now h =
      let r = h.remembers in
      elim (Bool-cases (ltb l.millisecond (elapsed s.time now))) [
        | inl e ↦ rw e record {
          alive = rw (r.time, e) refl;
          known = λ q there. absurd there;
          only = λ q (j, low, high, _, _). absurd (omega arith);
        }
        | inr e ↦ rw e record { alive = rw (r.time, e) r.count; known = r.known; only = r.only }
      ]

  pub heard-Unknown :
      (addr port now : ℕ) (node : ℕ → Node) (xs : List Ptr) (ss : List Source)
      → Holds node xs ss
      → Unknown node addr xs
      → heard l addr port now ss ≡ none
  unfolding heard
  heard-Unknown addr port now node [] [] h u = refl
  heard-Unknown addr port now node [] (s ∷ ss) h u = absurd h
  heard-Unknown addr port now node (x ∷ xs) [] h u = absurd h
  heard-Unknown addr port now node (x ∷ xs) (s ∷ ss) h u =
      let rest = heard-Unknown addr port now node xs ss h.1 u.1 in
      rw (ne→== s.addr addr (λ e. u.0 (h.0.addr ∙ e)), rest) refl

  -- What a packet of the bucket's source `item` comes to, on both sides.
  pub record Answers (addr port now : ℕ) (node : ℕ → Node) (xs : List Ptr) (ss : List Source)
      (item : Ptr) : Type 0 where
    pub after : Node
    pub alarm : Bool
    pub rest : List Source
    pub run : account l (probe l addr now port) now now (node item) ≡ some (after, alarm)
    pub heard_so : heard l addr port now ss ≡ some (alarm, rest)
    pub holds : Holds (update node item after) xs rest

  pub heard-FirstAt :
      (addr port now : ℕ) (node : ℕ → Node) (xs : List Ptr) (ss : List Source) (item : Ptr)
      → Holds node xs ss
      → Distinct xs
      → FirstAt node addr item xs
      → Fits l (node item)
      → Answers addr port now node xs ss item
  unfolding heard
  heard-FirstAt addr port now node [] ss item h d f fits = absurd f
  heard-FirstAt addr port now node (x ∷ xs) [] item h d f fits = absurd h
  heard-FirstAt addr port now node (x ∷ xs) (s ∷ ss) item h d (inl (here, same)) fits =
      let e : s.addr ≡ addr = sym h.0.addr ∙ same in
      let counts = still_open-Counts (node x) s now h.0 in
      let step =
        account-Step l s.addr now (node x) (still_open l now s) counts port (rw (← here) at fits) in
      record {
        after = step.after;
        alarm = step.alarm;
        rest = record { addr = s.addr; time = now; ports = step.seen' } ∷ ss;
        run = rw (← here, ← e) step.run;
        heard_so = rw ((==_iff s.addr addr).1 e, step.judged) refl;
        holds = (
          rw ((==_iff item x).1 (sym here))
              (record { addr = step.addr' ∙ h.0.addr; remembers = step.remembers }),
          Holds-same node (update node item step.after) xs ss
              (λ y there. rw (ne→== item y (λ o. NotIn-ne x y xs d.0 there (here ∙ o))) refl) h.1,
        );
      }
  heard-FirstAt addr port now node (x ∷ xs) (s ∷ ss) item h d (inr (other, f)) fits =
      let r = heard-FirstAt addr port now node xs ss item h.1 d.1 f fits in
      record {
        after = r.after;
        alarm = r.alarm;
        rest = s ∷ r.rest;
        run = r.run;
        heard_so = rw (ne→== s.addr addr (λ e. other (h.0.addr ∙ e)), r.heard_so) refl;
        holds = (
          rw (ne→== item x (λ o. NotIn-ne x item xs d.0 (FirstAt-In node addr item xs f) (sym o)))
              h.0,
          r.holds,
        );
      }

  -- The loop's oldest item is the one behind those in front of the oldest source.
  pub record Fronts (node : ℕ → Node) (xs : List Ptr) (front : List Source) (item : Ptr)
      : Type 0 where
    pub before : List Ptr
    pub back : List Ptr
    pub place : xs ≡ before ++ item ∷ back
    pub holds : Holds node before front

  pub before_oldest-search_items :
      (addr : ℕ) (node : ℕ → Node) (xs : List Ptr) (ss : List Source) (mtime cnt : ℕ) (old : Ptr)
      → Holds node xs ss
      → Unknown node addr xs
      → ((before_oldest mtime ss ≡ none) × ((search_items node addr xs mtime cnt old).old ≡ old))
        ⊎ ((front : List Source) × (item : Ptr) × (before_oldest mtime ss ≡ some front)
            × ((search_items node addr xs mtime cnt old).old ≡ item)
            × Fronts node xs front item)
  unfolding before_oldest search_items
  before_oldest-search_items addr node [] [] mtime cnt old h u = inl (refl, refl)
  before_oldest-search_items addr node [] (s ∷ ss) mtime cnt old h u = absurd h
  before_oldest-search_items addr node (x ∷ xs) [] mtime cnt old h u = absurd h
  before_oldest-search_items addr node (x ∷ xs) (s ∷ ss) mtime cnt old h u =
      let other = ne→== (node x).addr addr u.0 in
      let time : s.time ≡ (node x).modtime = sym h.0.remembers.time in
      elim (Bool-cases (ltb s.time mtime)) [
        | inl e ↦
            let older : ltb (node x).modtime mtime ≡ true = rw (← time) e in
            elim (before_oldest-search_items addr node xs ss s.time (cnt + 1) x h.1 u.1) [
              | inl (gone, same) ↦ inr (
                [],
                x,
                rw (e, gone, e) refl,
                rw (other, older, ← time) same,
                record { before = []; back = xs; place = refl; holds = tt },
              )
              | inr (front, item, some_front, same, f) ↦ inr (
                s ∷ front,
                item,
                rw (e, some_front) refl,
                rw (other, older, ← time) same,
                record {
                  before = x ∷ f.before;
                  back = f.back;
                  place = ap (λ ys. x ∷ ys) f.place;
                  holds = (h.0, f.holds);
                },
              )
            ]
        | inr e ↦
            let older : ltb (node x).modtime mtime ≡ false = rw (← time) e in
            elim (before_oldest-search_items addr node xs ss mtime (cnt + 1) old h.1 u.1) [
              | inl (gone, same) ↦ inl (rw (e, gone, e) refl, rw (other, older) same)
              | inr (front, item, some_front, same, f) ↦ inr (
                s ∷ front,
                item,
                rw (e, some_front) refl,
                rw (other, older) same,
                record {
                  before = x ∷ f.before;
                  back = f.back;
                  place = ap (λ ys. x ∷ ys) f.place;
                  holds = (h.0, f.holds);
                },
              )
            ]
      ]
