-- ===== src/Ddos/Table/Kinds.antt =====
-- A packet of a known source, one that meets an empty pool, and one for which there is room.
use mathlib.Core.Option.{some-injective}
use native.Mathlib.Decide.{ℕ_discrete}
use uaflow.Prelude.{
  ap, ℕ, ◌≡◌, refl, sym, ◌∙◌, ◌≢◌, inl, Bool, none, some, List, [], ◌∷◌, ◌++◌, ==_refl, ne→==, ◌==◌,
  In, In-append_cases, length, ◌<◌, ◌+◌, arith, false,
}
use uaflow.Ddos.{Call, Found, full, mtime_max, account}
use uaflow.Ddos.Detect.{detect-known, detect-exhausted, detect-new, FirstAt-ne_null}
use uaflow.Ddos.Items.{Ptr, null, Node, Memory, ok, update}
use uaflow.Ddos.Scan.{search_items, Unknown, FirstAt, search_items-Unknown, search_items-FirstAt}
use uaflow.Ddos.Table.{Static, Arrival, IsHead, enough, bucket_of, call}
use uaflow.Ddos.Table.Frame.{NotIn-In}
use uaflow.Ddos.Table.Holds.{Holds, Holds-length, heard-Unknown, heard-FirstAt}
use uaflow.Ddos.Table.Outcome.{Meets, Outcome, Joined-Outcome, detect_of_both}
use uaflow.Ddos.Table.Packet.{FirstAt-In}
use uaflow.Ddos.Table.Served.{bucket_of-IsHead}
use uaflow.Ddos.Table.Sources.{Source, Sources, heard}
use uaflow.Ddos.Table.Turns.{turn-heard, turn-dry, turn-new}

module _ {head : (is_v6 : Bool) → (coreid slot : ℕ) → Ptr}
    {jhash : (is_v6 : Bool) → (addr initval : ℕ) → ℕ} {s : Static} {m : Memory}
    {items : Ptr → List Ptr} {w : Sources} {a : Arrival} (k : Meets head jhash s m items w a) where
  abbrev h : Ptr
  h = bucket_of head jhash s a

  abbrev c : Call
  c = call head jhash s a

  abbrev ss : List Source
  ss = w.bucket h

  abbrev now : ℕ
  now = a.clock 0

  pub at_head : IsHead head h
  at_head = bucket_of-IsHead head jhash s a k.timely.core

  pub holds : Holds s.limits m.node (items h) ss
  holds = k.rep.holds h at_head

  pub short : length (items h) < enough
  short = omega (arith, k.rep.table.bounded h at_head)

  pub same_length : length ss ≡ length (items h)
  same_length = Holds-length s.limits m.node (items h) ss holds

  abbrev found : Found
  found = search_items m.node a.probe.addr (items h) mtime_max 0 null

  -- What is unchanged but for a bucket that keeps its items.
  update_own : (g : Ptr) → items g ≡ update items h (items h) g
  update_own g = elim (ℕ_discrete h g) [
    | yes e ↦ rw (e, ==_refl g) refl
    | no ne ↦ rw (ne→== h g ne) refl
  ]

  pub known-Outcome :
      (item : Ptr) → FirstAt m.node a.probe.addr item (items h) → Outcome head jhash s m items w a
  known-Outcome item f =
      let bucket = k.rep.table.bucket h at_head in
      let there = FirstAt-In m.node a.probe.addr item (items h) f in
      let fits = k.rep.table.fits h item at_head there in
      let r =
        heard-FirstAt s.limits a.probe.addr a.probe.port now m.node (items h) ss item holds
          bucket.distinct f fits in
      let (n, alarm, run, r4, r6) =
        detect-known enough c a.probe m (items h) bucket short item f fits in
      let timed : account s.limits a.probe now now (m.node item) ≡ some (n, alarm) =
        rw (k.timely.still 1) at run in
      let same : (n, alarm) ≡ (r.after, r.alarm) =
        some-injective (n, alarm) (r.after, r.alarm) (sym timed ∙ r.run) in
      let returned =
        detect_of_both head jhash s (λ r. r ≡ ok alarm (record m { node = update m.node item n })) a
          m (r4, r6) in
      let (turned, took) =
        turn-heard s.limits a.probe.addr a.probe.port now a.fresh ss r.alarm r.rest r.heard_so in
      let missed = search_items-FirstAt m.node a.probe.addr item (items h) mtime_max 0 null f in
      let ne = FirstAt-ne_null m.node a.probe.addr m.next h h item (items h) f bucket.forward in
      record {
        next = record m { node = update m.node item r.after };
        alarm = r.alarm;
        list = items h;
        rest = r.rest;
        used = [];
        run =
            returned
            ∙ ap (λ (x : Node × Bool). ok x.1 (record m { node = update m.node item x.0 })) same;
        turned = turned;
        took = took;
        grows = λ g. rw (missed, ne→== item null ne) (update_own g);
        holds = r.holds;
        same = λ g to apart x inside.
            rw
              (ne→== item x
                (λ e. apart (k.rep.table.apart h g item at_head to there (rw e inside))))
              refl;
        from = λ x inside. inl inside;
      }

  module _ (unknown : Unknown m.node a.probe.addr (items h)) where
    pub unheard : heard s.limits a.probe.addr a.probe.port now ss ≡ none
    unheard = heard-Unknown s.limits a.probe.addr a.probe.port now m.node (items h) ss holds unknown

    pub missing : (found.item ≡ null) × (found.cnt ≡ 0 + length (items h))
    missing = search_items-Unknown m.node a.probe.addr (items h) mtime_max 0 null unknown

    not_full : length (items h) ≢ full → (found.cnt == full) ≡ false
    not_full less = ne→== found.cnt full (λ e. less (omega (arith, missing.1)))

    pub dry-Outcome : length (items h) ≢ full → a.fresh ≡ none → Outcome head jhash s m items w a
    dry-Outcome less dry =
        let (turned, took) =
          turn-dry s.limits a.probe.addr a.probe.port now a.fresh ss unheard
            (λ e. less (omega (arith, same_length))) dry in
        record {
          next = m;
          alarm = false;
          list = items h;
          rest = ss;
          used = [];
          run =
              detect_of_both head jhash s (λ r. r ≡ ok false m) a m
                (detect-exhausted enough c a.probe m (items h) (k.rep.table.bucket h at_head) short
                  unknown less dry);
          turned = turned;
          took = took;
          grows = λ g. rw (missing.0, not_full less, dry) (update_own g);
          holds = holds;
          same = λ g to apart x inside. refl;
          from = λ x inside. inl inside;
        }

    pub new-Outcome :
        (item : Ptr)
        → length (items h) ≢ full
        → a.fresh ≡ some item
        → Outcome head jhash s m items w a
    new-Outcome item less got =
        let less' : length ss ≢ full = λ e. less (omega (arith, same_length)) in
        let (ne, not_head, unused) = k.timely.usable item unheard less' got in
        let fresh = λ (g : Ptr) (to : IsHead head g) (inside : In item (items g)).
          unused (k.rep.used g item to inside) in
        let both =
          detect-new enough c a.probe m (items h) (k.rep.table.bucket h at_head) short item unknown
            less got ne (λ e. not_head (rw e at_head)) (NotIn-In item (items h) (fresh h at_head))
            k.room in
        Joined-Outcome head jhash s m items w a item (items h) (items h ++ item ∷ []) (item ∷ []) ss
          k.rep k.timely.still at_head holds refl (λ g. rw (missing.0, not_full less, got) refl)
          (λ g to apart. fresh g to) (λ x inside. In-append_cases x (items h) (item ∷ []) inside)
          (λ alarm e.
            (turn-new s.limits a.probe.addr a.probe.port now a.fresh ss unheard alarm e item less'
              got).0)
          (turn-new s.limits a.probe.addr a.probe.port now a.fresh ss unheard (s.limits.number == 0)
            refl item less' got).1
          both
