-- ===== src/Ddos/Table/Served.antt =====
-- What each of the four kinds of packet does to the table.
use mathlib.Core.Option.{some-injective}
use native.Mathlib.Decide.{ℕ_discrete}
use uaflow.Ddos.Full.{Links-In}
use uaflow.Ddos.Oldest.{Oldest, search_items-Oldest}
use uaflow.Ddos.Cut.{detect-cut}
use uaflow.Ddos.Ring.{last, last-append}
use uaflow.Prelude.{
  ◌==◌, ◌≤◌, ◌+◌, ◌⊎◌, if◌then◌else◌, ap, length-append, In-append_cases, In-append_right, ==_iff,
  In, ℕ, ◌<◌, ◌≡◌, refl, sym, ◌∙◌, ◌≢◌, inl, inr, Bool, true, false, none, some, List, [], ◌∷◌,
  ◌++◌, arith, ne→==, length, Option-cases,
}
use uaflow.Dpdk.{lcore_max_slot}
use uaflow.Ddos.{Found, Call, v4detect, v6detect, everynode_entry_max_sz, full, mtime_max, slot}
use uaflow.Ddos.Account.{Fits, account-Fits}
use uaflow.Ddos.Items.{Ptr, null, Node, Memory, ok, update}
use uaflow.Ddos.Slot.{slot_range}
use uaflow.Ddos.Scan.{search_items, Unknown, FirstAt, search_items-Unknown, search_items-FirstAt}
use uaflow.Ddos.Detect.{Joined, FirstAt-ne_null, detect-known, detect-exhausted, detect-new}
use uaflow.Ddos.Table.{
  up_to, Static, Arrival, enough, bucket_of, call, detect, after, IsHead, IsAdmitted,
}
use uaflow.Ddos.Table.Frame.{NotIn-In}
use uaflow.Ddos.Table.Packet.{
  IsTable, IsTable-update, IsTable-append, known_or, FirstAt-In, Unknown-In,
}
use uaflow.Ddos.Table.UpTo.{up_to-append, In-up_to, length-up_to}

module _ (head : (is_v6 : Bool) → (coreid slot : ℕ) → Ptr)
    (jhash : (is_v6 : Bool) → (addr initval : ℕ) → ℕ) (s : Static) where
  pub bucket_of-IsHead :
      (a : Arrival) → a.coreid < lcore_max_slot → IsHead head (bucket_of head jhash s a)
  unfolding IsHead
  bucket_of-IsHead a core =
      let hash = jhash a.is_v6 a.probe.addr (s.hash_initval a.coreid) in
      (a.is_v6, a.coreid, slot hash, core, omega (arith, slot_range hash), refl)

  -- What a packet comes to: the detector returns, and the table is well formed again.
  unfoldable pub Served : Memory → (Ptr → List Ptr) → Arrival → Type 0
  Served m items a =
      (alarm : Bool) × (m' : Memory) × (detect head jhash s a m ≡ ok alarm m')
      × IsTable head s.limits m' (after head jhash s m items a)

  -- Both detectors at once.
  Served-of :
      (m : Memory) (items : Ptr → List Ptr) (a : Arrival) {alarm4 alarm6 : Bool} {m4 m6 : Memory}
      → v4detect enough (call head jhash s a) a.probe m ≡ ok alarm4 m4
      → v6detect enough (call head jhash s a) a.probe m ≡ ok alarm6 m6
      → IsTable head s.limits m4 (after head jhash s m items a)
      → IsTable head s.limits m6 (after head jhash s m items a)
      → Served m items a
  unfolding Served detect
  Served-of m items a {alarm4} {alarm6} {m4} {m6} r4 r6 t4 t6 =
      elim a.is_v6
        as (λ (v : Bool).
          (alarm : Bool) × (m' : Memory) × ((if v
              then v6detect enough (call head jhash s a) a.probe m
              else v4detect enough (call head jhash s a) a.probe m)
            ≡ ok alarm m')
          × IsTable head s.limits m' (after head jhash s m items a)) [
            | true ↦ (alarm6, m6, r6, t6)
            | false ↦ (alarm4, m4, r4, t4)
          ]

  module _ (m : Memory) (items : Ptr → List Ptr) (a : Arrival)
      (room : s.limits.number < everynode_entry_max_sz) (t : IsTable head s.limits m items)
      (ad : IsAdmitted head jhash s m items a) where
    abbrev h : Ptr
    h = bucket_of head jhash s a

    abbrev c : Call
    c = call head jhash s a

    at_head : IsHead head h
    at_head = bucket_of-IsHead a ad.core

    short : length (items h) < enough
    short = omega (arith, t.bounded h at_head)

    known-Served : (item : Ptr) → FirstAt m.node a.probe.addr item (items h) → Served m items a
    known-Served item first =
        let bucket = t.bucket h at_head in
        let fits = t.fits h item at_head (FirstAt-In m.node a.probe.addr item (items h) first) in
        let (n, alarm, run, r4, r6) =
          detect-known enough c a.probe m (items h) bucket short item first fits in
        let (n', alarm', run', fits', addr') =
          account-Fits s.limits a.probe (a.clock 0) (a.clock 1) (m.node item) fits in
        let same : (n', alarm') ≡ (n, alarm) =
          some-injective (n', alarm') (n, alarm) (sym run' ∙ run) in
        let found =
          search_items-FirstAt m.node a.probe.addr item (items h) mtime_max 0 null first in
        let ne =
          FirstAt-ne_null m.node a.probe.addr m.next h h item (items h) first bucket.forward in
        let fits_n : Fits s.limits n = rw (← ap (λ (x : Node × Bool). x.0) same) fits' in
        let source : n.addr ≡ (m.node item).addr =
          sym (ap (λ (x : Node × Bool). x.0.addr) same) ∙ addr' in
        let kept : after head jhash s m items a ≡ items = rw (found, ne→== item null ne) refl in
        let done = IsTable-update head item n fits_n source t in
        Served-of m items a r4 r6 (rw kept done) (rw kept done)

    alone :
        (n : Node)
        → n.addr ≡ a.probe.addr
        → Unknown m.node a.probe.addr (items h)
        → (x : Ptr) → In x (items h)
        → (m.node x).addr ≢ n.addr
    alone n e unknown x there same =
        Unknown-In m.node a.probe.addr x (items h) unknown there (same ∙ e)

    -- The bucket's new items, where both detectors put an item at its end.
    Joined-Served :
        (item : Ptr) (front list : List Ptr)
        → Unknown m.node a.probe.addr (items h)
        → after head jhash s m items a ≡ update items h list
        → list ≡ front ++ item ∷ []
        → length list ≤ full
        → ((x : Ptr) → In x list → In x (items h) ⊎ (x ≡ item))
        → ¬ (IsHead head item)
        → ((g : Ptr) → IsHead head g → h ≢ g → ¬ (In item (items g)))
        → Joined c a.probe m front item (v4detect enough c a.probe m)
        → Joined c a.probe m front item (v6detect enough c a.probe m)
        → Served m items a
    unfolding Joined
    Joined-Served item front list unknown grows place bound from not_head unused (i4, b4) (i6, b6) =
        Served-of m items a i4.returns i6.returns
          (rw grows (
            IsTable-append head h item list at_head t not_head unused i4.appends (rw place b4) bound
              from i4.fits i4.others (alone (i4.after.node item) i4.addr unknown)))
          (rw grows (
            IsTable-append head h item list at_head t not_head unused i6.appends (rw place b6) bound
              from i6.fits i6.others (alone (i6.after.node item) i6.addr unknown)))

    module _ (unknown : Unknown m.node a.probe.addr (items h)) where
      abbrev found : Found
      found = search_items m.node a.probe.addr (items h) mtime_max 0 null

      missing : (found.item ≡ null) × (found.cnt ≡ 0 + length (items h))
      missing = search_items-Unknown m.node a.probe.addr (items h) mtime_max 0 null unknown

      not_full : length (items h) ≢ full → (found.cnt == full) ≡ false
      not_full less = ne→== found.cnt full (λ e. less (omega (arith, missing.1)))

      dry-Served : length (items h) ≢ full → a.fresh ≡ none → Served m items a
      dry-Served less dry =
          let (r4, r6) =
            detect-exhausted enough c a.probe m (items h) (t.bucket h at_head) short unknown less
              dry in
          let kept : after head jhash s m items a ≡ items =
            rw (missing.0, not_full less, dry) refl in
          Served-of m items a r4 r6 (rw kept t) (rw kept t)

      new-Served : (item : Ptr) → length (items h) ≢ full → a.fresh ≡ some item → Served m items a
      new-Served item less got =
          let (ne, not_head, unused) = ad.usable item unknown less got in
          let nh : item ≢ h = λ e. not_head (rw e at_head) in
          let out = NotIn-In item (items h) (unused h at_head) in
          let (j4, j6) =
            detect-new enough c a.probe m (items h) (t.bucket h at_head) short item unknown less got
              ne nh out room in
          let grows : after head jhash s m items a ≡ update items h (items h ++ item ∷ []) =
            rw (missing.0, not_full less, got) refl in
          let bound : length (items h ++ item ∷ []) ≤ full =
            omega (arith, t.bounded h at_head, less, length-append (items h) (item ∷ [])) in
          Joined-Served item (items h) (items h ++ item ∷ []) unknown grows refl bound
            (λ x there. one_more x (In-append_cases x (items h) (item ∷ []) there)) not_head
            (λ g to _. unused g to) j4 j6
        where
          one_more : (x : Ptr) → In x (items h) ⊎ In x (item ∷ []) → In x (items h) ⊎ (x ≡ item)
          one_more x (inl old) = inl old
          one_more x (inr (inl new)) = inr new
          one_more x (inr (inr gone)) = absurd gone

      cut-Served :
          (item : Ptr) (front : List Ptr) (y : Ptr) (ys : List Ptr)
          → length (items h) ≡ full
          → found.old ≡ item
          → items h ≡ front ++ item ∷ y ∷ ys
          → Served m items a
      cut-Served item front y ys filled oldest place =
          let b = rw place at (t.bucket h at_head) in
          let there : In item (items h) =
            rw place (In-append_right item front (item ∷ y ∷ ys) (inl refl)) in
          let (nh, ne) = Links-In m.next h h (items h) (t.bucket h at_head).forward item there in
          let (j4, j6) =
            detect-cut enough c a.probe m item front y ys b (rw place at short) ne nh room
              (rw place at unknown) (rw place at filled) (rw place at oldest) in
          let cut : up_to item (items h) ≡ front ++ item ∷ [] =
            rw place (up_to-append item front (y ∷ ys) b.distinct) in
          let grows : after head jhash s m items a ≡ update items h (up_to item (items h)) =
            rw (missing.0, cnt, oldest) refl in
          Joined-Served item front (up_to item (items h)) unknown grows cut bound
            (λ x inside. inl (In-up_to item x (items h) inside))
            (λ to. t.not_head h item at_head to there)
            (λ g to apart inside. apart (t.apart h g item at_head to there inside)) j4 j6
        where
          cnt : (found.cnt == full) ≡ true
          cnt = (==_iff found.cnt full).1 (omega (arith, missing.1))

          bound : length (up_to item (items h)) ≤ full
          bound = omega (arith, t.bounded h at_head, length-up_to item (items h))

      full-Served : length (items h) ≡ full → Served m items a
      full-Served filled =
          elim (search_items-Oldest m.node a.probe.addr (items h) mtime_max 0 null unknown) [
            | inl (_, gone) ↦ absurd ((ad.room unknown filled).0 gone)
            | inr (item, o, same) ↦ split item o same o.back refl
          ]
        where
          split :
              (item : Ptr) (o : Oldest m.node mtime_max (items h) item)
              → found.old ≡ item
              → (back : List Ptr) → o.back ≡ back
              → Served m items a
          split item o same [] e =
              let place : items h ≡ o.front ++ item ∷ [] = rw e at o.place in
              let end : last h (items h) ≡ item = rw place (last-append h item o.front) in
              absurd ((ad.room unknown filled).1 (same ∙ sym end))
          split item o same (y ∷ ys) e = cut-Served item o.front y ys filled same (rw e at o.place)

      unknown-Served : Served m items a
      unknown-Served = elim (ℕ_discrete (length (items h)) full) [
        | yes filled ↦ full-Served filled
        | no less ↦ elim (Option-cases a.fresh) [
          | inl dry ↦ dry-Served less dry
          | inr (item, got) ↦ new-Served item less got
        ]
      ]

    pub packet-Served : Served m items a
    packet-Served = elim (known_or m.node a.probe.addr (items h)) [
      | inl (item, first) ↦ known-Served item first
      | inr unknown ↦ unknown-Served unknown
    ]
