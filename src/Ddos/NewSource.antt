-- ===== src/Ddos/NewSource.antt =====
-- The packets of a source that has no item yet, within one millisecond, through the whole detector.
use uaflow.Prelude.{
  ℕ, zero, suc, ◌+◌, ◌^◌, ◌≤◌, ◌<◌, ◌≡◌, refl, sym, ◌∙◌, ◌≢◌, ap, inl, inr, Bool, true, false, List,
  [], ◌∷◌, ◌++◌, arith, ◌==◌, ==_iff, ne→==, if◌then◌else◌, length, Bool-cases, In, some,
}
use uaflow.Ddos.Items.{Ptr, null, Node, Memory, Run, ok}
use uaflow.Ddos.{Call, everynode_entry_max_sz, full}
use uaflow.Ddos.Alarm.{counted, counted-judge, judge, has_absent, Remembers, probe}
use uaflow.Ddos.Burst.{burst, burst-counted, detector, of_both}
use uaflow.Ddos.Insert.{Inserted}
use uaflow.Ddos.Ring.{IsBucket, NotIn}
use uaflow.Ddos.Scan.{FirstAt, Unknown}
use uaflow.Ddos.Detect.{Joined, detect-new}

length_one_more : (xs : List Ptr) (item : Ptr) → length (xs ++ item ∷ []) ≡ length xs + 1
length_one_more [] item = refl
length_one_more (x ∷ xs) item = let rest = length_one_more xs item in omega (arith, rest)

-- The new item is the only one with the address, behind items that are as they were.
FirstAt-joined :
    (old new : ℕ → Node) (addr item : ℕ) (xs : List Ptr)
    → Unknown old addr xs
    → NotIn item xs
    → ((q : Ptr) → q ≢ item → new q ≡ old q)
    → (new item).addr ≡ addr
    → FirstAt new addr item (xs ++ item ∷ [])
FirstAt-joined old new addr item [] unknown out others same = inl (refl, same)
FirstAt-joined old new addr item (x ∷ xs) (other, unknown) (apart, out) others same =
    let kept = others x (λ e. apart (sym e)) in
    inr (rw kept other, FirstAt-joined old new addr item xs unknown out others same)

-- The ports that the item of a new source remembers.
abbrev pub first_seen : (alarm : Bool) → ℕ → List ℕ
first_seen alarm port = if alarm then [] else port ∷ []

module _ (c : Call) (addr port now : ℕ) (item : Ptr) (m : Memory)
    (still : (t : ℕ) → c.clock t ≡ now) {r : Run Bool}
    (i : Inserted c (probe c.limits addr now port) item m r) where
  pub Inserted-Remembers : Remembers c.limits addr now (i.after.node item) (first_seen i.alarm port)
  Inserted-Remembers = elim (Bool-cases i.alarm) [
    | inl e ↦ rw e record {
      count = rw e at i.count;
      time = i.time.1 ∙ still i.time.0;
      known = λ q there. absurd there;
      only = λ q (j, low, high, _, _). absurd (omega arith);
    }
    | inr e ↦ rw e record {
      count = rw e at i.count;
      time = i.time.1 ∙ still i.time.0;
      known = λ q there. elim there [
        | inl e ↦ (0, omega arith, omega arith, i.port ∙ sym e, i.entry_addr)
        | inr gone ↦ absurd gone
      ];
      only = λ q (j, low, high, at_port, at_addr). inl (
          sym at_port
          ∙ ap (λ k. ((i.after.node item).entry k).port) (omega (arith, low, high))
          ∙ i.port);
    }
  ]

-- Each item of the list but the last lets a packet pass.
unfoldable pub at_last : List ℕ → List Bool
at_last [] = true ∷ []
at_last (port ∷ ports) = false ∷ at_last ports

-- None of the ports is among the others.
abbrev pub Apart : (ports seen : List ℕ) → Type 0
Apart [] seen = Unit
Apart (port ∷ ports) seen = (¬ (In port seen)) × Apart ports (port ∷ seen)

counted-at_last :
    (number port : ℕ) (ports seen : List ℕ)
    → Apart (port ∷ ports) seen
    → length seen + length ports ≡ number
    → counted number seen (port ∷ ports) ≡ at_last ports
unfolding counted at_last
counted-at_last number port [] seen apart total =
    rw (has_absent port seen apart.0, (==_iff (length seen) number).1 (omega arith)) refl
counted-at_last number port (q ∷ ports) seen apart total =
    rw
      (
        has_absent port seen apart.0,
        ne→== (length seen) number (λ e. absurd (omega arith)),
        counted-at_last number q ports (port ∷ seen) apart.1 (omega arith),
      )
      refl

-- The verdict on the first packet is the set's, which is empty before it.
pub judge-first_seen :
    (number port : ℕ) (alarm : Bool)
    → alarm ≡ (number == 0)
    → judge number [] port ≡ (alarm, first_seen alarm port)
unfolding judge
judge-first_seen zero port alarm e = rw e refl
judge-first_seen (suc n) port alarm e =
    rw (e, ne→== (suc n) 0 (λ z. absurd (omega arith)), ne→== 0 (suc n) (λ z. absurd (omega arith)))
      refl

first_bounded :
    (number port : ℕ) (alarm : Bool)
    → alarm ≡ (number == 0)
    → length (first_seen alarm port) ≤ number
first_bounded zero port alarm e = rw e (omega arith)
first_bounded (suc n) port alarm e =
    rw (e, ne→== (suc n) 0 (λ z. absurd (omega arith))) (omega arith)

module _ (is_v6 : Bool) (fuel : ℕ) (c : Call) (addr port now : ℕ) (m : Memory) (xs : List Ptr)
    (item : Ptr) (bucket : IsBucket m c.head xs) (enough : length xs + 1 < fuel)
    (still : (t : ℕ) → c.clock t ≡ now) (small : now < 2 ^ 32) (unknown : Unknown m.node addr xs)
    (room : length xs ≢ full) (got : c.fresh ≡ some item) (ne : item ≢ null) (nh : item ≢ c.head)
    (out : NotIn item xs) (limit : c.limits.number < everynode_entry_max_sz) where
  first_packet :
      Joined c
        (probe c.limits addr now port)
        m
        xs
        item
        (detector is_v6 fuel c (probe c.limits addr now port) m)
  first_packet =
      let p = probe c.limits addr now port in
      of_both (Joined c p m xs item) is_v6 fuel c p m
        (detect-new fuel c p m xs bucket (omega arith) item unknown room got ne nh out limit)

  -- On a bucket that is a circular list and not full, in which a source has no item, with more
  -- rounds than the bucket then has items, a pool that gives an item outside of it, a limit below
  -- the length of the array of entries and a clock that stands still: the packets of that source
  -- get from both detectors the verdicts of a set of ports that is empty at first: the alarm is
  -- raised, and the set emptied, exactly at one port more than the limit.
  pub burst-new :
      (ports : List ℕ)
      → (m' : Memory) × (burst is_v6 fuel c addr (port ∷ ports) m
          ≡ ok (counted c.limits.number [] (port ∷ ports)) m')
  unfolding burst Joined
  burst-new ports =
      let (i, joined) = first_packet in
      let long = length_one_more xs item in
      let first = FirstAt-joined m.node i.after.node addr item xs unknown out i.others i.addr in
      let remembers = Inserted-Remembers c addr port now item m still i in
      let (m', rest) =
        burst-counted is_v6 fuel c addr now item (xs ++ item ∷ []) (omega arith) still small limit
          ports i.after (first_seen i.alarm port) joined first remembers
          (first_bounded c.limits.number port i.alarm i.alarmed) in
      let says =
        counted-judge c.limits.number port [] ports i.alarm (first_seen i.alarm port)
          (judge-first_seen c.limits.number port i.alarm i.alarmed) in
      (m', rw (i.returns, rest, says) refl)

  -- On a bucket that is a circular list and not full, in which a source has no item, with more
  -- rounds than the bucket then has items, a pool that gives an item outside of it, a limit below
  -- the length of the array of entries and a clock that stands still: where that source scans one
  -- port more than the limit, all of them different, both detectors let every packet pass but the
  -- last one, at which they raise the alarm.
  pub burst-at_last :
      (ports : List ℕ)
      → Apart (port ∷ ports) []
      → length ports ≡ c.limits.number
      → (m' : Memory) × (burst is_v6 fuel c addr (port ∷ ports) m ≡ ok (at_last ports) m')
  burst-at_last ports apart total =
      let (m', run) = burst-new ports in
      let verdicts = counted-at_last c.limits.number port ports [] apart (omega arith) in
      (m', run ∙ ap (λ alarms. ok alarms m') verdicts)
