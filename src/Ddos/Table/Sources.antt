-- ===== src/Ddos/Table/Sources.antt =====
-- What the table of flow_ddos/flow_ddos.c keeps, without its memory: for each bucket the sources in
-- it, in the order in which they came, each with the time of its last packet and the ports that it
-- has been seen on.
use uaflow.Prelude.{
  ℕ, ◌+◌, ◌<◌, ◌≡◌, ◌≢◌, Bool, false, Option, none, some, List, [], ◌∷◌, ◌++◌, ◌==◌, ltb,
  if◌then◌else◌, length, In,
}
use uaflow.Dpdk.{lcore_max_slot}
use uaflow.Ddos.{Limits, elapsed, full, mtime_max}
use uaflow.Ddos.Alarm.{judge}
use uaflow.Ddos.Items.{Ptr, null, update}
use uaflow.Ddos.Table.{Static, Arrival, IsHead, bucket_of}

pub record Source : Type 0 where
  pub addr : ℕ
  pub time : ℕ
  pub ports : List ℕ

-- The ports that still count at `now`, by the test of the code.
unfoldable pub still_open : Limits → (now : ℕ) → Source → List ℕ
still_open l now s = if ltb l.millisecond (elapsed s.time now) then [] else s.ports

-- A further packet of a source in the bucket, and its verdict.
unfoldable pub heard : Limits → (addr port now : ℕ) → List Source → Option (Bool × List Source)
unfolding still_open
heard l addr port now [] = none
heard l addr port now (s ∷ ss) =
    let (alarm, ports) = judge l.number (still_open l now s) port in
    let rest = heard l addr port now ss in
    if s.addr == addr
    then some (alarm, record { addr = s.addr; time = now; ports = ports } ∷ ss)
    else elim rest [ none ↦ none | some (a, behind) ↦ some (a, s ∷ behind) ]

-- The sources in front of the oldest one, where there is one from before `mtime`.
unfoldable pub before_oldest : (mtime : ℕ) → List Source → Option (List Source)
before_oldest mtime [] = none
before_oldest mtime (s ∷ ss) =
    let older = ltb s.time mtime in
    let rest = before_oldest (if older then s.time else mtime) ss in
    elim rest [ some front ↦ some (s ∷ front) | none ↦ if older then some [] else none ]

-- The first packet of a source, and its verdict.
unfoldable pub opened : Limits → (addr port now : ℕ) → Bool × Source
opened l addr port now =
    let (alarm, ports) = judge l.number [] port in
    (alarm, record { addr = addr; time = now; ports = ports })

-- A packet of a source that is not in the bucket: behind those in front of the oldest, where the
-- bucket is full, behind all others otherwise, where the pool has an item.
unfoldable pub come :
    Limits → (addr port now : ℕ) → (fresh : Option Ptr) → List Source → Bool × List Source
unfolding opened
come l addr port now fresh ss =
    let (alarm, s) = opened l addr port now in
    let cut = elim (before_oldest mtime_max ss) as (λ _. Bool × List Source) [
      | none ↦ (false, ss)
      | some front ↦ (alarm, front ++ s ∷ [])
    ] in
    let grown = elim fresh as (λ _. Bool × List Source) [
      | none ↦ (false, ss)
      | some item ↦ (alarm, ss ++ s ∷ [])
    ] in
    if length ss == full then cut else grown

-- The verdict on a packet, and the bucket's sources after it.
unfoldable pub turn :
    Limits → (addr port now : ℕ) → (fresh : Option Ptr) → List Source → Bool × List Source
unfolding heard come
turn l addr port now fresh ss = elim (heard l addr port now ss) [
  | some (alarm, after) ↦ (alarm, after)
  | none ↦ come l addr port now fresh ss
]

-- All buckets, and the items that the pool has given out.
pub record Sources : Type 0 where
  pub bucket : Ptr → List Source
  pub used : List Ptr

abbrev pub nobody : Sources
nobody = record { bucket = λ h. []; used = [] }

-- The pool's item is used for a source that is not in its bucket, which is not full.
unfoldable pub taken : Limits → (addr port now : ℕ) → (fresh : Option Ptr) → List Source → List Ptr
unfolding heard
taken l addr port now fresh ss = elim (heard l addr port now ss) as (λ _. List Ptr) [
  | some (alarm, after) ↦ []
  | none ↦ elim fresh as (λ _. List Ptr) [
    | none ↦ []
    | some item ↦ if length ss == full then [] else item ∷ []
  ]
]

module _ (head : (is_v6 : Bool) → (coreid slot : ℕ) → Ptr)
    (jhash : (is_v6 : Bool) → (addr initval : ℕ) → ℕ) (s : Static) where
  module _ (a : Arrival) (w : Sources) where
    abbrev pub here : List Source
    here = w.bucket (bucket_of head jhash s a)

    unfoldable pub verdict : Bool
    unfolding turn
    verdict = (turn s.limits a.probe.addr a.probe.port (a.clock 0) a.fresh here).0

    unfoldable pub sources : Sources
    unfolding turn taken
    sources = record {
      bucket =
          update w.bucket (bucket_of head jhash s a)
            (turn s.limits a.probe.addr a.probe.port (a.clock 0) a.fresh here).1;
      used = taken s.limits a.probe.addr a.probe.port (a.clock 0) a.fresh here ++ w.used;
    }

    -- What is asked of a packet: it is on one of the cores, and takes no longer than the clock's
    -- unit; the pool gives each item once, and none that is a null pointer or a bucket's head; and
    -- if its source is not in the bucket, which is full, the bucket has an oldest source, and that
    -- is not the last.
    pub record IsTimely : Type 0 where
      pub core : a.coreid < lcore_max_slot
      pub still : (t : ℕ) → a.clock t ≡ a.clock 0
      pub usable :
          (item : Ptr)
          → heard s.limits a.probe.addr a.probe.port (a.clock 0) here ≡ none
          → length here ≢ full
          → a.fresh ≡ some item
          → (item ≢ null) × (¬ (IsHead head item)) × (¬ (In item w.used))
      pub room :
          heard s.limits a.probe.addr a.probe.port (a.clock 0) here ≡ none
          → length here ≡ full
          → (front : List Source) × (before_oldest mtime_max here ≡ some front)
            × (length front + 1 < full)

  -- The verdicts on packet after packet.
  unfoldable pub verdicts : List Arrival → Sources → List Bool
  unfolding verdict sources
  verdicts [] w = []
  verdicts (a ∷ rest) w = verdict a w ∷ verdicts rest (sources a w)

  abbrev pub AreTimely : List Arrival → Sources → Type 0
  AreTimely [] w = Unit
  AreTimely (a ∷ rest) w = IsTimely a w × AreTimely rest (sources a w)
