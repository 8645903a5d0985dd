-- ===== src/Ddos/Table/Outcome.antt =====
-- One packet on the table, against the lists of sources.
use native.Mathlib.Decide.{ℕ_discrete}
use uaflow.Prelude.{
  ◌<◌, ℕ, ◌≡◌, ◌≢◌, ◌⊎◌, inl, inr, Bool, true, false, List, [], ◌∷◌, ◌++◌, ==_refl, ne→==, ◌==◌, In,
  In-append_right, if◌then◌else◌, In-append_left,
}
use uaflow.Ddos.{everynode_entry_max_sz, v4detect, v6detect}
use uaflow.Ddos.Cut.{NotIn-right}
use uaflow.Ddos.Detect.{Joined}
use uaflow.Ddos.Items.{Ptr, Memory, Run, ok, update}
use uaflow.Ddos.NewSource.{Inserted-Remembers}
use uaflow.Ddos.Ring.{Distinct}
use uaflow.Ddos.Table.{Static, Arrival, IsHead, enough, bucket_of, call, detect, after}
use uaflow.Ddos.Table.Holds.{Holds, Holds-same, Holds-append}
use uaflow.Ddos.Table.Packet.{IsTable}
use uaflow.Ddos.Table.Sources.{IsTimely, Source, Sources, turn, taken, verdict, sources}
use uaflow.Ddos.Table.Turns.{first}

Distinct-front : (item x : Ptr) (xs : List Ptr) → Distinct (xs ++ item ∷ []) → In x xs → x ≢ item
Distinct-front item x [] d there = absurd there
Distinct-front item x (y ∷ ys) d (inl e) = rw e (NotIn-right y ys (item ∷ []) d.0).0
Distinct-front item x (y ∷ ys) d (inr there) = Distinct-front item x ys d.1 there

module _ (head : (is_v6 : Bool) → (coreid slot : ℕ) → Ptr)
    (jhash : (is_v6 : Bool) → (addr initval : ℕ) → ℕ) (s : Static) where
  -- The memory holds these sources, and every item of it came from the pool.
  pub record Represents (m : Memory) (items : Ptr → List Ptr) (w : Sources) : Type 0 where
    pub table : IsTable head s.limits m items
    pub holds : (h : Ptr) → IsHead head h → Holds s.limits m.node (items h) (w.bucket h)
    pub used : (h x : Ptr) → IsHead head h → In x (items h) → In x w.used

  -- A timely packet on such a memory, where the limit is below the length of the array of entries.
  pub record Meets (m : Memory) (items : Ptr → List Ptr) (w : Sources) (a : Arrival) : Type 0 where
    pub room : s.limits.number < everynode_entry_max_sz
    pub rep : Represents m items w
    pub timely : IsTimely head jhash s a w

  pub detect_of_both :
      (P : Run Bool → Type 0) (a : Arrival) (m : Memory)
      → P (v4detect enough (call head jhash s a) a.probe m)
        × P (v6detect enough (call head jhash s a) a.probe m)
      → P (detect head jhash s a m)
  unfolding detect
  detect_of_both P a m both =
      elim a.is_v6
        as (λ (v : Bool). P (
          if v
          then v6detect enough (call head jhash s a) a.probe m
          else v4detect enough (call head jhash s a) a.probe m)) [ true ↦ both.1 | false ↦ both.0 ]

  module _ (m : Memory) (items : Ptr → List Ptr) (w : Sources) (a : Arrival) where
    abbrev h : Ptr
    h = bucket_of head jhash s a

    abbrev ss : List Source
    ss = w.bucket h

    -- What the packet comes to, on both sides.
    pub record Outcome : Type 0 where
      pub next : Memory
      pub alarm : Bool
      pub list : List Ptr
      pub rest : List Source
      pub used : List Ptr
      pub run : detect head jhash s a m ≡ ok alarm next
      pub turned : turn s.limits a.probe.addr a.probe.port (a.clock 0) a.fresh ss ≡ (alarm, rest)
      pub took : taken s.limits a.probe.addr a.probe.port (a.clock 0) a.fresh ss ≡ used
      pub grows : (g : Ptr) → after head jhash s m items a g ≡ update items h list g
      pub holds : Holds s.limits next.node list rest
      pub same :
          (g : Ptr) → IsHead head g → h ≢ g → (x : Ptr) → In x (items g) → next.node x ≡ m.node x
      pub from : (x : Ptr) → In x list → In x (items h) ⊎ In x used

    -- From what a packet comes to on the bucket, to the whole table.
    pub Outcome-Represents :
        Represents m items w
        → (o : Outcome) → IsTable head s.limits o.next (after head jhash s m items a)
        → IsHead head h
        → (detect head jhash s a m ≡ ok (verdict head jhash s a w) o.next)
          × Represents o.next (after head jhash s m items a) (sources head jhash s a w)
    unfolding verdict sources
    Outcome-Represents rep o table at = (
      rw (verdict, o.turned) o.run,
      record {
        table = table;
        holds = λ g to. elim (ℕ_discrete h g) [
          | yes e ↦ rw (o.grows g, e, ==_refl g, o.turned) o.holds
          | no ne ↦
              rw (o.grows g, ne→== h g ne)
                (Holds-same s.limits m.node o.next.node (items g) (w.bucket g) (o.same g to ne)
                  (rep.holds g to))
        ];
        used = λ g x to there. elim (ℕ_discrete h g) [
          | yes e ↦
              let own : In x o.list = rw (o.grows g, e, ==_refl g) at there in
              elim (o.from x own) [
                | inl old ↦
                    rw (sources, o.took) (In-append_right x o.used w.used (rep.used h x at old))
                | inr new ↦ rw (sources, o.took) (In-append_left x o.used w.used new)
              ]
          | no ne ↦
              let old : In x (items g) = rw (o.grows g, ne→== h g ne) at there in
              rw (sources, o.took) (In-append_right x o.used w.used (rep.used g x to old))
        ];
      },
    )

    -- Where an item has been put at the end of the bucket, behind those that hold these sources.
    pub Joined-Outcome :
        (item : Ptr) (front list used : List Ptr) (fs : List Source)
        → Represents m items w
        → ((t : ℕ) → a.clock t ≡ a.clock 0)
        → IsHead head h
        → Holds s.limits m.node front fs
        → list ≡ front ++ item ∷ []
        → ((g : Ptr) → after head jhash s m items a g ≡ update items h list g)
        → ((g : Ptr) → IsHead head g → h ≢ g → ¬ (In item (items g)))
        → ((x : Ptr) → In x list → In x (items h) ⊎ In x used)
        → ((alarm : Bool)
            → alarm ≡ (s.limits.number == 0)
            → turn s.limits a.probe.addr a.probe.port (a.clock 0) a.fresh ss
              ≡ (alarm, fs ++ first a.probe.addr a.probe.port (a.clock 0) alarm ∷ []))
        → taken s.limits a.probe.addr a.probe.port (a.clock 0) a.fresh ss ≡ used
        → Joined
            (call head jhash s a)
            a.probe
            m
            front
            item
            (v4detect enough (call head jhash s a) a.probe m)
          × Joined
              (call head jhash s a)
              a.probe
              m
              front
              item
              (v6detect enough (call head jhash s a) a.probe m)
        → Outcome
    unfolding Joined
    Joined-Outcome item front list used fs rep still at holds place grows unused from turned took
          both =
        let (i, bucket) =
          detect_of_both (Joined (call head jhash s a) a.probe m front item) a m both in
        record {
          next = i.after;
          alarm = i.alarm;
          list = list;
          rest = fs ++ first a.probe.addr a.probe.port (a.clock 0) i.alarm ∷ [];
          used = used;
          run = i.returns;
          turned = turned i.alarm i.alarmed;
          took = took;
          grows = grows;
          holds = rw place (
              Holds-append s.limits i.after.node front fs item
                (first a.probe.addr a.probe.port (a.clock 0) i.alarm)
                (Holds-same s.limits m.node i.after.node front fs
                  (λ x there. i.others x (Distinct-front item x front bucket.distinct there)) holds)
                (record {
                  addr = i.addr;
                  remembers =
                      Inserted-Remembers (call head jhash s a) a.probe.addr a.probe.port (a.clock 0)
                        item m still i;
                }));
          same = λ g to ne x there. i.others x (λ e. unused g to ne (rw e at there));
          from = from;
        }
