-- ===== src/Ddos/Table/Packets.antt =====
-- Each kind of packet on a table that holds the sources.
use native.Mathlib.Decide.{ℕ_discrete}
use uaflow.Prelude.{
  ℕ, ◌≡◌, refl, sym, ◌∙◌, inl, inr, Bool, List, ◌∷◌, In, In-append_right, length, arith,
  Option-cases,
}
use uaflow.Ddos.{Call, Found, full, mtime_max}
use uaflow.Ddos.Cut.{last-cons, item-ne-last}
use uaflow.Ddos.Full.{Links-In}
use uaflow.Ddos.Items.{Ptr, null, Memory, ok}
use uaflow.Ddos.Ring.{last}
use uaflow.Ddos.Scan.{search_items, Unknown}
use uaflow.Ddos.Table.{Static, Arrival, bucket_of, call, after, detect, IsAdmitted}
use uaflow.Ddos.Table.Outcome.{Meets, Represents, Outcome, Outcome-Represents}
use uaflow.Ddos.Table.Packet.{known_or}
use uaflow.Ddos.Table.Served.{Served, packet-Served}
use uaflow.Ddos.Table.Sources.{Source, Sources, verdict, sources}
use uaflow.Ddos.Table.Kinds.{at_head, same_length, unheard, known-Outcome, dry-Outcome, new-Outcome}
use uaflow.Ddos.Table.Evicts.{full-Behind, cut-Outcome}

ok-memory : {a b : Bool} {m n : Memory} → ok a m ≡ ok b n → m ≡ n
ok-memory e = cc

module _ {head : (is_v6 : Bool) → (coreid slot : ℕ) → Ptr}
    {jhash : (is_v6 : Bool) → (addr initval : ℕ) → ℕ} {s : Static} {m : Memory}
    {items : Ptr → List Ptr} {w : Sources} {a : Arrival} (k : Meets head jhash s m items w a) where
  abbrev h : Ptr
  h = bucket_of head jhash s a

  abbrev c : Call
  c = call head jhash s a

  abbrev ss : List Source
  ss = w.bucket h

  abbrev now : ℕ
  now = a.clock 0

  abbrev found : Found
  found = search_items m.node a.probe.addr (items h) mtime_max 0 null

  module _ (unknown : Unknown m.node a.probe.addr (items h)) where
    unknown-Outcome : Outcome head jhash s m items w a
    unknown-Outcome = elim (ℕ_discrete (length (items h)) full) [
      | yes filled ↦
          let b = full-Behind k unknown filled in
          cut-Outcome k unknown b.front b.before b.item b.y b.ys filled b.oldest b.old b.place
            b.fronts
      | no less ↦ elim (Option-cases a.fresh) [
        | inl dry ↦ dry-Outcome k unknown less dry
        | inr (item, got) ↦ new-Outcome k unknown item less got
      ]
    ]

  packet-Outcome : Outcome head jhash s m items w a
  packet-Outcome = elim (known_or m.node a.probe.addr (items h)) [
    | inl (item, f) ↦ known-Outcome k item f
    | inr unknown ↦ unknown-Outcome unknown
  ]

  admitted : IsAdmitted head jhash s m items a
  admitted = record {
    core = k.timely.core;
    usable = λ item unknown less got.
        let (ne, not_head, unused) =
          k.timely.usable item (unheard k unknown) (λ e. less (omega (arith, (same_length k))))
            got in
        (ne, not_head, λ g to inside. unused (k.rep.used g item to inside));
    room = λ unknown filled.
        let b = full-Behind k unknown filled in
        let bucket = rw b.place at (k.rep.table.bucket h (at_head k)) in
        let end : last h (items h) ≡ last b.y b.ys =
          rw b.place (last-cons h b.item b.y b.before b.ys) in
        let there : In b.item (items h) =
          rw b.place (In-append_right b.item b.before (b.item ∷ b.y ∷ b.ys) (inl refl)) in
        let (_, ne) =
          Links-In m.next h h (items h) (k.rep.table.bucket h (at_head k)).forward b.item there in
        (
          λ e. ne (sym b.old ∙ e),
          λ e. item-ne-last b.item b.y b.before b.ys bucket.distinct (sym b.old ∙ e ∙ end),
        );
  }

  -- A timely packet gets the verdict of the sources, and the table then holds those after it.
  pub packet-Represents :
      (m' : Memory) × (detect head jhash s a m ≡ ok (verdict head jhash s a w) m')
      × Represents head jhash s m' (after head jhash s m items a) (sources head jhash s a w)
  unfolding Served
  packet-Represents =
      let o = packet-Outcome in
      let (alarm, m0, run, table) =
        packet-Served head jhash s m items a k.room k.rep.table admitted in
      let same : m0 ≡ o.next = ok-memory (sym run ∙ o.run) in
      let (says, kept) =
        Outcome-Represents head jhash s m items w a k.rep o (rw (← same) table) (at_head k) in
      (o.next, says, kept)
