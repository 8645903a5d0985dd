-- ===== src/Tests/Ddos.antt =====
-- The detector on small buckets.
use uaflow.Prelude.{
  length, ◌+◌, ◌-◌, ◌≤◌, ◌<◌, ◌≡◌, refl, ◌⊎◌, false, some, List, [], ◌∷◌, arith, ◌==◌,
  if◌then◌else◌,
}
use uaflow.Ddos.Items.{Ptr, Node, Memory, fault}
use uaflow.Ddos.{
  mtime_max, Limits, Probe, Call, slot, is_recorded, account, v4detect, v6detect, node_list_max_sz,
}
use uaflow.Ddos.Account.{live, entered}
use uaflow.Ddos.Slot.{slot_range}
use uaflow.Ddos.Ring.{IsBucket}
use uaflow.Ddos.Late.{AllLate}
use uaflow.Ddos.Reuse.{Wedges}
use uaflow.Ddos.Oldest.{Oldest}
use uaflow.Ddos.Full.{CutAt, detect-full}

abbrev pub limits : Limits
limits = record { number = 2; millisecond = 5000 }

abbrev probe : Probe
probe = record { addr = 77; port = 443 }

-- A source that one port was seen of.
abbrev pub seen : Node
seen = record {
  addr = 77;
  modtime = 1000;
  n_packets = 1;
  entry = λ i. record { port = 80; addr = 77 };
}

slot_range_example : (slot 5000 < 2048) ⊎ ((8192 ≤ slot 5000) × (slot 5000 < node_list_max_sz))
slot_range_example = slot_range 5000

-- The limit is larger than the array, and the array is full of another port's entries.
abbrev large : Limits
large = record { number = 2000; millisecond = 5000 }

abbrev crowded : Node
crowded = record seen { n_packets = 1024 }

-- A bucket of two items.
abbrev pub two_items : Memory
two_items = record {
  next = λ p. if p == 100 then 1 else if p == 1 then 2 else if p == 2 then 100 else 0;
  prev = λ p. if p == 100 then 2 else if p == 2 then 1 else if p == 1 then 100 else 0;
  node = λ p.
      if p == 1
      then record seen { addr = 5 }
      else if p == 2
      then seen
      else record seen { addr = 0 };
}

pub two_items-IsBucket : IsBucket two_items 100 (1 ∷ 2 ∷ [])
two_items-IsBucket = omega arith

abbrev pub call : Call
call = record { limits = limits; head = 100; fresh = some 3; clock = λ t. 1000 }

-- A second port of a source is counted, and no alarm is raised.
second_port :
    account limits probe 1000 1000 seen ≡ some (entered limits probe 1000 1000 seen 2, false)
unfolding account is_recorded live
second_port = refl

abbrev pub stranger : Probe
stranger = record { addr = 6; port = 443 }

-- A full bucket, whose third item is the oldest.
abbrev ten_items : Memory
ten_items = record {
  next = λ p. if p == 100 then 1 else if p == 10 then 100 else p + 1;
  prev = λ p. if p == 100 then 10 else p - 1;
  node = λ p. record seen { addr = p; modtime = if p == 3 then 50 else 100 + p };
}

abbrev ten : List Ptr
ten = 1 ∷ 2 ∷ 3 ∷ 4 ∷ 5 ∷ 6 ∷ 7 ∷ 8 ∷ 9 ∷ 10 ∷ []

ten_items-IsBucket : IsBucket ten_items 100 ten
ten_items-IsBucket = omega arith

ten_enough : length ten < 11
ten_enough = omega arith

detect-full_example :
    (AllLate ten_items.node mtime_max ten
      × (v4detect 11 call probe ten_items ≡ fault)
      × (v6detect 11 call probe ten_items ≡ fault))
    ⊎ ((item : Ptr) × Oldest ten_items.node mtime_max ten item
        × CutAt 11 call probe ten_items ten ten_items-IsBucket ten_enough item)
    ⊎ (Oldest ten_items.node mtime_max ten 10
        × Wedges 100 ten (v4detect 11 call probe ten_items)
        × Wedges 100 ten (v6detect 11 call probe ten_items))
detect-full_example =
    detect-full 11 call probe ten_items ten ten_items-IsBucket ten_enough (omega arith) refl
      (omega arith)
