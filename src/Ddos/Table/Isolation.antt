-- ===== src/Ddos/Table/Isolation.antt =====
-- The packets of one core and one table among those of all others.
use uaflow.Prelude.{ℕ, ◌<◌, ◌≡◌, Bool, true, false, ◌&&◌, List, [], ◌∷◌, ◌==◌, if◌then◌else◌, In}
use uaflow.Dpdk.{lcore_max_slot}
use uaflow.Ddos.{node_list_max_sz, slot}
use uaflow.Ddos.Items.{Ptr}
use uaflow.Ddos.Table.{Static, Arrival, bucket_of}
use uaflow.Ddos.Table.Sources.{Sources, taken}

-- Is the packet of this table and this core?
abbrev pub is_of : Bool → ℕ → Arrival → Bool
is_of v coreid a = (if v then a.is_v6 else (if a.is_v6 then false else true)) && a.coreid == coreid

-- The packets of one core for one table, and the verdicts on them among those on all.
unfoldable pub packets_of : Bool → ℕ → List Arrival → List Arrival
packets_of v coreid [] = []
packets_of v coreid (a ∷ rest) =
    let others = packets_of v coreid rest in if is_of v coreid a then a ∷ others else others

unfoldable pub verdicts_of : Bool → ℕ → List Arrival → List Bool → List Bool
verdicts_of v coreid [] alarms = []
verdicts_of v coreid (a ∷ rest) [] = []
verdicts_of v coreid (a ∷ rest) (alarm ∷ alarms) =
    let others = verdicts_of v coreid rest alarms in
    if is_of v coreid a then alarm ∷ others else others

-- The rows of both arrays of list heads do not overlap.
abbrev pub HaveOwnRows : (head : (is_v6 : Bool) → (coreid slot : ℕ) → Ptr) → Type 0
HaveOwnRows head =
    (v v' : Bool) (i i' j j' : ℕ)
    → i < lcore_max_slot
    → i' < lcore_max_slot
    → j < node_list_max_sz
    → j' < node_list_max_sz
    → head v i j ≡ head v' i' j'
    → (v ≡ v') × (i ≡ i')

module _ (head : (is_v6 : Bool) → (coreid slot : ℕ) → Ptr)
    (jhash : (is_v6 : Bool) → (addr initval : ℕ) → ℕ) (s : Static) (own : HaveOwnRows head)
    (v : Bool) (coreid : ℕ) (core : coreid < lcore_max_slot) where
  -- The buckets of the core are the same in both, and the items of the second came from the pool in
  -- the first, too.
  record Agrees (w w' : Sources) : Type 0 where
    buckets :
        (j : ℕ) → j < node_list_max_sz → w'.bucket (head v coreid j) ≡ w.bucket (head v coreid j)
    used : (x : Ptr) → In x w'.used → In x w.used

  module _ (a : Arrival) (w w' : Sources) (agree : Agrees w w') where
    abbrev h : Ptr
    h = bucket_of head jhash s a

    -- A packet of the core.
    module _ (mine : is_of v coreid a ≡ true) where
      abbrev took : Sources → List Ptr
      took u = taken s.limits a.probe.addr a.probe.port (a.clock 0) a.fresh (u.bucket h)
