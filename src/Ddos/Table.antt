-- ===== src/Ddos/Table.antt =====
-- The whole of the detector's state in flow_ddos/flow_ddos.c: its start by `flow_ddos_module_init`,
-- and its calls for one packet after another. The addresses of the elements of `flow_ddos_v4_list`
-- and `flow_ddos_v6_list` are a parameter, and so is DPDK's hash.
pub mod Frame
pub mod Packet
pub mod UpTo
pub mod Served
pub mod Runs
pub mod Sources
pub mod Holds
pub mod Turns
pub mod Outcome
pub mod Kinds
pub mod Evicts
pub mod Packets
pub mod Refines
pub mod Interleaving
pub mod Isolation
pub mod Single
use uaflow.Prelude.{
  ℕ, zero, suc, ◌+◌, ◌<◌, ◌≡◌, ◌≢◌, Bool, true, false, ◌&&◌, not, Option, none, some, List, [], ◌∷◌,
  ◌++◌, ◌==◌, leb, ltb, if◌then◌else◌, length, bit_and, In,
}
use uaflow.Prelude.Int.{ℤ, pos, negsuc}
use uaflow.Dpdk.{lcore_max_slot}
use uaflow.Ddos.Items.{Ptr, null, Node, Memory, Run, ok, update, init_list_head}
use uaflow.Ddos.{Limits, Probe, Call, slot, v4detect, v6detect, full, mtime_max, node_list_max_sz}
use uaflow.Ddos.Ring.{last}
use uaflow.Ddos.Scan.{search_items, Unknown}

-- The static variables beside the lists.
pub record Static : Type 0 where
  pub limits : Limits
  pub hash_initval : ℕ → ℕ

-- The loop over `flow_ddos_hash_initval`, from entry `i` on with `n` rounds left.
unfoldable pub set_initval : (initval n i : ℕ) → (ℕ → ℕ) → ℕ → ℕ
set_initval initval zero i a = a
set_initval initval (suc n) i a = set_initval initval n (i + 1) (update a i initval)

-- A packet: the table, the core, what the detector sees of it, the next item of the pool, and the
-- readings of the clock.
pub record Arrival : Type 0 where
  pub is_v6 : Bool
  pub coreid : ℕ
  pub probe : Probe
  pub fresh : Option Ptr
  pub clock : ℕ → ℕ

-- The items up to the one at `p`.
unfoldable pub up_to : Ptr → List Ptr → List Ptr
up_to p [] = []
up_to p (x ∷ xs) = if x == p then x ∷ [] else x ∷ up_to p xs

-- The rounds that the loop over a bucket makes at most: one for each item and one more.
abbrev pub enough : ℕ
enough = full + 1

module _ (head : (is_v6 : Bool) → (coreid slot : ℕ) → Ptr) where
  -- The inner loop of `flow_ddos_module_init`, from bucket `j` on with `n` rounds left, and the
  -- outer one.
  unfoldable pub init_row : (i n j : ℕ) → Memory → Memory
  init_row i zero j m = m
  init_row i (suc n) j m =
      init_row i n (j + 1) (init_list_head (head true i j) (init_list_head (head false i j) m))

  unfoldable pub init_heads : (n i : ℕ) → Memory → Memory
  init_heads zero i m = m
  init_heads (suc n) i m = init_heads n (i + 1) (init_row i node_list_max_sz 0 m)

  -- `flow_ddos_module_init`, by what the getters of the configuration and `rte_rand` answer, and by
  -- whether the pool can be created.
  unfoldable pub init :
      (getnum gettime rand : ℕ) → (created : Bool) → Memory → (ℕ → ℕ) → Static × Memory × ℤ
  init getnum gettime rand created m initval = (
    record {
      limits = record { number = getnum; millisecond = gettime };
      hash_initval = set_initval (bit_and rand 0xffffffff) lcore_max_slot 0 initval;
    },
    init_heads lcore_max_slot 0 m,
    if created then pos 0 else negsuc 0,
  )

  -- The addresses of the elements of both arrays.
  unfoldable pub IsHead : Ptr → Type 0
  IsHead p =
      (is_v6 : Bool) × (i : ℕ) × (j : ℕ) × (i < lcore_max_slot)
      × (j < node_list_max_sz)
      × (p ≡ head is_v6 i j)

  module _ (jhash : (is_v6 : Bool) → (addr initval : ℕ) → ℕ) where
    -- The bucket of a packet.
    abbrev pub bucket_of : Static → Arrival → Ptr
    bucket_of s a =
        head a.is_v6 a.coreid (slot (jhash a.is_v6 a.probe.addr (s.hash_initval a.coreid)))

    abbrev pub call : Static → Arrival → Call
    call s a = record { limits = s.limits; head = bucket_of s a; fresh = a.fresh; clock = a.clock }

    -- The call of the packet's detector.
    unfoldable pub detect : Static → Arrival → Memory → Run Bool
    detect s a m =
        if a.is_v6
        then v6detect enough (call s a) a.probe m
        else v4detect enough (call s a) a.probe m

    -- The items of each bucket after the packet, by those before it: a source without an item gets
    -- the oldest item of a full bucket, which then ends there, or else the one from the pool.
    abbrev pub after : Static → Memory → (Ptr → List Ptr) → Arrival → Ptr → List Ptr
    after s m items a =
        let xs = items (bucket_of s a) in
        let found = search_items m.node a.probe.addr xs mtime_max 0 null in
        if found.item == null
        then (if found.cnt == full
            then update items (bucket_of s a) (up_to found.old xs)
            else elim a.fresh as (λ _. Ptr → List Ptr) [
              | none ↦ items
              | some item ↦ update items (bucket_of s a) (xs ++ item ∷ [])
            ])
        else items

    -- What is asked of a packet: it is on one of the cores; the item that the pool gives to a source
    -- without one is in no bucket, for the pool hands out each of its items once; and if a source
    -- without an item meets a full bucket, there is an oldest item in it, and it is not the last.
    pub record IsAdmitted (s : Static) (m : Memory) (items : Ptr → List Ptr) (a : Arrival)
        : Type 0 where
      pub core : a.coreid < lcore_max_slot
      pub usable :
          (item : Ptr)
          → Unknown m.node a.probe.addr (items (bucket_of s a))
          → length (items (bucket_of s a)) ≢ full
          → a.fresh ≡ some item
          → (item ≢ null) × (¬ (IsHead item)) × ((h : Ptr) → IsHead h → ¬ (In item (items h)))
      pub room :
          Unknown m.node a.probe.addr (items (bucket_of s a))
          → length (items (bucket_of s a)) ≡ full
          → let old =
              (search_items m.node a.probe.addr (items (bucket_of s a)) mtime_max 0 null).old in
            (old ≢ null) × (old ≢ last (bucket_of s a) (items (bucket_of s a)))

    -- What can be reached from the start, packet by packet, with the items of each bucket.
    pub data Reach (s : Static) (start : Memory) : Memory → (Ptr → List Ptr) → Type 0 where
      begin : Reach s start (init_heads lcore_max_slot 0 start) (λ _. [])
      next :
          {m m' : Memory} {items : Ptr → List Ptr} {alarm : Bool}
          → Reach s start m items
          → (a : Arrival) → IsAdmitted s m items a
          → detect s a m ≡ ok alarm m'
          → Reach s start m' (after s m items a)
