-- ===== src/Ddos/Table/Runs.antt =====
-- The table from its start on, packet by packet.
use uaflow.Prelude.{ℕ, ◌<◌, ◌≡◌, sym, ◌∙◌, Bool, List, [], arith}
use uaflow.Dpdk.{lcore_max_slot}
use uaflow.Ddos.{everynode_entry_max_sz}
use uaflow.Ddos.Items.{Ptr, Memory, ok}
use uaflow.Ddos.Table.{
  Static, Arrival, detect, after, init_heads, IsHead, IsAdmitted, Reach, begin, next,
}
use uaflow.Ddos.Table.Frame.{init_heads-IsBucket}
use uaflow.Ddos.Table.Packet.{IsTable}
use uaflow.Ddos.Table.Served.{Served, packet-Served}

module _ (head : (is_v6 : Bool) → (coreid slot : ℕ) → Ptr)
    (jhash : (is_v6 : Bool) → (addr initval : ℕ) → ℕ) (s : Static) where
  pub begin-IsTable :
      (start : Memory) → IsTable head s.limits (init_heads head lcore_max_slot 0 start) (λ _. [])
  unfolding IsHead
  begin-IsTable start = record {
    bucket =
        λ h (v, i, j, core, small, at). rw at (init_heads-IsBucket head start v i j core small);
    bounded = λ h at. omega arith;
    not_head = λ h g at to there. there;
    apart = λ h g x at to there _. absurd there;
    sole = λ h x y at there _ _. absurd there;
    fits = λ h x at there. absurd there;
  }

  ok-memory : {a b : Bool} {m n : Memory} → ok a m ≡ ok b n → n ≡ m
  ok-memory e = cc

  -- Whatever packets came before, the table is well formed, where the limit is below the length of
  -- the array of entries.
  pub Reach-IsTable :
      {start m : Memory} {items : Ptr → List Ptr}
      → s.limits.number < everynode_entry_max_sz
      → Reach head jhash s start m items
      → IsTable head s.limits m items
  unfolding Served
  Reach-IsTable {start} room begin = begin-IsTable start
  Reach-IsTable {start} room (next {m} {m'} {items} r a ad run) =
      let (alarm, m1, run1, t) =
        packet-Served head jhash s m items a room (Reach-IsTable room r) ad in
      rw (← ok-memory (sym run ∙ run1)) t

  -- Where the limit is below the length of the array of entries: from the start by
  -- `flow_ddos_module_init` on, whatever admitted packets came before, the detector returns for
  -- every further admitted packet, after at most eleven rounds of its loop and without a use of a
  -- null pointer or an access outside an array; and afterwards the buckets are again circular
  -- lists that share no item and have one item at most for a source. A packet is admitted if it
  -- is on one of the 32 cores, the item that the pool gives to a source without one is no null
  -- pointer, no bucket's head and in no bucket, and, where a source without an item meets a full
  -- bucket, the bucket has an oldest item and that is not its last.
  pub Reach-detect :
      {start m : Memory} {items : Ptr → List Ptr}
      → s.limits.number < everynode_entry_max_sz
      → Reach head jhash s start m items
      → (a : Arrival) → IsAdmitted head jhash s m items a
      → (alarm : Bool) × (m' : Memory) × (detect head jhash s a m ≡ ok alarm m')
        × Reach head jhash s start m' (after head jhash s m items a)
        × IsTable head s.limits m' (after head jhash s m items a)
  unfolding Served
  Reach-detect {m} {items} room r a ad =
      let (alarm, m', run, t) =
        packet-Served head jhash s m items a room (Reach-IsTable room r) ad in
      (alarm, m', run, next r a ad run, t)
