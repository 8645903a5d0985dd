-- ===== src/Tests/Table.antt =====
-- The detector's table with one packet.
use uaflow.Prelude.{ℕ, ◌+◌, ◌*◌, ◌≡◌, Bool, true, false, some, [], arith, if◌then◌else◌}
use mathlib.Core.Option.{some-injective}
use uaflow.Dpdk.{lcore_max_slot}
use uaflow.Ddos.Items.{Ptr, null, Memory, zero_node, ok}
use uaflow.Ddos.Ring.{IsBucket}
use uaflow.Ddos.Table.{Static, Arrival, init_heads, detect, after, IsHead, IsAdmitted, Reach, begin}
use uaflow.Ddos.Table.Frame.{init_heads-IsBucket}
use uaflow.Ddos.Table.Packet.{IsTable}
use uaflow.Ddos.Table.Runs.{Reach-detect}

-- Two arrays behind one another.
abbrev pub head_at : Bool → ℕ → ℕ → Ptr
head_at v i j = if v then 500000 + i * 10240 + j else 1 + i * 10240 + j

abbrev pub static : Static
static = record { limits = record { number = 2; millisecond = 5000 }; hash_initval = λ i. 9 }

abbrev pub unset : Memory
unset = record { next = λ p. null; prev = λ p. null; node = λ p. zero_node }

abbrev pub sum : Bool → ℕ → ℕ → ℕ
sum v addr initval = addr + initval

abbrev packet : Arrival
packet = record {
  is_v6 = false;
  coreid = 3;
  probe = record { addr = 77; port = 443 };
  fresh = some 1000000;
  clock = λ t. 1000;
}

beyond_heads : ¬ (IsHead head_at 1000000)
unfolding IsHead
beyond_heads (true, i, j, core, small, e) = omega arith
beyond_heads (false, i, j, core, small, e) = omega arith

packet-IsAdmitted :
    IsAdmitted head_at sum static (init_heads head_at lcore_max_slot 0 unset) (λ _. []) packet
packet-IsAdmitted = record {
  core = omega arith;
  usable = λ item unknown room e.
      let same = some-injective 1000000 item e in
      rw (← same) (omega arith, beyond_heads, λ h at there. there);
  room = λ unknown filled. absurd (omega arith);
}

Reach-detect_example :
    (alarm : Bool) × (m' : Memory) × (detect head_at sum static packet
        (init_heads head_at lcore_max_slot 0 unset)
      ≡ ok alarm m')
    × Reach head_at sum static unset m'
        (after head_at sum static (init_heads head_at lcore_max_slot 0 unset) (λ _. []) packet)
    × IsTable head_at static.limits m'
        (after head_at sum static (init_heads head_at lcore_max_slot 0 unset) (λ _. []) packet)
Reach-detect_example = Reach-detect head_at sum static (omega arith) begin packet packet-IsAdmitted

init_heads-IsBucket_example :
    IsBucket (init_heads head_at lcore_max_slot 0 unset) (head_at true 31 10239) []
init_heads-IsBucket_example =
    init_heads-IsBucket head_at unset true 31 10239 (omega arith) (omega arith)
