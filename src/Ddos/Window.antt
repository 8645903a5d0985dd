-- ===== src/Ddos/Window.antt =====
-- The detector's window: which entries still count as valid when time has passed.
use uaflow.Prelude.{ℕ, ◌+◌, ◌-◌, ◌*◌, ◌%◌, ◌^◌, ◌<◌, ◌≡◌, arith, lt→ltb}
use uaflow.Ddos.Items.{Node}
use uaflow.Ddos.{Limits, elapsed}
use uaflow.Ddos.Account.{live}

elapsed-moved :
    (m d : ℕ)
    → m < 2 ^ 32
    → 0 < d
    → d * 1000 < 2 ^ 32
    → elapsed m ((m + d) % 2 ^ 32) ≡ 2 ^ 32 - d * 1000
unfolding elapsed
elapsed-moved m d small moved window = omega arith

-- The time that has passed is taken the wrong way round. Where the clock has moved on by any `d`
-- above 0 since the last packet, and `d * 1000` and the configured time together are below 2 ^ 32,
-- the difference wraps, and no entry counts as valid any more.
pub live-moved :
    (l : Limits) (n : Node) (d : ℕ)
    → n.modtime < 2 ^ 32
    → 0 < d
    → d * 1000 + l.millisecond < 2 ^ 32
    → live l ((n.modtime + d) % 2 ^ 32) n ≡ 0
unfolding live
live-moved l n d small moved window =
    let past = elapsed-moved n.modtime d small moved (omega arith) in
    rw (past, lt→ltb l.millisecond (2 ^ 32 - d * 1000) (omega arith))

pub live-still : (l : Limits) (n : Node) → n.modtime < 2 ^ 32 → live l n.modtime n ≡ n.n_packets
unfolding live elapsed
live-still l n small = ground arith
