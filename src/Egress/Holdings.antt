-- ===== src/Egress/Holdings.antt =====
-- Every place where a packet can be, and counting packets there.
use uaflow.Prelude.{ℕ, ◌+◌, ◌≡◌, List, [], ◌∷◌, ◌++◌, arith, ◌==◌, if◌then◌else◌}
use uaflow.Egress.{Sent, RingQueue, World}

unfoldable pub count : ℕ → List ℕ → ℕ
count a [] = 0
count a (x ∷ xs) = (if a == x then 1 else 0) + count a xs

pub count-append : (a : ℕ) (xs ys : List ℕ) → count a (xs ++ ys) ≡ count a xs + count a ys
unfolding count
count-append a [] ys = omega arith
count-append a (x ∷ xs) ys = omega (arith, count-append a xs ys)

abbrev pub packets : List Sent → List ℕ
packets [] = []
packets (s ∷ ss) = s.packet ∷ packets ss

-- How often a packet is held: in the ring, by the device, or given back.
unfoldable pub held : (q : RingQueue) → ℕ → World q → ℕ
held q a w = count a (q.items w.ring) + count a (packets w.sent) + count a w.freed
