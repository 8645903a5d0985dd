-- ===== src/Tests/Scans.antt =====
-- Scans of several ports, on the buckets of the detector's tests.
use uaflow.Prelude.{◌≡◌, refl, true, false, List, [], ◌∷◌, arith, inl, inr}
use uaflow.Ddos.Items.{Memory, ok}
use uaflow.Ddos.Burst.{burst}
use uaflow.Ddos.NewSource.{at_last, burst-at_last}
use uaflow.Ddos.Moved.{Paced, pace, silent, pace-silent}
use uaflow.Tests.Ddos.{two_items, two_items-IsBucket, call}

burst-at_last_example :
    (m' : Memory) × (burst true 5 call 6 (443 ∷ 80 ∷ 22 ∷ []) two_items
      ≡ ok (at_last (80 ∷ 22 ∷ [])) m')
burst-at_last_example =
    burst-at_last true 5 call 6 443 1000 two_items (1 ∷ 2 ∷ []) 3 two_items-IsBucket (omega arith)
      (λ t. refl) (omega arith) (omega arith) (omega arith) refl (omega arith) (omega arith)
      (omega arith) (omega arith) (80 ∷ 22 ∷ []) (ground arith) refl

-- Three ports, each a millisecond after the one before it.
abbrev slow : List Paced
slow =
    record { after = 1; port = 443 }
    ∷ record { after = 1; port = 22 }
    ∷ record { after = 1; port = 8080 }
    ∷ []

pace-silent_example :
    (m' : Memory) × (pace false 5 call 77 1000 slow two_items ≡ ok (silent slow) m')
pace-silent_example =
    pace-silent false 5 call 77 2 (1 ∷ 2 ∷ []) (omega arith) (omega arith) (omega arith) slow 1000
      two_items two_items-IsBucket (inr (omega arith, inl (refl, refl))) (omega arith) refl
      (omega arith) (omega arith)
