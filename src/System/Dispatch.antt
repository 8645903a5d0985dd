-- ===== src/System/Dispatch.antt =====
-- Where a request goes under the configuration that was loaded.
use uaflow.Prelude.{ℕ, ◌<◌, ◌≡◌}
use uaflow.Prelude.Int.{ℤ, pos}

-- A port that is no default.
abbrev Chosen : ℤ → Type 0
Chosen z = (n : ℕ) × (z ≡ pos n) × (0 < n)
