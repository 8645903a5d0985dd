-- ===== src/Current.antt =====
-- flow_current/flow_current.c: the clock that the main thread keeps and the workers read, in
-- milliseconds and 32 bits. The lock around it makes an update and a reading one step each.
use uaflow.Prelude.{ℕ, ◌+◌, ◌*◌, ◌/◌, ◌%◌, ◌^◌}

-- What `gettimeofday` yields.
pub record Timeval : Type 0 where
  pub tv_sec : ℕ
  pub tv_usec : ℕ

-- `flow_current_module_inside_getime`
unfoldable pub getime : Timeval → ℕ
getime tv = (tv.tv_sec * 1000 + tv.tv_usec / 1000) % 2 ^ 32

-- The static variable.
pub record Clock : Type 0 where
  pub flow_current_time : ℕ

-- `flow_current_module_init` and `flow_current_module_update`
unfoldable pub init : Timeval → Clock
init tv = record { flow_current_time = getime tv }

unfoldable pub update : Timeval → Clock → Clock
update tv c = record c { flow_current_time = getime tv }

-- `flow_current_module_get`
unfoldable pub get : Clock → ℕ
get c = c.flow_current_time
