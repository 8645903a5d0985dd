-- ===== src/Dpdk/Outcomes.antt =====
-- What a set-up that ends normally says of its steps.
use uaflow.Prelude.{◌≡◌, refl, Bool, true, false}
use uaflow.Dpdk.{Outcome, ok, exited, overflow, must, ◌>>=◌}

pub bind-ok :
    {A B : Type 0} (m : Outcome A) (f : A → Outcome B) (b : B)
    → (m >>= f) ≡ ok b
    → (a : A) × (m ≡ ok a) × (f a ≡ ok b)
bind-ok (ok a) f b h = (a, refl, h)
bind-ok exited f b h = cc
bind-ok overflow f b h = cc

pub ok-injective : {A : Type 0} (a b : A) → ok a ≡ ok b → a ≡ b
ok-injective a b h = cc

pub must-ok : (b : Bool) {u : Unit {0}} → must b ≡ ok u → b ≡ true
must-ok true h = refl
must-ok false h = cc
