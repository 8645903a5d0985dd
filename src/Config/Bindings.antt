-- ===== src/Config/Bindings.antt =====
-- The lists of ports: each entry is bound to its own device.
use uaflow.Prelude.{
  ℕ, zero, suc, ◌+◌, ◌≤◌, ◌<◌, ◌≡◌, refl, ==_refl, Bool, true, false, List, [], ◌∷◌, ◌++◌, arith,
  ◌==◌, inl, inr, ◌⊎◌, Bool-cases,
}
use native.Mathlib.Decide.{ℕ_discrete}
use uaflow.Config.{Idx}
use uaflow.Config.Devices.{attach_from, claim, set_last, push_idx}

-- Every entry of the list is bound.
abbrev pub AllBound : List Idx → Type 0
AllBound [] = Unit {0}
AllBound (e ∷ es) = (e.to ≡ true) × AllBound es

claim-append :
    (port itemid : ℕ) (es : List Idx)
    → AllBound es
    → claim itemid (es ++ record { to = false; idx = 0; itemid = itemid } ∷ [])
      ≡ (es ++ record { to = true; idx = 0; itemid = itemid } ∷ [], true)
unfolding claim
claim-append port itemid [] b = rw (==_refl itemid)
claim-append port itemid (e ∷ es) b =
    rw (b.0, claim-append port itemid es b.1)
      (elim (Bool-cases (e.itemid == itemid)) [ inl h ↦ rw h | inr h ↦ rw h ])

set_last-append :
    (v : ℕ) (e : Idx) (es : List Idx) → set_last v (es ++ e ∷ []) ≡ es ++ record e { idx = v } ∷ []
unfolding set_last
set_last-append v e [] = refl
set_last-append v e (x ∷ []) = refl
set_last-append v e (x ∷ y ∷ es) = rw (set_last-append v e (y ∷ es))

AllBound-append : (e : Idx) (es : List Idx) → AllBound es → e.to ≡ true → AllBound (es ++ e ∷ [])
AllBound-append e [] b h = (h, tt)
AllBound-append e (x ∷ es) b h = (b.0, AllBound-append e es b.1 h)

-- Where every entry of a list of ports is bound, a new one is bound to its own device at once, also
-- where its number occurs in the list already; the entries before it do not change, and all of them
-- are bound again.
pub push_idx-AllBound :
    (port itemid : ℕ) (es : List Idx)
    → AllBound es
    → (push_idx port itemid es ≡ es ++ record { to = true; idx = port; itemid = itemid } ∷ [])
      × AllBound (push_idx port itemid es)
unfolding push_idx
push_idx-AllBound port itemid es b =
    let e : Idx = record { to = true; idx = 0; itemid = itemid } in
    let bound : Idx = record { to = true; idx = port; itemid = itemid } in
    let whole : push_idx port itemid es ≡ es ++ bound ∷ [] =
      rw (claim-append port itemid es b) (set_last-append port e es) in
    (whole, rw whole (AllBound-append bound es b refl))

-- The port that is chosen for a device is the first one that the check accepts; where it accepts
-- none, it is port 0.
pub attach_from-first :
    (check : ℕ → Bool) (left i : ℕ)
    → ((check (attach_from check left i) ≡ true)
        × (i ≤ attach_from check left i)
        × (attach_from check left i < i + left)
        × ((j : ℕ) → i ≤ j → j < attach_from check left i → check j ≡ false))
      ⊎ ((attach_from check left i ≡ 0) × ((j : ℕ) → i ≤ j → j < i + left → check j ≡ false))
unfolding attach_from
attach_from-first check zero i = inr (refl, λ j p q. absurd (omega arith))
attach_from-first check (suc left) i = elim (Bool-cases (check i)) [
  | inl e ↦ rw e (inl (e, omega arith, omega arith, λ j p q. absurd (omega arith)))
  | inr e ↦ rw e (elim (attach_from-first check left (i + 1)) [
    | inl (found, low, high, first) ↦ inl (
      found,
      omega arith,
      omega arith,
      λ j p q. elim (ℕ_discrete j i) [
        | yes same ↦ rw (same, e)
        | no other ↦ first j (omega arith) q
      ],
    )
    | inr (zero_port, none_found) ↦ inr (
      zero_port,
      λ j p q. elim (ℕ_discrete j i) [
        | yes same ↦ rw (same, e)
        | no other ↦ none_found j (omega arith) (omega arith)
      ],
    )
  ])
]
