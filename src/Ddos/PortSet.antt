-- ===== src/Ddos/PortSet.antt =====
-- The ports of a source as a set: neither their order nor their places in the array matter.
use mathlib.Core.Quot
use mathlib.Core.Quot.{Quot, Quot-set}
use uaflow.Prelude.{
  ℕ, ◌≡◌, refl, ap, sym, ◌∙◌, Bool, false, ◌||◌, List, [], ◌∷◌, ◌==◌, length, arith, inl, inr,
  Bool-cases,
}
use uaflow.Ddos.Alarm.{has, judge, counted, counted-judge}

-- Two lists with the same ports, as many of them.
abbrev pub SamePorts : List ℕ → List ℕ → Type 0
SamePorts xs ys = ((port : ℕ) → has port xs ≡ has port ys) × (length xs ≡ length ys)

abbrev pub PortSet : Type 0
PortSet = Quot SamePorts

abbrev pub no_ports : PortSet
no_ports = Quot.mk []

SamePorts-cons : (port : ℕ) (xs ys : List ℕ) → SamePorts xs ys → SamePorts (port ∷ xs) (port ∷ ys)
unfolding has
SamePorts-cons port xs ys h =
    (λ q. ap (λ b. port == q || b) (h.0 q), let long = h.1 in omega (arith, long))

-- One packet on a set of ports that is given by a list.
abbrev of_list : Bool × List ℕ → Bool × PortSet
of_list (alarm, ports) = (alarm, Quot.mk ports)

judge-SamePorts :
    (number port : ℕ) (xs ys : List ℕ)
    → SamePorts xs ys
    → of_list (judge number xs port) ≡ of_list (judge number ys port)
unfolding judge
judge-SamePorts number port xs ys h = elim (Bool-cases (has port ys)) [
  | inl e ↦ rw (h.0 port, e) (ap (λ s. (false, s)) (Quot.sound h))
  | inr e ↦ elim (Bool-cases (length ys == number)) [
    | inl full ↦ rw (h.0 port, e, h.1, full) refl
    | inr less ↦
        rw (h.0 port, e, h.1, less)
          (ap (λ s. (false, s)) (Quot.sound (SamePorts-cons port xs ys h)))
  ]
]

-- One packet against the set of ports of its source.
judge_set : (number : ℕ) → PortSet → (port : ℕ) → Bool × PortSet
unfolding judge
judge_set number seen port =
    Quot.lift (hlevel (Quot-set)) (λ ports. of_list (judge number ports port))
      (λ xs ys h. judge-SamePorts number port xs ys h) seen

pub set_verdicts : (number : ℕ) → PortSet → (ports : List ℕ) → List Bool
unfolding judge_set
set_verdicts number seen [] = []
set_verdicts number seen (port ∷ ports) =
    let (alarm, after) = judge_set number seen port in alarm ∷ set_verdicts number after ports

pub set_verdicts-counted :
    (number : ℕ) (ports seen : List ℕ)
    → set_verdicts number (Quot.mk seen) ports ≡ counted number seen ports
unfolding set_verdicts judge_set counted
set_verdicts-counted number [] seen = refl
set_verdicts-counted number (port ∷ ports) seen =
    let (alarm, after) = judge number seen port in
    ap (λ vs. alarm ∷ vs) (set_verdicts-counted number ports after)
    ∙ sym (counted-judge number port seen ports alarm after refl)
