-- ===== src/Prelude/Decimal.antt =====
-- Numbers in decimal notation: what `%d`, `%u`, `atoi` and `sscanf` of the C library do.
use Prim.Native.Nat.{ℕ, zero, suc, ◌+◌, ◌-◌, ◌*◌, ◌/◌, ◌%◌, ◌^◌, ◌≤◌, ◌<◌}
use mathlib.Core.Path.{◌≡◌, ap, ◌∙◌}
use mathlib.Core.Bool.{Bool, true, ◌&&◌, ◌||◌}
use mathlib.Core.List.{List, [], ◌∷◌, ◌++◌, append_assoc}
use native.Mathlib.Nat.{pow-suc}
use native.Mathlib.Omega.{arith}
use uaflow.Prelude.{
  ltb, leb, ◌==◌, if◌then◌else◌, length, length-append, Bool-cases, inl, inr, ltb→lt, lt→ltb,
}

abbrev pub is_digit : ℕ → Bool
is_digit c = leb b'0' c && leb c b'9'

-- The value of the digits in front, behind digits of the value `acc`.
unfoldable pub digits_value : ℕ → List ℕ → ℕ
digits_value acc [] = acc
digits_value acc (c ∷ s) = if is_digit c then digits_value (acc * 10 + (c - b'0')) s else acc

signed_value : List ℕ → ℕ
signed_value [] = 0
signed_value (c ∷ s) =
    if c == b'-'
    then (2 ^ 32 - digits_value 0 s % 2 ^ 32) % 2 ^ 32
    else if c == b'+'
    then digits_value 0 s % 2 ^ 32
    else digits_value 0 (c ∷ s) % 2 ^ 32

-- `atoi`, in 32 bits.
unfoldable pub atoi : List ℕ → ℕ
unfolding signed_value digits_value
atoi [] = 0
atoi (c ∷ s) = if c == b' ' || (leb 9 c && leb c 13) then atoi s else signed_value (c ∷ s)

signed_value-lt : (s : List ℕ) → signed_value s < 2 ^ 32
unfolding signed_value
signed_value-lt [] = omega arith
signed_value-lt (c ∷ s) = ground arith

pub atoi-lt : (s : List ℕ) → atoi s < 2 ^ 32
unfolding atoi
atoi-lt [] = omega arith
atoi-lt (c ∷ s) = ground (arith, atoi-lt s, signed_value-lt (c ∷ s))

-- The decimal digits of a number, for `rounds` digits at most.
unfoldable pub digits_of : (rounds n : ℕ) → List ℕ
digits_of zero n = []
digits_of (suc rounds) n =
    let front = digits_of rounds (n / 10) in
    if ltb n 10 then (b'0' + n) ∷ [] else front ++ (b'0' + n % 10) ∷ []

-- `%u` and, for a number that is not negative, `%d`.
unfoldable pub decimal : ℕ → List ℕ
decimal n = digits_of (suc n) n

digits_value-digit :
    (acc d : ℕ) (s : List ℕ)
    → d < 10
    → digits_value acc ((b'0' + d) ∷ s) ≡ digits_value (acc * 10 + d) s
unfolding digits_value
digits_value-digit acc d s h =
    let test : is_digit (b'0' + d) ≡ true = ground arith in
    rw test (ap (λ k. digits_value k s) (omega arith))

digits_value-digits_of :
    (rounds n : ℕ) (s : List ℕ)
    → n < rounds
    → digits_value 0 (digits_of rounds n ++ s) ≡ digits_value n s
unfolding digits_of
digits_value-digits_of zero n s h = elim h [ ]
digits_value-digits_of (suc rounds) n s h = elim (Bool-cases (ltb n 10)) [
  | inl e ↦
      rw e (digits_value-digit 0 n s (ltb→lt n 10 e) ∙ ap (λ k. digits_value k s) (omega arith))
  | inr e ↦
      let units = (b'0' + n % 10) ∷ [] in
      rw e (
        rw (append_assoc (digits_of rounds (n / 10)) units s) (
          digits_value-digits_of rounds (n / 10) ((b'0' + n % 10) ∷ s) (ground arith)
          ∙ digits_value-digit (n / 10) (n % 10) s (omega arith)
          ∙ ap (λ k. digits_value k s) (omega arith)))
]

-- What is printed is read back, whatever follows.
pub digits_value-decimal : (n : ℕ) (s : List ℕ) → digits_value 0 (decimal n ++ s) ≡ digits_value n s
unfolding decimal
digits_value-decimal n s = digits_value-digits_of (suc n) n s (omega arith)

length-digits_of : (rounds k n : ℕ) → n < 10 ^ k → 0 < k → length (digits_of rounds n) ≤ k
unfolding digits_of
length-digits_of zero k n h p = omega arith
length-digits_of (suc rounds) zero n h p = absurd (omega arith)
length-digits_of (suc rounds) (suc zero) n h p = rw (lt→ltb n 10 h) (omega arith)
length-digits_of (suc rounds) (suc (suc k)) n h p =
    let tenth : n / 10 < 10 ^ suc k = omega (arith, pow-suc 10 (suc k)) in
    elim (Bool-cases (ltb n 10)) [
      | inl e ↦ rw e (omega arith)
      | inr e ↦ rw e (
          omega (
            arith,
            length-append (digits_of rounds (n / 10)) ((b'0' + n % 10) ∷ []),
            length-digits_of rounds (suc k) (n / 10) tenth (omega arith),
          ))
    ]

-- A number below a power of ten has no more digits than the power says.
pub length-decimal : (k n : ℕ) → n < 10 ^ k → 0 < k → length (decimal n) ≤ k
unfolding decimal
length-decimal k n h p = length-digits_of (suc n) k n h p

digits_of-head :
    (rounds n : ℕ)
    → n < rounds
    → (c : ℕ) × (s : List ℕ) × (digits_of rounds n ≡ c ∷ s) × (is_digit c ≡ true)
unfolding digits_of
digits_of-head zero n h = absurd (omega arith)
digits_of-head (suc rounds) n h = elim (Bool-cases (ltb n 10)) [
  | inl e ↦ (b'0' + n, [], rw e, ground arith)
  | inr e ↦
      let (c, s, front, digit) = digits_of-head rounds (n / 10) (ground arith) in
      (c, s ++ (b'0' + n % 10) ∷ [], rw (e, front), digit)
]

-- What is printed begins with a digit.
pub decimal-head : (n : ℕ) → (c : ℕ) × (s : List ℕ) × (decimal n ≡ c ∷ s) × (is_digit c ≡ true)
unfolding decimal
decimal-head n = digits_of-head (suc n) n (omega arith)
