-- ===== src/Prelude/Bits.antt =====
-- Laws of `&` on unsigned numbers, by the recursion on the lowest binary digit.
use Prim.Native.Nat.{
  ℕ, zero, suc, ◌+◌, ◌-◌, ◌*◌, ◌/◌, ◌%◌, ◌^◌, ◌≤◌, ◌<◌, min, bit_and, digits, bit_and-bitwise,
}
use mathlib.Core.Path.{◌≡◌, refl, sym, ap, ◌∙◌}
use native.Mathlib.Nat.{pow-suc, one-le-pow, div-add-mod, div-div-eq-div-mul}
use native.Mathlib.Omega.{arith}

-- `&` on the lowest `rounds` digits of the second argument.
abbrev low_and : (mask rounds x : ℕ) → ℕ
low_and mask rounds x = digits (λ b. zero) min rounds x mask

low_and-zero : (mask rounds : ℕ) → low_and mask rounds 0 ≡ 0
low_and-zero mask zero = refl
low_and-zero mask (suc rounds) = refl

-- Rounds beyond the number itself add nothing.
low_and-add :
    (rounds more x mask : ℕ) → x ≤ rounds → low_and mask (rounds + more) x ≡ low_and mask rounds x
low_and-add rounds more zero mask h =
    low_and-zero mask (rounds + more) ∙ sym (low_and-zero mask rounds)
low_and-add zero more (suc x) mask h = elim h [ ]
low_and-add (suc rounds) more (suc x) mask h =
    let halves = low_and-add rounds more (suc x / 2) (mask / 2) (omega arith) in
    let moved : suc rounds + more ≡ suc (rounds + more) = omega arith in
    ap (λ n. low_and mask n (suc x)) moved ∙ omega (halves, arith)

bit_and-low_and : (more x mask : ℕ) → bit_and x mask ≡ low_and mask (x + more) x
bit_and-low_and more x mask = bit_and-bitwise x mask ∙ sym (low_and-add x more x mask (omega arith))

zero-bit_and : (mask : ℕ) → bit_and 0 mask ≡ 0
zero-bit_and mask = bit_and-low_and 0 0 mask

pub bit_and_step : (a b : ℕ) → bit_and a b ≡ bit_and (a / 2) (b / 2) * 2 + min (a % 2) (b % 2)
bit_and_step zero mask = omega (zero-bit_and mask, zero-bit_and (mask / 2), arith)
bit_and_step (suc x) mask =
    let spare = x - suc x / 2 in
    let rounds : suc x / 2 + spare ≡ x = omega arith in
    let half =
      bit_and-low_and spare (suc x / 2) (mask / 2)
      ∙ ap (λ n. low_and (mask / 2) n (suc x / 2)) rounds in
    omega (half, bit_and-bitwise (suc x) mask, arith)

le_fuel : (n a b : ℕ) → a ≤ n → bit_and a b ≤ b
le_fuel n zero b h = omega (zero-bit_and b, arith)
le_fuel zero (suc a) b h = absurd (omega arith)
le_fuel (suc n) (suc a) b h =
    omega (arith, bit_and_step (suc a) b, le_fuel n (suc a / 2) (b / 2) (omega arith))

-- A mask bounds the result.
pub bit_and-le : (a b : ℕ) → bit_and a b ≤ b
bit_and-le a b = le_fuel a a b (omega arith)

mod_double : (a p : ℕ) → 0 < p → a % (2 * p) ≡ a / 2 % p * 2 + a % 2
mod_double a p h = omega (
  arith,
  div-add-mod a (2 * p),
  div-add-mod (a / 2) p,
  ap (λ (t : ℕ). p * t) (div-div-eq-div-mul a 2 p),
)

-- A mask of `k` ones is the remainder by `2 ^ k`.
pub bit_and-ones : (k a : ℕ) → bit_and a (2 ^ k - 1) ≡ a % 2 ^ k
bit_and-ones zero a = omega (arith, bit_and-le a 0)
bit_and-ones (suc k) a =
    let pos = one-le-pow k 2 (omega arith) in
    let twice : 2 ^ suc k ≡ 2 * 2 ^ k = omega (arith, pow-suc 2 k) in
    let half : (2 ^ suc k - 1) / 2 ≡ 2 ^ k - 1 = omega arith in
    let odd : (2 ^ suc k - 1) % 2 ≡ 1 = omega arith in
    bit_and_step a (2 ^ suc k - 1)
    ∙ rw (half, odd, bit_and-ones k (a / 2), twice) (omega (arith, mod_double a (2 ^ k) pos))
