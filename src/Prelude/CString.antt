-- ===== src/Prelude/CString.antt =====
-- The functions of the C library on strings that the program calls. A string is a list of bytes;
-- what lies behind the list counts as the terminator.
use Prim.Native.Nat.{ℕ, zero, suc, ◌+◌, ◌-◌, ◌≤◌}
use mathlib.Core.Path.{◌≡◌, refl, ap}
use mathlib.Core.Bool.{Bool, true, false, ◌&&◌}
use mathlib.Core.List.{List, [], ◌∷◌, ◌++◌}
use mathlib.Core.Option.{some, some-injective, none-ne-some}
use native.Mathlib.Omega.{arith}
use uaflow.Prelude.{
  ◌==◌, ==_refl, ==_iff, leb, if◌then◌else◌, length, drop, take, replicate, length-append,
  length-drop, length-replicate, get_elem?, get_elem?-append, get_elem?-drop, ◌∙◌, Bool-cases, inl,
  inr,
}

unfoldable pub lower : ℕ → ℕ
lower c = if leb b'A' c && leb c b'Z' then c + 32 else c

-- `!strncasecmp(a, b, n)`
unfoldable pub eq_nocase : ℕ → List ℕ → List ℕ → Bool
unfolding lower
eq_nocase zero a b = true
eq_nocase (suc n) [] [] = true
eq_nocase (suc n) [] (y ∷ b) = y == 0
eq_nocase (suc n) (x ∷ a) [] = x == 0
eq_nocase (suc n) (x ∷ a) (y ∷ b) =
    if lower x == lower y then (if x == 0 then true else eq_nocase n a b) else false

-- The `n` bytes that `strncpy` writes: those of the string, and zeros behind its end.
unfoldable pub padded : ℕ → List ℕ → List ℕ
padded zero s = []
padded (suc n) [] = replicate (suc n) 0
padded (suc n) (x ∷ s) = if x == 0 then replicate (suc n) 0 else x ∷ padded n s

-- `strncpy(dst, src, n)`
unfoldable pub strncpy : (dst src : List ℕ) → ℕ → List ℕ
unfolding padded
strncpy dst src n = padded n src ++ drop n dst

-- The bytes in front of the terminator, and `strlen`.
unfoldable pub text : List ℕ → List ℕ
text [] = []
text (x ∷ s) = if x == 0 then [] else x ∷ text s

unfoldable pub strlen : List ℕ → ℕ
unfolding text
strlen s = length (text s)

-- `strcmp` and its kin, as a test for equality.
unfoldable pub eq_bytes : List ℕ → List ℕ → Bool
eq_bytes [] [] = true
eq_bytes [] (b ∷ bs) = false
eq_bytes (a ∷ s) [] = false
eq_bytes (a ∷ s) (b ∷ t) = a == b && eq_bytes s t

pub eq_bytes_refl : (s : List ℕ) → eq_bytes s s ≡ true
unfolding eq_bytes
eq_bytes_refl [] = refl
eq_bytes_refl (c ∷ s) = rw (==_refl c) (eq_bytes_refl s)

pub eq_bytes-true : (s t : List ℕ) → eq_bytes s t ≡ true → s ≡ t
unfolding eq_bytes
eq_bytes-true [] [] h = refl
eq_bytes-true [] (b ∷ t) h = cc
eq_bytes-true (a ∷ s) [] h = cc
eq_bytes-true (a ∷ s) (b ∷ t) h = elim (Bool-cases (a == b)) [
  | inl e ↦ let head = (==_iff a b).0 e in let tail = eq_bytes-true s t (rw e at h) in cc
  | inr e ↦ let bad : false ≡ true = rw e at h in cc
]

pub length-padded : (n : ℕ) (s : List ℕ) → length (padded n s) ≡ n
unfolding padded
length-padded zero s = refl
length-padded (suc n) [] = ap suc (length-replicate n 0)
length-padded (suc n) (x ∷ s) = elim (Bool-cases (x == 0)) [
  | inl e ↦ rw e (ap suc (length-replicate n 0))
  | inr e ↦ rw e (ap suc (length-padded n s))
]

-- Within the buffer, `strncpy` keeps its length.
pub length-strncpy :
    (dst src : List ℕ) (n : ℕ) → n ≤ length dst → length (strncpy dst src n) ≡ length dst
unfolding strncpy
length-strncpy dst src n h =
    omega (arith, length-append (padded n src) (drop n dst), length-padded n src, length-drop n dst)

-- Behind the bytes that `strncpy` writes the buffer is as it was.
pub get_elem?-strncpy :
    (dst src : List ℕ) (n i : ℕ) → n ≤ i → get_elem? (strncpy dst src n) i ≡ get_elem? dst i
unfolding strncpy
get_elem?-strncpy dst src n i h =
    let size = length-padded n src in
    get_elem?-append (padded n src) (drop n dst) i (omega arith)
    ∙ ap (λ k. get_elem? (drop n dst) (i - k)) size
    ∙ get_elem?-drop n dst i h

-- Into a buffer of zeros, `strncpy` leaves the string as far as it was copied.
pub text-zeros : (n : ℕ) → text (replicate n 0) ≡ []
unfolding text
text-zeros zero = refl
text-zeros (suc n) = refl

pub text-strncpy_zeros :
    (size n : ℕ) (src : List ℕ)
    → n ≤ size
    → text (strncpy (replicate size 0) src n) ≡ text (take n src)
unfolding strncpy padded text
text-strncpy_zeros size zero src h = text-zeros size
text-strncpy_zeros size (suc n) [] h = refl
text-strncpy_zeros zero (suc n) (x ∷ src) h = absurd (omega arith)
text-strncpy_zeros (suc size) (suc n) (x ∷ src) h = elim (Bool-cases (x == 0)) [
  | inl e ↦ rw e
  | inr e ↦ rw (e, e) (ap (λ t. x ∷ t) (text-strncpy_zeros size n src (omega arith)))
]

-- The same into a buffer that has a terminator behind the bytes that are written.
pub text-strncpy :
    (dst src : List ℕ) (n : ℕ)
    → get_elem? dst n ≡ some 0
    → text (strncpy dst src n) ≡ text (take n src)
unfolding strncpy padded text
text-strncpy [] src n h = absurd (none-ne-some 0 h)
text-strncpy (d ∷ dst) src zero h =
    let zero_byte : d ≡ 0 = some-injective d 0 h in rw ((==_iff d 0).1 zero_byte)
text-strncpy (d ∷ dst) [] (suc n) h = refl
text-strncpy (d ∷ dst) (x ∷ src) (suc n) h = elim (Bool-cases (x == 0)) [
  | inl e ↦ rw e
  | inr e ↦ rw (e, e) (ap (λ t. x ∷ t) (text-strncpy dst src n h))
]
