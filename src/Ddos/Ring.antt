-- ===== src/Ddos/Ring.antt =====
-- The buckets as circular lists, and `list_add_tail` on them.
use uaflow.Prelude.{◌≡◌, refl, sym, ◌∙◌, ◌≢◌, List, [], ◌∷◌, ◌++◌}
use uaflow.Ddos.Items.{Ptr, null, Memory}

abbrev pub NotIn : Ptr → List Ptr → Type 0
NotIn p [] = Unit
NotIn p (x ∷ xs) = (p ≢ x) × NotIn p xs

abbrev pub Distinct : List Ptr → Type 0
Distinct [] = Unit
Distinct (x ∷ xs) = NotIn x xs × Distinct xs

-- Behind `x` the links lead through the items and back to the head.
abbrev pub Links : (Ptr → Ptr) → (head x : Ptr) → List Ptr → Type 0
Links next head x [] = next x ≡ head
Links next head x (y ∷ ys) = (next x ≡ y) × (y ≢ head) × (y ≢ null) × Links next head y ys

abbrev pub last : Ptr → List Ptr → Ptr
last x [] = x
last x (y ∷ ys) = last y ys

-- A bucket: from its head the links lead through distinct items and back, and the head's other link
-- is to the last of them.
pub record IsBucket (m : Memory) (head : Ptr) (xs : List Ptr) : Type 0 where
  pub forward : Links m.next head head xs
  pub backward : m.prev head ≡ last head xs
  pub outside : NotIn head xs
  pub distinct : Distinct xs

ne-last : (p x : Ptr) (xs : List Ptr) → p ≢ x → NotIn p xs → p ≢ last x xs
ne-last p x [] ne out = ne
ne-last p x (y ∷ ys) ne out = ne-last p y ys out.0 out.1

NotIn-append : (p q : Ptr) (xs : List Ptr) → NotIn p xs → p ≢ q → NotIn p (xs ++ q ∷ [])
NotIn-append p q [] out ne = (ne, tt)
NotIn-append p q (x ∷ xs) out ne = (out.0, NotIn-append p q xs out.1 ne)

Distinct-append : (q : Ptr) (xs : List Ptr) → Distinct xs → NotIn q xs → Distinct (xs ++ q ∷ [])
Distinct-append q [] d out = (tt, tt)
Distinct-append q (x ∷ xs) d out =
    (NotIn-append x q xs d.0 (λ e. out.0 (sym e)), Distinct-append q xs d.1 out.1)

pub last-append : (x q : Ptr) (xs : List Ptr) → last x (xs ++ q ∷ []) ≡ q
last-append x q [] = refl
last-append x q (y ∷ ys) = last-append y q ys

-- `next'` leads from the last of `xs` to `new`, from there to the head, and elsewhere as before.
record Extends (next next' : Ptr → Ptr) (head new end : Ptr) : Type 0 where
  from_new : next' new ≡ head
  from_end : next' end ≡ new
  elsewhere : (p : Ptr) → p ≢ new → p ≢ end → next' p ≡ next p

Links-append :
    {next next' : Ptr → Ptr} {head new : Ptr} (x : Ptr) (xs : List Ptr)
    → Extends next next' head new (last x xs)
    → new ≢ head
    → new ≢ null
    → x ≢ new
    → NotIn x xs
    → NotIn new xs
    → Distinct xs
    → Links next head x xs
    → Links next' head x (xs ++ new ∷ [])
Links-append x [] e nh nn xn out new_out d l = (e.from_end, nh, nn, e.from_new)
Links-append x (y ∷ ys) e nh nn xn out new_out d l = (
  e.elsewhere x xn (ne-last x y ys out.0 out.1) ∙ l.0,
  l.1,
  l.2,
  Links-append y ys e nh nn (λ s. new_out.0 (sym s)) d.0 new_out.1 d.1 l.3,
)

-- What a memory looks like once `new` has been put at the end of the bucket.
pub record Appends (m m' : Memory) (head new : Ptr) : Type 0 where
  pub from_new : m'.next new ≡ head
  pub from_end : m'.next (m.prev head) ≡ new
  pub elsewhere : (p : Ptr) → p ≢ new → p ≢ m.prev head → m'.next p ≡ m.next p
  pub backward : m'.prev head ≡ new
  pub before : (p : Ptr) → p ≢ new → p ≢ head → m'.prev p ≡ m.prev p

pub IsBucket-append :
    {m m' : Memory} {head new : Ptr} {xs : List Ptr}
    → Appends m m' head new
    → new ≢ head
    → new ≢ null
    → NotIn new xs
    → IsBucket m head xs
    → IsBucket m' head (xs ++ new ∷ [])
IsBucket-append {m} {m'} {head} {new} {xs} a nh nn out b = record {
  forward =
      Links-append head xs
        (record {
          from_new = a.from_new;
          from_end = rw (← b.backward) a.from_end;
          elsewhere = λ p ne other. a.elsewhere p ne (rw b.backward other);
        })
        nh nn (λ e. nh (sym e)) b.outside out b.distinct b.forward;
  backward = a.backward ∙ sym (last-append head new xs);
  outside = NotIn-append head new xs b.outside (λ e. nh (sym e));
  distinct = Distinct-append new xs b.distinct out;
}
