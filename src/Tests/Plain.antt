-- ===== src/Tests/Plain.antt =====
-- A pattern automaton, and the tables that one key makes.
use mathlib.Core.Option.{some-injective}
use uaflow.Prelude.{
  In, ◌≡◌, ap, ◌∙◌, sym, true, Option, none, some, List, [], ◌∷◌, ◌++◌, ◌==◌, ==_iff, if◌then◌else◌,
  inl, inr, ◌⊎◌, Bool-cases, Option-cases,
}
use uaflow.Config.{Item, Key, Tables}
use uaflow.Config.Tree.{Bytes}
use uaflow.Config.Build.{Pattern, Automaton, adds}

-- An automaton that tries each pattern at each place of the text.
unfoldable pub strip : (t s : Bytes) → Option Bytes
strip [] s = some s
strip (c ∷ t) [] = none
strip (c ∷ t) (d ∷ s) = if c == d then strip t s else none

strip_lem : (t s : Bytes) {r : Bytes} → strip t s ≡ some r → s ≡ t ++ r
unfolding strip
strip_lem [] s h = some-injective _ _ h
strip_lem (c ∷ t) [] {r} h = let bad : none ≡ some r = h in cc
strip_lem (c ∷ t) (d ∷ s) {r} h = elim (Bool-cases (c == d)) [
  | inl e ↦ let head = (==_iff c d).0 e in let tail = strip_lem t s (rw e at h) in cc
  | inr e ↦ let bad : none ≡ some r = rw e at h in cc
]

unfoldable pub here : List Pattern → Bytes → Option Pattern
here [] s = none
here (p ∷ ps) s = elim (strip p.astring s) [ none ↦ here ps s | some r ↦ some p ]

unfoldable pub find : List Pattern → Bytes → Option Pattern
find ps [] = here ps []
find ps (c ∷ s) = elim (here ps (c ∷ s)) [ none ↦ find ps s | some p ↦ some p ]

abbrev Inside : Bytes → Bytes → Type 0
Inside t s = (before : Bytes) × (after : Bytes) × (s ≡ before ++ t ++ after)

here_lem :
    (ps : List Pattern) (s : Bytes) (p : Pattern)
    → here ps s ≡ some p
    → In p ps × ((r : Bytes) × (s ≡ p.astring ++ r))
unfolding here
here_lem [] s p h = let bad : none ≡ some p = h in cc
here_lem (q ∷ ps) s p h = elim (Option-cases (strip q.astring s)) [
  | inl e ↦ let (there, found) = here_lem ps s p (rw (e, here) at h) in (inr there, found)
  | inr (r, e) ↦
      let same : q ≡ p = some-injective q p (rw (e, here) at h) in
      let inside : s ≡ q.astring ++ r = strip_lem q.astring s e in
      (inl (sym same), (r, inside ∙ ap (λ (x : Pattern). x.astring ++ r) same))
]

find_lem :
    (ps : List Pattern) (s : Bytes) (p : Pattern)
    → find ps s ≡ some p
    → In p ps × Inside p.astring s
unfolding find
find_lem ps [] p h = let (there, (r, inside)) = here_lem ps [] p h in (there, ([], r, inside))
find_lem ps (c ∷ s) p h = elim (Option-cases (here ps (c ∷ s))) [
  | inl e ↦
      let (there, (before, after, inside)) = find_lem ps s p (rw (e, find) at h) in
      (there, (c ∷ before, after, ap (λ x. c ∷ x) inside))
  | inr (q, e) ↦
      let same : q ≡ p = some-injective q p (rw (e, find) at h) in
      let (there, (r, inside)) = here_lem ps (c ∷ s) p (e ∙ ap some same) in
      (there, ([], r, inside))
]

In-adds :
    (ps trie : List Pattern) (p : Pattern)
    → In p (adds (λ q qs. q ∷ qs) ps trie)
    → In p ps ⊎ In p trie
In-adds [] trie p h = inr h
In-adds (q ∷ ps) trie p h = elim (In-adds ps (q ∷ trie) p h) [
  | inl later ↦ inl (inr later)
  | inr (inl same) ↦ inl (inl same)
  | inr (inr old) ↦ inr old
]

pub plain_sound :
    (ps : List Pattern) (s : Bytes) {p : Pattern}
    → find (adds (λ q qs. q ∷ qs) ps []) s ≡ some p
    → In p ps × Inside p.astring s
plain_sound ps s {p} h =
    let (there, inside) = find_lem (adds (λ q qs. q ∷ qs) ps []) s p h in
    elim (In-adds ps [] p there) [ inl is_in ↦ (is_in, inside) | inr none_in ↦ elim none_in [ ] ]

abbrev pub plain : Automaton
plain = record {
  Trie = List Pattern;
  trie_create = [];
  trie_add = λ p ps. p ∷ ps;
  trie_finalize = λ ps. ps;
  trie_findnext = find;
  sound = plain_sound;
}

abbrev pub port_item : Item
port_item = record { name = b'e' ∷ []; is_tx = true; itemid = 101 }

abbrev pub mi_key : Key
mi_key = record { itemid = 101; key = b'M' ∷ b'I' ∷ [] }

abbrev pub tables : Tables
tables = record {
  rx_idx = [];
  tx_idx = record { to = true; idx = 3; itemid = 101 } ∷ [];
  items = λ s. if s == 101 then port_item ∷ [] else [];
  keys = λ s. if s == 7 then mi_key ∷ [] else [];
  scan_number = 0;
  scan_millisecond = 0;
  last = none;
}
