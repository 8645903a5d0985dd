-- ===== src/Config/Log.antt =====
-- What the dump of the configuration comes to.
use mathlib.Core.List.{append_assoc, append-nil}
use native.Mathlib.Decide.{dec_lt}
use uaflow.Prelude.{
  In, In-append_cases, ℕ, zero, suc, ◌+◌, ◌≤◌, ◌<◌, ◌≡◌, refl, ◌∙◌, sym, ap, ◌⊎◌, inl, inr, true,
  none, some, List, [], ◌∷◌, ◌++◌, arith, lt→ltb, le→ltb, if◌then◌else◌, length, length-append,
  bit_and, ◌==◌, Bool-cases,
}
use uaflow.Prelude.CString.{text}
use uaflow.Prelude.Decimal.{decimal, length-decimal}
use uaflow.Config.{Item, Key, Tables, slot_size, slot_mask, fresh}
use uaflow.Config.Tree.{Xml}
use uaflow.Config.Devices.{Machine}
use uaflow.Config.Parse.{parse, append_at}
use uaflow.Config.Items.{Made, parse-keeps}
use uaflow.Config.Dump.{
  buff_size, capmode_head, flow_head, item_line, key_line, dump_slot, dump_slots, dump,
}

module _ {A : Type 0} (line : A → List ℕ) where
  -- The lines of a list, and of the slots from `i` to `i + n`.
  pub lines : List A → List ℕ
  lines [] = []
  lines (x ∷ xs) = line x ++ lines xs

  pub all_lines : (ℕ → List A) → (n i : ℕ) → List ℕ
  all_lines slots zero i = []
  all_lines slots (suc n) i = lines (slots i) ++ all_lines slots n (i + 1)

  -- A line that does not fit into the buffer.
  pub Long : List A → Type 0
  Long xs = (x : A) × In x xs × (buff_size ≤ length (line x))

  dump_slot-lines :
      (xs : List A) (log : List ℕ)
      → (dump_slot line xs log ≡ some (log ++ lines xs))
        ⊎ ((dump_slot line xs log ≡ none) × Long xs)
  unfolding dump_slot lines Long
  dump_slot-lines [] log = inl (ap some (sym (append-nil log)))
  dump_slot-lines (x ∷ xs) log = elim (dec_lt (length (line x)) buff_size) [
    | no long ↦ inr (
      rw (le→ltb (length (line x)) buff_size (omega arith), dump_slot) refl,
      (x, inl refl, omega arith),
    )
    | yes short ↦
        let fits = lt→ltb (length (line x)) buff_size short in
        elim (dump_slot-lines xs (log ++ line x)) [
          | inl run ↦
              inl (rw (fits, dump_slot) (run ∙ ap some (append_assoc log (line x) (lines xs))))
          | inr (run, (y, there, long)) ↦ inr (rw (fits, dump_slot) run, (y, inr there, long))
        ]
  ]

  pub dump_slots-all_lines :
      (slots : ℕ → List A) (n i : ℕ) (log : List ℕ)
      → (dump_slots line slots n i log ≡ some (log ++ all_lines slots n i))
        ⊎ ((dump_slots line slots n i log ≡ none)
            × ((j : ℕ) × (i ≤ j) × (j < i + n) × Long (slots j)))
  unfolding dump_slots all_lines
  dump_slots-all_lines slots zero i log = inl (ap some (sym (append-nil log)))
  dump_slots-all_lines slots (suc n) i log = elim (dump_slot-lines (slots i) log) [
    | inr (run, long) ↦ inr (rw (run, dump_slots) refl, (i, omega arith, omega arith, long))
    | inl run ↦ elim (dump_slots-all_lines slots n (i + 1) (log ++ lines (slots i))) [
      | inl rest ↦ inl (
          rw (run, dump_slots)
            (rest ∙ ap some (append_assoc log (lines (slots i)) (all_lines slots n (i + 1)))))
      | inr (rest, (j, low, high, long)) ↦
          inr (rw (run, dump_slots) rest, (j, omega arith, omega arith, long))
    ]
  ]

length-text : (s : List ℕ) → length (text s) ≤ length s
unfolding text
length-text [] = omega arith
length-text (x ∷ s) = ground (arith, length-text s)

length-append4 :
    (a b c d e : List ℕ)
    → length (a ++ b ++ c ++ d ++ e) ≡ length a + length b + length c + length d + length e
length-append4 a b c d e = omega (
  arith,
  length-append a b,
  length-append (a ++ b) c,
  length-append (a ++ b ++ c) d,
  length-append (a ++ b ++ c ++ d) e,
)

item_line-short : (item : Item) → Made item → length (item_line item) < buff_size
unfolding item_line
item_line-short item made =
    let direction : ℕ = if item.is_tx then b'T' else b'R' in
    let name : length (text item.name) ≤ length item.name = length-text item.name in
    let digits : length (decimal item.itemid) ≤ 10 =
      length-decimal 10 item.itemid (omega (arith, made.1)) (omega arith) in
    omega (
      arith,
      made.0,
      length-append4 (direction ∷ b'X' ∷ b' ' ∷ b'[' ∷ []) (text item.name)
          (b']' ∷ b' ' ∷ b'I' ∷ b'D' ∷ b':' ∷ b'[' ∷ []) (decimal item.itemid) (b']' ∷ 10 ∷ []),
    )

-- Every item is as the parse makes it.
abbrev AllMade : (ℕ → List Item) → Type 0
AllMade items = (s : ℕ) (item : Item) → In item (items s) → Made item

append_at-AllMade :
    (item : Item) (items : ℕ → List Item)
    → Made item
    → AllMade items
    → AllMade (append_at (bit_and item.itemid slot_mask) item items)
append_at-AllMade item items made all s i h =
    elim (Bool-cases (s == bit_and item.itemid slot_mask)) [
      | inr e ↦ all s i (rw e at h)
      | inl e ↦ elim (In-append_cases i (items s) (item ∷ []) (rw e at h)) [
        | inl old ↦ all s i old
        | inr (inl new) ↦ rw new made
        | inr (inr gone) ↦ absurd gone
      ]
    ]

fresh-AllMade : AllMade fresh.items
unfolding fresh
fresh-AllMade s item there = absurd there

-- The whole of the log.
pub log_of : Tables → List ℕ
log_of t =
    capmode_head
    ++ all_lines item_line t.items slot_size 0
    ++ flow_head
    ++ all_lines key_line t.keys slot_size 0

-- The dump of the tables that the parse makes from nothing is a heading, a line for each item, a
-- heading, and a line for each key, by their slots and in their order; or the line of some key,
-- which no check keeps short, is written behind the end of the buffer of 1024 bytes.
pub dump-log_of :
    (mc : Machine) (doc : Xml) (t : Tables) (log : List ℕ)
    → parse mc doc fresh ≡ some t
    → (dump true t log ≡ some (log_of t))
      ⊎ ((dump true t log ≡ none)
          × ((slot : ℕ) × (slot < slot_size)
              × ((key : Key) × In key (t.keys slot) × (buff_size ≤ length (key_line key)))))
unfolding dump log_of Long
dump-log_of mc doc t log h =
    let all = parse-keeps AllMade append_at-AllMade mc doc fresh t h fresh-AllMade in
    let items = all_lines item_line t.items slot_size 0 in
    elim (dump_slots-all_lines item_line t.items slot_size 0 capmode_head) [
      | inr (_, (j, _, _, (item, there, long))) ↦
          absurd (omega (arith, item_line-short item (all j item there)))
      | inl run ↦
          elim (dump_slots-all_lines key_line t.keys slot_size 0
            ((capmode_head ++ items) ++ flow_head)) [
              | inl rest ↦ inl (rw (run, dump) rest)
              | inr (rest, (j, _, below, (key, there, long))) ↦
                  inr (rw (run, dump) rest, (j, omega arith, (key, there, long)))
            ]
    ]
