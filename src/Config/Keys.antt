-- ===== src/Config/Keys.antt =====
-- Which slots the items and the keys of a document are put into.
use uaflow.Prelude.{
  In, In-append_cases, ℕ, ◌≡◌, refl, ◌∙◌, sym, ap, true, none, some, List, [], ◌∷◌, ◌==◌, inl, inr,
  ◌⊎◌, Bool-cases, bit_and, ◌≢◌, ==_iff,
}
use uaflow.Config.{Item, Key, Tables, slot_mask}
use uaflow.Config.Tree.{Xml}
use uaflow.Config.Parse.{append_at, parse}
use uaflow.Config.Devices.{Machine}
use uaflow.Config.Items.{parse-keeps}
use uaflow.Config.Build.{find_in, find_item}

-- Every item is in the slot of its own number.
abbrev pub IsHashed : Tables → Type 0
IsHashed t = (s : ℕ) (i : Item) → In i (t.items s) → bit_and i.itemid slot_mask ≡ s

append_at-IsHashed :
    (item : Item) (items : ℕ → List Item)
    → ((s : ℕ) (i : Item) → In i (items s) → bit_and i.itemid slot_mask ≡ s)
    → (s : ℕ) (i : Item) → In i (append_at (bit_and item.itemid slot_mask) item items s)
    → bit_and i.itemid slot_mask ≡ s
append_at-IsHashed item items hashed s i h =
    elim (Bool-cases (s == bit_and item.itemid slot_mask)) [
      | inl e ↦ elim (In-append_cases i (items s) (item ∷ []) (rw e at h)) [
        | inl old ↦ hashed s i old
        | inr (inr gone) ↦ absurd gone
        | inr (inl new) ↦
            ap (λ (x : Item). bit_and x.itemid slot_mask) new
            ∙ sym ((==_iff s (bit_and item.itemid slot_mask)).0 e)
      ]
      | inr e ↦ hashed s i (rw e at h)
    ]

find_in-decides :
    (itemid : ℕ) (xs : List Item)
    → ((i : Item) × (find_in itemid xs ≡ some i) × In i xs × (i.itemid ≡ itemid))
      ⊎ ((find_in itemid xs ≡ none) × ((i : Item) → In i xs → i.itemid ≢ itemid))
unfolding find_in
find_in-decides itemid [] = inr (refl, λ i h. elim h [ ])
find_in-decides itemid (x ∷ xs) = elim (Bool-cases (x.itemid == itemid)) [
  | inl e ↦ inl (x, rw e, inl refl, (==_iff x.itemid itemid).0 e)
  | inr e ↦ rw e (elim (find_in-decides itemid xs) [
    | inl (i, found, there, same) ↦ inl (i, found, inr there, same)
    | inr (gone, others) ↦ inr (
      gone,
      λ i h. elim h [
        | inl here ↦ λ same.
            let equal : x.itemid ≡ itemid = ap (λ (y : Item). y.itemid) (sym here) ∙ same in
            let bad : (x.itemid == itemid) ≡ true = (==_iff x.itemid itemid).1 equal in cc
        | inr there ↦ others i there
      ],
    )
  ])
]

-- The parse keeps every item in the slot of its own number.
pub parse-IsHashed :
    (mc : Machine) (doc : Xml) (t t' : Tables) → parse mc doc t ≡ some t' → IsHashed t → IsHashed t'
parse-IsHashed mc doc t t' h hashed =
    parse-keeps (λ items. (s : ℕ) (i : Item) → In i (items s) → bit_and i.itemid slot_mask ≡ s)
      (λ item items made hashed. append_at-IsHashed item items hashed) mc doc t t' h hashed

-- In tables in which every item is in the slot of its own number, the search for a key's item finds
-- one with the key's number, or there is none in any slot.
pub find_item-decides :
    (t : Tables) (k : Key)
    → IsHashed t
    → ((i : Item) × (find_item t k ≡ some i) × (i.itemid ≡ k.itemid))
      ⊎ ((find_item t k ≡ none) × ((s : ℕ) (i : Item) → In i (t.items s) → i.itemid ≢ k.itemid))
unfolding find_item
find_item-decides t k hashed =
    elim (find_in-decides k.itemid (t.items (bit_and k.itemid slot_mask))) [
      | inl (i, found, there, same) ↦ inl (i, found, same)
      | inr (gone, others) ↦ inr (
        gone,
        λ s i there same.
            let slot : bit_and k.itemid slot_mask ≡ s =
              ap (λ n. bit_and n slot_mask) (sym same) ∙ hashed s i there in
            others i (rw (slot) there) same,
      )
    ]
