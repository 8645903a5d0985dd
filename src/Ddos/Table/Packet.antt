-- ===== src/Ddos/Table/Packet.antt =====
-- One packet on a table whose buckets are circular lists that share no item.
use native.Mathlib.Decide.{ℕ_discrete}
use uaflow.Prelude.{
  ap, ℕ, ◌≤◌, ◌≡◌, refl, sym, ◌∙◌, ◌≢◌, ◌⊎◌, inl, inr, Bool, List, [], ◌∷◌, ==_refl, ne→==, In,
  length,
}
use uaflow.Ddos.{Limits, full}
use uaflow.Ddos.Account.{Fits}
use uaflow.Ddos.Items.{Ptr, Node, Memory, update}
use uaflow.Ddos.Ring.{IsBucket, Appends, last}
use uaflow.Ddos.Scan.{Unknown, FirstAt}
use uaflow.Ddos.Table.{IsHead}
use uaflow.Ddos.Table.Frame.{last-or, IsBucket-same}

-- The source has an item among those of the bucket, or none.
pub known_or :
    (node : ℕ → Node) (addr : ℕ) (xs : List Ptr)
    → ((item : Ptr) × FirstAt node addr item xs) ⊎ Unknown node addr xs
known_or node addr [] = inr tt
known_or node addr (x ∷ xs) = elim (ℕ_discrete (node x).addr addr) [
  | yes e ↦ inl (x, inl (refl, e))
  | no ne ↦ elim (known_or node addr xs) [
    | inl (item, f) ↦ inl (item, inr (ne, f))
    | inr u ↦ inr (ne, u)
  ]
]

pub FirstAt-In :
    (node : ℕ → Node) (addr : ℕ) (p : Ptr) (xs : List Ptr) → FirstAt node addr p xs → In p xs
FirstAt-In node addr p [] f = f
FirstAt-In node addr p (x ∷ xs) (inl (here, _)) = inl (sym here)
FirstAt-In node addr p (x ∷ xs) (inr (_, f)) = inr (FirstAt-In node addr p xs f)

pub Unknown-In :
    (node : ℕ → Node) (addr : ℕ) (p : Ptr) (xs : List Ptr)
    → Unknown node addr xs
    → In p xs
    → (node p).addr ≢ addr
Unknown-In node addr p [] u there = absurd there
Unknown-In node addr p (x ∷ xs) u (inl e) = rw e u.0
Unknown-In node addr p (x ∷ xs) u (inr there) = Unknown-In node addr p xs u.1 there

module _ (head : (is_v6 : Bool) → (coreid slot : ℕ) → Ptr) where
  -- The table is well formed: each bucket is a circular list of at most ten items, no two of them
  -- of one source, no item is a head or is in two buckets, and the counts of all items fit the
  -- limit.
  pub record IsTable (l : Limits) (m : Memory) (items : Ptr → List Ptr) : Type 0 where
    pub bucket : (h : Ptr) → IsHead head h → IsBucket m h (items h)
    pub bounded : (h : Ptr) → IsHead head h → length (items h) ≤ full
    pub not_head : (h g : Ptr) → IsHead head h → IsHead head g → ¬ (In g (items h))
    pub apart :
        (h g x : Ptr) → IsHead head h → IsHead head g → In x (items h) → In x (items g) → h ≡ g
    pub sole :
        (h x y : Ptr)
        → IsHead head h
        → In x (items h)
        → In y (items h)
        → (m.node x).addr ≡ (m.node y).addr
        → x ≡ y
    pub fits : (h x : Ptr) → IsHead head h → In x (items h) → Fits l (m.node x)

  -- The bookkeeping on one item leaves the table well formed.
  pub IsTable-update :
      {l : Limits} {m : Memory} {items : Ptr → List Ptr} (item : Ptr) (n : Node)
      → Fits l n
      → n.addr ≡ (m.node item).addr
      → IsTable l m items
      → IsTable l (record m { node = update m.node item n }) items
  IsTable-update {l} {m} {items} item n fit addr t = record {
    bucket = λ h at. IsBucket-same h (items h) (λ _ _. refl) refl (t.bucket h at);
    bounded = t.bounded;
    not_head = t.not_head;
    apart = t.apart;
    sole = λ h x y at in_x in_y e. t.sole h x y at in_x in_y (sym (kept x) ∙ e ∙ kept y);
    fits = λ h x at there. elim (ℕ_discrete item x) [
      | yes e ↦ rw (e, ==_refl x) fit
      | no ne ↦ rw (ne→== item x ne) (t.fits h x at there)
    ];
  }
    where
      kept : (q : Ptr) → (update m.node item n q).addr ≡ (m.node q).addr
      kept q = elim (ℕ_discrete item q) [
        | yes e ↦ rw (e, ==_refl q) (addr ∙ ap (λ x. (m.node x).addr) e)
        | no ne ↦ rw (ne→== item q ne) refl
      ]

  -- An item at the end of one bucket leaves it well formed, where the items of that bucket are then
  -- some of those before and the one at the end, which is in no other bucket.
  module _ {l : Limits} {m m' : Memory} {items : Ptr → List Ptr} (h item : Ptr) (list : List Ptr)
      (at : IsHead head h) (t : IsTable l m items) (not_head : ¬ (IsHead head item))
      (unused : (g : Ptr) → IsHead head g → h ≢ g → ¬ (In item (items g)))
      (appends : Appends m m' h item) (joined : IsBucket m' h list) (room : length list ≤ full)
      (from : (x : Ptr) → In x list → In x (items h) ⊎ (x ≡ item)) (fit : Fits l (m'.node item))
      (others : (q : Ptr) → q ≢ item → m'.node q ≡ m.node q)
      (alone : (x : Ptr) → In x (items h) → (m.node x).addr ≢ (m'.node item).addr) where
    abbrev pub grown : Ptr → List Ptr
    grown = update items h list

    -- The links of another bucket are as before.
    IsBucket-apart : (g : Ptr) → IsHead head g → h ≢ g → IsBucket m' g (items g)
    IsBucket-apart g to ne =
        IsBucket-same g (items g) (λ p there. appends.elsewhere p (new p there) (end p there))
          (appends.before g (λ e. not_head (rw e at to)) (λ e. ne (sym e))) (t.bucket g to)
      where
        new : (p : Ptr) → (p ≡ g) ⊎ In p (items g) → p ≢ item
        new p (inl e) same = not_head (rw (sym e ∙ same) at to)
        new p (inr there) same = unused g to ne (rw same at there)

        end : (p : Ptr) → (p ≡ g) ⊎ In p (items g) → p ≢ m.prev h
        end p place e = elim (last-or h (items h)) [
          | inl own ↦ elim place [
            | inl here ↦ ne (sym own ∙ sym (t.bucket h at).backward ∙ sym e ∙ here)
            | inr there ↦
                let same : p ≡ h = e ∙ (t.bucket h at).backward ∙ own in
                t.not_head g h to at (rw same at there)
          ]
          | inr inside ↦ elim place [
            | inl here ↦
                let same : last h (items h) ≡ g = sym (t.bucket h at).backward ∙ sym e ∙ here in
                t.not_head h g at to (rw same at inside)
            | inr there ↦
                let same : p ≡ last h (items h) = e ∙ (t.bucket h at).backward in
                ne (t.apart h g (last h (items h)) at to inside (rw same at there))
          ]
        ]

    -- An item of the table afterwards is an older one of that bucket, or the one at the end.
    In-grown :
        (g x : Ptr)
        → IsHead head g
        → In x (grown g)
        → (In x (items g) × (x ≢ item)) ⊎ ((x ≡ item) × (h ≡ g))
    In-grown g x to there = elim (ℕ_discrete h g) [
      | no ne ↦
          let old : In x (items g) = rw (ne→== h g ne) at there in
          inl (old, λ e. unused g to ne (rw e at old))
      | yes e ↦ elim (ℕ_discrete x item) [
        | yes new ↦ inr (new, e)
        | no other ↦
            let own : In x list = rw (← e, ==_refl h) at there in
            elim (from x own) [ inl old ↦ inl (rw e at old, other) | inr new ↦ absurd (other new) ]
      ]
    ]

    -- An item that is not the one at the end has its source still.
    source_kept : (x : Ptr) → x ≢ item → (m'.node x).addr ≡ (m.node x).addr
    source_kept x other = ap (λ (n : Node). n.addr) (others x other)

    pub IsTable-append : IsTable l m' grown
    IsTable-append = record {
      bucket = λ g to. elim (ℕ_discrete h g) [
        | yes e ↦ rw (← e, ==_refl h) joined
        | no ne ↦ rw (ne→== h g ne) (IsBucket-apart g to ne)
      ];
      bounded = λ g to. elim (ℕ_discrete h g) [
        | yes e ↦ rw (← e, ==_refl h) room
        | no ne ↦ rw (ne→== h g ne) (t.bounded g to)
      ];
      not_head = λ g k to tk there. elim (In-grown g k to there) [
        | inl (old, _) ↦ t.not_head g k to tk old
        | inr (e, _) ↦ not_head (rw e at tk)
      ];
      apart = λ g k x to tk in_g in_k. elim (In-grown g x to in_g) [
        | inl (old, other) ↦ elim (In-grown k x tk in_k) [
          | inl (both, _) ↦ t.apart g k x to tk old both
          | inr (e, _) ↦ absurd (other e)
        ]
        | inr (new, own) ↦ elim (In-grown k x tk in_k) [
          | inl (_, other) ↦ absurd (other new)
          | inr (_, both) ↦ sym own ∙ both
        ]
      ];
      sole = λ g x y to in_x in_y e. elim (In-grown g x to in_x) [
        | inl (ox, nx) ↦ elim (In-grown g y to in_y) [
          | inl (oy, ny) ↦ t.sole g x y to ox oy (sym (source_kept x nx) ∙ e ∙ source_kept y ny)
          | inr (new, own) ↦
              absurd
                (alone x (rw own ox) (sym (source_kept x nx) ∙ e ∙ ap (λ q. (m'.node q).addr) new))
        ]
        | inr (new, own) ↦ elim (In-grown g y to in_y) [
          | inl (oy, ny) ↦ absurd (
              alone y (rw own oy) (sym (source_kept y ny) ∙ sym e ∙ ap (λ q. (m'.node q).addr) new))
          | inr (also, _) ↦ new ∙ sym also
        ]
      ];
      fits = λ g x to there. elim (In-grown g x to there) [
        | inr (e, _) ↦ rw e fit
        | inl (old, other) ↦ rw (others x other) (t.fits g x to old)
      ];
    }
