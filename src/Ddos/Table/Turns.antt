-- ===== src/Ddos/Table/Turns.antt =====
-- The verdicts of `Ddos.Table.Sources` by the case that a packet falls into.
use uaflow.Prelude.{
  ℕ, ◌≡◌, refl, ◌≢◌, Option-cases, inl, inr, Bool, false, Option, none, some, List, [], ◌∷◌, ◌++◌,
  ◌==◌, ==_iff, ne→==, length,
}
use uaflow.Ddos.{Limits, full, mtime_max}
use uaflow.Ddos.Items.{Ptr}
use uaflow.Ddos.NewSource.{first_seen, judge-first_seen}
use uaflow.Ddos.Table.Sources.{Source, heard, before_oldest, opened, come, turn, taken}

-- The source after its first packet, by the verdict on that.
abbrev pub first : (addr port now : ℕ) (alarm : Bool) → Source
first addr port now alarm = record { addr = addr; time = now; ports = first_seen alarm port }

module _ (l : Limits) (addr port now : ℕ) (fresh : Option Ptr) (ss : List Source) where
  pub turn-heard :
      (alarm : Bool) (rest : List Source)
      → heard l addr port now ss ≡ some (alarm, rest)
      → (turn l addr port now fresh ss ≡ (alarm, rest)) × (taken l addr port now fresh ss ≡ [])
  unfolding turn taken
  turn-heard alarm rest e = rw (turn, taken, e) (refl, refl)

  module _ (unheard : heard l addr port now ss ≡ none) where
    pub turn-dry :
        length ss ≢ full
        → fresh ≡ none
        → (turn l addr port now fresh ss ≡ (false, ss)) × (taken l addr port now fresh ss ≡ [])
    unfolding turn taken come opened
    turn-dry less dry =
        rw (turn, taken, unheard, come, dry, ne→== (length ss) full less) (refl, refl)

    pub taken-full : length ss ≡ full → taken l addr port now fresh ss ≡ []
    unfolding taken
    taken-full filled = elim (Option-cases fresh) [
      | inl dry ↦ rw (taken, unheard, dry) refl
      | inr (item, got) ↦ rw (taken, unheard, got, (==_iff (length ss) full).1 filled) refl
    ]

    module _ (alarm : Bool) (verdict : alarm ≡ (l.number == 0)) where
      pub turn-new :
          (item : Ptr)
          → length ss ≢ full
          → fresh ≡ some item
          → (turn l addr port now fresh ss ≡ (alarm, ss ++ first addr port now alarm ∷ []))
            × (taken l addr port now fresh ss ≡ item ∷ [])
      unfolding turn taken come
      turn-new item less got =
          rw
            (
              turn,
              taken,
              unheard,
              come,
              got,
              ne→== (length ss) full less,
              judge-first_seen l.number port alarm verdict,
            )
            (refl, refl)

      pub turn-cut :
          (front : List Source)
          → length ss ≡ full
          → before_oldest mtime_max ss ≡ some front
          → turn l addr port now fresh ss ≡ (alarm, front ++ first addr port now alarm ∷ [])
      unfolding turn come
      turn-cut front filled oldest =
          rw
            (
              turn,
              unheard,
              come,
              (==_iff (length ss) full).1 filled,
              oldest,
              judge-first_seen l.number port alarm verdict,
            )
            refl
