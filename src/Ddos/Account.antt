-- ===== src/Ddos/Account.antt =====
-- The detector's bookkeeping on one source: the window, the ports seen in it and the alarm.
use uaflow.Prelude.{
  ℕ, zero, suc, ◌+◌, ◌%◌, ◌^◌, ◌≤◌, ◌<◌, ◌≡◌, refl, sym, ne→==, ==_iff, ◌∙◌, ◌⊎◌, inl, inr, Bool,
  true, false, ◌&&◌, none, some, arith, ◌==◌, if◌then◌else◌, lt→ltb, le→ltb, Bool-cases,
}
use native.Mathlib.Decide.{dec_lt, ℕ_discrete}
use uaflow.Ddos.Items.{Node, Entry, update}
use uaflow.Ddos.{
  Limits, Probe, everynode_entry_max_sz, elapsed, is_recorded, expire, record_port, account,
}

-- A count that the array of entries has room for one more of.
abbrev pub Fits : Limits → Node → Type 0
Fits l n = (n.n_packets ≤ l.number) × (l.number < everynode_entry_max_sz)

-- Is the port of the packet among the entries from `i` to `i + k`?
abbrev pub Recorded : Probe → (ℕ → Entry) → ℕ → ℕ → Type 0
Recorded p entry i k =
    (j : ℕ) × (i ≤ j) × (j < i + k) × ((entry j).port ≡ p.port) × ((entry j).addr ≡ p.addr)

matches : Probe → Entry → Bool
matches p e = e.port == p.port && e.addr == p.addr

matches-true : (p : Probe) (e : Entry) → matches p e ≡ true → (e.port ≡ p.port) × (e.addr ≡ p.addr)
unfolding matches
matches-true p e h = ground arith

matches-false :
    (p : Probe) (e : Entry) → matches p e ≡ false → e.port ≡ p.port → e.addr ≡ p.addr → ⊥
unfolding matches
matches-false p e h q r = ground arith

-- The loop decides whether the port is recorded, and stays inside the array.
is_recorded-decides :
    (p : Probe) (entry : ℕ → Entry) (k i : ℕ)
    → i + k ≤ everynode_entry_max_sz
    → ((is_recorded p entry k i ≡ some true) × Recorded p entry i k)
      ⊎ ((is_recorded p entry k i ≡ some false) × (¬ (Recorded p entry i k)))
unfolding is_recorded
is_recorded-decides p entry zero i h = inr (refl, λ r. absurd (omega (arith, r.1, r.2)))
is_recorded-decides p entry (suc k) i h = elim (Bool-cases (matches p (entry i))) [
  | inl e ↦
      let same = matches-true p (entry i) e in
      inl (
        unfold matches in rw (lt→ltb i 1024 (omega arith), e),
        (i, omega arith, omega arith, same.0, same.1),
      )
  | inr e ↦ elim (is_recorded-decides p entry k (i + 1) (omega arith)) [
    | inl (run, (j, low, high, port, addr)) ↦ inl (
      unfold matches in rw (lt→ltb i 1024 (omega arith), e, run),
      (j, omega arith, omega arith, port, addr),
    )
    | inr (run, no_entry) ↦ inr (
      unfold matches in rw (lt→ltb i 1024 (omega arith), e, run),
      λ (j, low, high, port, addr). elim (ℕ_discrete j i) [
        | yes same ↦ matches-false p (entry i) e (cc) (cc)
        | no other ↦ no_entry (j, omega arith, omega arith, port, addr)
      ],
    )
  ]
]

-- The count that is still valid at `now`: the window may have expired.
unfoldable pub live : Limits → ℕ → Node → ℕ
unfolding expire elapsed
live l now n = (expire l now n).n_packets

pub live-le : (l : Limits) (now : ℕ) (n : Node) → live l now n ≤ n.n_packets
unfolding live
live-le l now n = ground arith

module _ (l : Limits) (p : Probe) (now later : ℕ) (n : Node) where
  -- The item once the window is checked and the time is set.
  abbrev pub current : Node
  current = record n { modtime = later; n_packets = live l now n }

  account-recorded :
      is_recorded p n.entry (live l now n) 0 ≡ some true
      → account l p now later n ≡ some (current, false)
  unfolding account live
  account-recorded h = rw (h, account)

  account-new :
      is_recorded p n.entry (live l now n) 0 ≡ some false
      → account l p now later n ≡ record_port l p current
  unfolding account live
  account-new h = rw (h, account)

  -- The item with the packet's port entered, and `count` entries in all.
  abbrev pub entered : ℕ → Node
  entered count = record current {
    entry = update n.entry (live l now n) (record { port = p.port; addr = p.addr });
    n_packets = count;
  }

  record_port-below :
      live l now n < l.number
      → l.number < everynode_entry_max_sz
      → record_port l p current ≡ some (entered (live l now n + 1), false)
  unfolding record_port
  record_port-below below room =
      let count : (live l now n + 1) % 2 ^ 32 ≡ live l now n + 1 = omega arith in
      rw (
        lt→ltb (live l now n) 1024 (omega arith),
        count,
        le→ltb l.number (live l now n + 1) (omega arith),
      )

  record_port-at :
      live l now n ≡ l.number
      → l.number < everynode_entry_max_sz
      → record_port l p current ≡ some (entered 0, true)
  unfolding record_port
  record_port-at at room =
      let count : (live l now n + 1) % 2 ^ 32 ≡ live l now n + 1 = omega arith in
      rw (
        lt→ltb (live l now n) 1024 (omega arith),
        count,
        lt→ltb l.number (live l now n + 1) (omega arith),
      )

  -- On a source whose count fits, with a limit below the length of the array, the bookkeeping stays
  -- inside the array and raises the alarm exactly when a port that is not among the entries still
  -- valid arrives at the limit. Then it starts to count anew. A port below the limit is entered,
  -- and one that is there already changes only the time.
  pub account_branches :
      Fits l n
      → (Recorded p n.entry 0 (live l now n) × (account l p now later n ≡ some (current, false)))
        ⊎ ((¬ (Recorded p n.entry 0 (live l now n)))
            × (live l now n < l.number)
            × (account l p now later n ≡ some (entered (live l now n + 1), false)))
        ⊎ ((¬ (Recorded p n.entry 0 (live l now n)))
            × (live l now n ≡ l.number)
            × (account l p now later n ≡ some (entered 0, true)))
  account_branches fits =
      let small = live-le l now n in
      elim (is_recorded-decides p n.entry (live l now n) 0 (omega arith)) [
        | inl (run, entry) ↦ inl (entry, account-recorded run)
        | inr (run, no_entry) ↦ elim (dec_lt (live l now n) l.number) [
          | yes below ↦
              inr (inl (no_entry, below, account-new run ∙ record_port-below below fits.1))
          | no other ↦
              let at : live l now n ≡ l.number = omega arith in
              inr (inr (no_entry, at, account-new run ∙ record_port-at at fits.1))
        ]
      ]

  -- On a source whose count fits, with a limit below the length of the array, the bookkeeping does
  -- not leave the array, and the count fits again afterwards. It keeps the source.
  pub account-Fits :
      Fits l n
      → (n' : Node) × (alarm : Bool) × (account l p now later n ≡ some (n', alarm))
        × Fits l n'
        × (n'.addr ≡ n.addr)
  account-Fits fits = elim (account_branches fits) [
    | inl (_, run) ↦ (current, false, run, (omega (arith, live-le l now n), fits.1), refl)
    | inr (inl (_, below, run)) ↦
        (entered (live l now n + 1), false, run, (omega arith, fits.1), refl)
    | inr (inr (_, at, run)) ↦ (entered 0, true, run, (omega arith, fits.1), refl)
  ]

  -- The first packet of a source: its port is the only entry, and it raises the alarm only where
  -- the limit is 0.
  pub account-first :
      n.n_packets ≡ 0
      → l.number < everynode_entry_max_sz
      → (n' : Node) × (alarm : Bool) × (account l p now later n ≡ some (n', alarm))
        × Fits l n'
        × (n'.addr ≡ n.addr)
        × (alarm ≡ (l.number == 0))
        × (n'.n_packets ≡ (if alarm then 0 else 1))
        × ((n'.entry 0).port ≡ p.port)
        × ((n'.entry 0).addr ≡ p.addr)
        × (n'.modtime ≡ later)
  account-first empty room =
      let none_live : live l now n ≡ 0 = omega (arith, live-le l now n) in
      elim (account_branches (omega arith, room)) [
        | inl ((j, low, high, _, _), _) ↦ absurd (omega arith)
        | inr (inl (_, below, run)) ↦ (
          entered (live l now n + 1),
          false,
          run,
          (omega arith, room),
          refl,
          sym (ne→== l.number 0 (λ e. absurd (omega arith))),
          omega arith,
          rw none_live,
          rw none_live,
          refl,
        )
        | inr (inr (_, at, run)) ↦ (
          entered 0,
          true,
          run,
          (omega arith, room),
          refl,
          sym ((==_iff l.number 0).1 (omega arith)),
          refl,
          rw none_live,
          rw none_live,
          refl,
        )
      ]

  -- Where the count that is still valid is the length of the array, a port that is not among the
  -- entries is written past the array's end.
  pub account-overflow :
      live l now n ≡ everynode_entry_max_sz
      → (¬ (Recorded p n.entry 0 (live l now n)))
      → account l p now later n ≡ none
  account-overflow at no_entry =
      elim (is_recorded-decides p n.entry (live l now n) 0 (omega arith)) [
        | inl (run, entry) ↦ absurd (no_entry entry)
        | inr (run, _) ↦
            account-new run ∙ (unfold record_port in rw (le→ltb (live l now n) 1024 (omega arith)))
      ]
