-- ===== src/Kni/Bursts.antt =====
-- The packets of the kernel's interface in the rounds of the loop.
use uaflow.Prelude.{
  ℕ, zero, suc, ◌+◌, ◌≤◌, ◌≡◌, refl, ap, some, List, [], ◌∷◌, ◌++◌, arith, ltb, le→ltb, length,
  take, drop, take-append-drop, Bool-cases, inl, inr,
}
use uaflow.Egress.Holdings.{count, count-append}
use uaflow.Kni.{pkt_burst_sz, World, missed, round, main_loop, delivered, Short}

drop-all : (n : ℕ) (xs : List ℕ) → length xs ≤ n → drop n xs ≡ []
drop-all zero [] h = refl
drop-all (suc n) [] h = refl
drop-all zero (x ∷ xs) h = absurd (omega arith)
drop-all (suc n) (x ∷ xs) h = drop-all n xs (omega arith)

missed-drop : (n : ℕ) (xs : List ℕ) → missed n xs ≡ drop n xs
unfolding missed
missed-drop n xs = elim (Bool-cases (ltb n (length xs))) [
  | inl e ↦ rw e
  | inr e ↦ rw (e, drop-all n xs (ground arith))
]

abbrev pub held : ℕ → World → ℕ
held a w = count a w.sent + count a w.freed

-- A round on a burst that fits the array does not exit, and sends or frees each packet of it once.
pub held-round :
    (tx_burst : List ℕ → ℕ) (b : List ℕ) (w : World)
    → length b ≤ pkt_burst_sz
    → (w' : World) × (round tx_burst b w ≡ some w') × ((a : ℕ) → held a w' ≡ held a w + count a b)
unfolding round count
held-round tx_burst [] w h = (w, refl, λ a. omega arith)
held-round tx_burst (p ∷ ps) w h =
    let b = p ∷ ps in
    let n = tx_burst b in
    (
      record { sent = take n b ++ w.sent; freed = missed n b ++ w.freed },
      rw (le→ltb 256 (length b) h),
      λ a. omega (
        arith,
        count-append a (take n b) w.sent,
        count-append a (missed n b) w.freed,
        ap (count a) (missed-drop n b),
        count-append a (take n b) (drop n b),
        ap (count a) (take-append-drop n b),
      ),
    )

-- Where no burst is longer than the loop's array, the loop does not exit, and each packet that the
-- kernel delivers is either sent or freed, once, whatever number of packets the device takes.
pub held-main_loop :
    (a : ℕ) (tx_burst : List ℕ → ℕ) (bs : List (List ℕ)) (w : World)
    → Short bs
    → (w' : World) × (main_loop tx_burst bs w ≡ some w')
      × (held a w' ≡ held a w + count a (delivered bs))
unfolding main_loop count
held-main_loop a tx_burst [] w short = (w, refl, omega arith)
held-main_loop a tx_burst (b ∷ bs) w short =
    let (w1, run, same) = held-round tx_burst b w short.0 in
    let (w2, rest, same') = held-main_loop a tx_burst bs w1 short.1 in
    (w2, rw (run, main_loop) rest, omega (arith, same a, same', count-append a b (delivered bs)))
