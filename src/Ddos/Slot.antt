-- ===== src/Ddos/Slot.antt =====
-- Which buckets the detector's mask can reach.
use uaflow.Prelude.{ℕ, ◌/◌, ◌≤◌, ◌<◌, ◌≡◌, ◌⊎◌, inl, inr, arith, bit_and}
use uaflow.Prelude.Bits.{bit_and_step, bit_and-le}
use uaflow.Ddos.{slot, node_list_max_sz}

half : (a b : ℕ) → bit_and a b / 2 ≡ bit_and (a / 2) (b / 2)
half a b = omega (arith, bit_and_step a b)

-- 10239 is eleven ones below a four.
high_part : (h : ℕ) → (g : ℕ) × (bit_and h 10239 / 2048 ≡ bit_and g 4)
high_part h =
    let g = h / 2 / 2 / 2 / 2 / 2 / 2 / 2 / 2 / 2 / 2 / 2 in
    (
      g,
      omega (
        arith,
        half h 10239,
        half (h / 2) 5119,
        half (h / 2 / 2) 2559,
        half (h / 2 / 2 / 2) 1279,
        half (h / 2 / 2 / 2 / 2) 639,
        half (h / 2 / 2 / 2 / 2 / 2) 319,
        half (h / 2 / 2 / 2 / 2 / 2 / 2) 159,
        half (h / 2 / 2 / 2 / 2 / 2 / 2 / 2) 79,
        half (h / 2 / 2 / 2 / 2 / 2 / 2 / 2 / 2) 39,
        half (h / 2 / 2 / 2 / 2 / 2 / 2 / 2 / 2 / 2) 19,
        half (h / 2 / 2 / 2 / 2 / 2 / 2 / 2 / 2 / 2 / 2) 9,
      ),
    )

bit_and-four : (g : ℕ) → (bit_and g 4 ≡ 0) ⊎ (bit_and g 4 ≡ 4)
bit_and-four g = omega (arith, bit_and_step g 4, bit_and_step (g / 2) 2, bit_and-le (g / 2 / 2) 1)

-- Every hash leads to a bucket of the table, and only to the first 2048 or the last 2048 of its
-- 10240: the mask is not one less than a power of two, so the others are never used.
pub slot_range :
    (hash : ℕ) → (slot hash < 2048) ⊎ ((8192 ≤ slot hash) × (slot hash < node_list_max_sz))
unfolding slot
slot_range hash =
    let (g, high) = high_part hash in
    elim (bit_and-four g) [
      | inl none_set ↦ inl (omega arith)
      | inr set ↦ inr (omega (arith, bit_and-le hash 10239))
    ]
