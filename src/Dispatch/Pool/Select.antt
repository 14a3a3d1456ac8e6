-- ===== src/Dispatch/Pool/Select.antt =====
-- The scan for the least-loaded loop in `EventLoopPool::schedule`.
use native.Mathlib.Decide.{ℕ_discrete, dec_lt}
use native.Mathlib.Nat.{mod-lt}
use rayo.Base.{
  ℕ, zero, suc, ◌+◌, ◌-◌, ◌%◌, ◌≤◌, ◌<◌, ◌≡◌, refl, sym, ap, subst, ltb, ◌==◌, if◌then◌else◌, ◌≢◌,
  arith,
}
use rayo.Dispatch.Channel.{word}

-- `load k` is the count read for loop `k`; the sum of the two indices wraps around.
module _ (load : ℕ → ℕ) (loop_count scan_start : ℕ) where
  unfoldable pub candidate : ℕ → ℕ
  candidate scan_offset = (scan_start + scan_offset) % word % loop_count

  -- The loop over the offsets, with the rounds that are left.
  unfoldable pub scan : ℕ → ℕ → ℕ → ℕ → ℕ
  unfolding candidate
  scan zero scan_offset chosen_index lowest_load = chosen_index
  scan (suc rounds) scan_offset chosen_index lowest_load =
      let candidate_index = candidate scan_offset in
      let candidate_load = load candidate_index in
      let take = scan rounds (scan_offset + 1) candidate_index candidate_load in
      let skip = scan rounds (scan_offset + 1) chosen_index lowest_load in
      if lowest_load == 0
      then chosen_index
      else if ltb candidate_load lowest_load
      then take
      else skip

  unfoldable pub select : ℕ
  unfolding scan
  select = let first = scan_start % loop_count in scan (loop_count - 1) 1 first (load first)

  -- The loop at a place of the rotation.
  abbrev pub place : ℕ → ℕ
  place k = (scan_start + k) % loop_count

  -- `k` is the place of the first least load among the first `n`.
  abbrev pub IsFirstLeast : ℕ → ℕ → Type 0
  IsFirstLeast n k =
      (k < n)
      × ((m : ℕ) → m < k → load (place k) < load (place m))
      × ((m : ℕ) → m < n → load (place k) ≤ load (place m))

  candidate-place : (k : ℕ) → scan_start + k < word → candidate k ≡ place k
  unfolding candidate
  candidate-place k h = grind arith

  extend_keep :
      (n k : ℕ) → IsFirstLeast n k → load (place k) ≤ load (place n) → IsFirstLeast (n + 1) k
  extend_keep n k (below, first, least) h = (
    omega arith,
    first,
    λ m l. elim (ℕ_discrete m n) [
      | yes e ↦ subst (λ j. load (place k) ≤ load (place j)) (sym e) h
      | no ne ↦ least m (omega arith)
    ],
  )

  extend_take :
      (n k : ℕ) → IsFirstLeast n k → load (place n) < load (place k) → IsFirstLeast (n + 1) n
  extend_take n k (below, first, least) h = (
    omega arith,
    λ m l. omega (arith, least m l),
    λ m l. elim (ℕ_discrete m n) [
      | yes e ↦ subst (λ j. load (place n) ≤ load (place j)) (sym e) (omega arith)
      | no ne ↦ omega (arith, least m (omega arith))
    ],
  )

  -- Nothing is below a load of 0.
  extend_idle :
      (n k rounds : ℕ) → IsFirstLeast n k → load (place k) ≡ 0 → IsFirstLeast (n + rounds) k
  extend_idle n k rounds (below, first, least) idle = (omega arith, first, λ m l. omega arith)

  -- One round of the scan.
  scan_idle : (rounds offset c l : ℕ) → l ≡ 0 → scan (suc rounds) offset c l ≡ c
  unfolding scan
  scan_idle rounds offset c l h = ground arith

  scan_take :
      (rounds offset c l : ℕ)
      → candidate offset ≡ place offset
      → load (place offset) < l
      → scan (suc rounds) offset c l ≡ scan rounds (offset + 1) (place offset) (load (place offset))
  unfolding scan
  scan_take rounds offset c l e h = ground arith

  scan_keep :
      (rounds offset c l : ℕ)
      → candidate offset ≡ place offset
      → 0 < l
      → l ≤ load (place offset)
      → scan (suc rounds) offset c l ≡ scan rounds (offset + 1) c l
  unfolding scan
  scan_keep rounds offset c l e pos h = ground arith

  abbrev Found : ℕ → ℕ → Type 0
  Found n c = (r : ℕ) × (c ≡ place r) × IsFirstLeast n r

  scan-Found :
      (rounds offset k : ℕ)
      → scan_start + (offset + rounds) ≤ word
      → IsFirstLeast offset k
      → Found (offset + rounds) (scan rounds offset (place k) (load (place k)))
  unfolding scan
  scan-Found zero offset k fits h = (k, refl, subst (λ n. IsFirstLeast n k) (omega arith) h)
  scan-Found (suc rounds) offset k fits h =
      let here = candidate-place offset (omega arith) in
      let more : offset + 1 + rounds ≡ offset + suc rounds = omega arith in
      elim (ℕ_discrete (load (place k)) 0) [
        | yes idle ↦ (
          k,
          scan_idle rounds offset (place k) (load (place k)) idle,
          extend_idle offset k (suc rounds) h idle,
        )
        | no busy ↦ elim (dec_lt (load (place offset)) (load (place k))) [
          | yes better ↦ rw (scan_take rounds offset (place k) (load (place k)) here better) (
              subst (λ n. Found n (scan rounds (offset + 1) (place offset) (load (place offset))))
                more
                (scan-Found rounds (offset + 1) offset (omega arith)
                  (extend_take offset k h better)))
          | no worse ↦
              rw
                (scan_keep rounds offset (place k) (load (place k)) here (omega arith)
                  (omega arith))
                (subst (λ n. Found n (scan rounds (offset + 1) (place k) (load (place k)))) more
                  (scan-Found rounds (offset + 1) k (omega arith)
                    (extend_keep offset k h (omega arith))))
        ]
      ]

  place_zero : place 0 ≡ scan_start % loop_count
  place_zero = ap (λ (n : ℕ). n % loop_count) (omega arith)

  -- In a pool that is not empty, with the offset a pool's size away from wrapping around, the loop
  -- that is chosen is the first least-loaded one of the rotation that starts at the offset.
  pub select-first_least : 0 < loop_count → scan_start + loop_count ≤ word → Found loop_count select
  unfolding select
  select-first_least some_loop fits = rw (← place_zero) (
      subst (λ n. Found n (scan (loop_count - 1) 1 (place 0) (load (place 0)))) (omega arith)
        (scan-Found (loop_count - 1) 1 0 (omega arith) (
          omega arith,
          λ m l. absurd (omega arith),
          λ m l.
              subst (λ j. load (place 0) ≤ load (place j)) {x = 0} {y = m} (omega arith)
                (omega arith),
        )))

  -- Every loop has a place in the rotation.
  place_onto : (j : ℕ) → j < loop_count → (m : ℕ) × (m < loop_count) × (place m ≡ j)
  place_onto j h = elim (dec_lt j (scan_start % loop_count)) [
    | yes low ↦ (j + loop_count - scan_start % loop_count, grind arith, grind arith)
    | no high ↦ (j - scan_start % loop_count, grind arith, grind arith)
  ]

  -- The chosen loop exists, and no loop is less loaded.
  pub select-least :
      0 < loop_count
      → scan_start + loop_count ≤ word
      → (select < loop_count) × ((j : ℕ) → j < loop_count → load select ≤ load j)
  select-least some_loop fits =
      let (r, found, (below, first, least)) = select-first_least some_loop fits in
      rw found (
        mod-lt (scan_start + r) some_loop,
        λ j h.
            let (m, inside, same) = place_onto j h in
            subst (λ i. load (place r) ≤ load i) same (least m inside),
      )

-- Where the rotating offset is about to wrap around and the first two of three loops are busy, the
-- scan misses the last one, idle or not.
pub select_wrapped : (load : ℕ → ℕ) → 0 < load 0 → 0 < load 1 → select load 3 (word - 1) ≢ 2
unfolding select
select_wrapped load busy0 busy1 = ground arith
