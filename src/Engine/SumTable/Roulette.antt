-- ===== src/Engine/SumTable/Roulette.antt =====
-- Sampling: where the two scans, of the blocks and of a block's leaves, stop.
use ast_sqlite_test.Common.{
  ℕ, zero, suc, ◌+◌, ◌-◌, ◌*◌, ◌≤◌, ◌<◌, ◌≡◌, ◌⊎◌, inl, inr, refl, true, false, List, [], ◌∷◌,
  Option, none, some, ltb, ◌==◌, length, get_or, take, drop, arith, Bool-cases,
}
use native.Mathlib.Nat.{suc-add, zero-add, zero-mul}
use ast_sqlite_test.Feedback.Floats.{Floats}
use ast_sqlite_test.Engine.SumTable.{nothing, BlockSumTable, spin, spent, pick, sample, find_block}
use ast_sqlite_test.Engine.SumTable.Windows.{window}
use ast_sqlite_test.Engine.SumTable.Weights.{IsValid}

-- The weights of a window stand in the list from its start on.
get_or-take :
    {A : Type 0} (n i : ℕ) (xs : List A) (d : A)
    → i < length (take n xs)
    → get_or (take n xs) i d ≡ get_or xs i d
get_or-take zero i xs d h = absurd (omega arith)
get_or-take (suc n) i [] d h = absurd (omega arith)
get_or-take (suc n) zero (y ∷ ys) d h = refl
get_or-take (suc n) (suc i) (y ∷ ys) d h = get_or-take n i ys d (omega arith)

get_or-drop :
    {A : Type 0} (m i : ℕ) (xs : List A) (d : A) → get_or (drop m xs) i d ≡ get_or xs (m + i) d
get_or-drop zero i xs d = rw (zero-add i) refl
get_or-drop (suc m) i [] d = refl
get_or-drop (suc m) i (x ∷ xs) d = rw (suc-add m i) (get_or-drop m i xs d)

window_in_range :
    {A : Type 0} (m n i : ℕ) (xs : List A) → i < length (window m n xs) → m + i < length xs
window_in_range zero zero i xs h = absurd (omega arith)
window_in_range zero (suc n) i [] h = absurd (omega arith)
window_in_range zero (suc n) zero (x ∷ xs) h = omega arith
window_in_range zero (suc n) (suc i) (x ∷ xs) h =
    omega (arith, window_in_range zero n i xs (omega arith))
window_in_range (suc m) zero i [] h = absurd (omega arith)
window_in_range (suc m) (suc n) i [] h = absurd (omega arith)
window_in_range (suc m) n i (x ∷ xs) h = omega (arith, window_in_range m n i xs h)

module _ (F : Floats) where
  -- A scan with a target: at each weight the target is below it, and the scan stops, or it is not,
  -- and the weight is taken off the target.
  pub data Stops : F.F64 → List F.F64 → ℕ → F.F64 → Type 0 where
    here :
        {target w : F.F64} {ws : List F.F64}
        → F.below target w ≡ true
        → Stops target (w ∷ ws) 0 target
    further :
        {target w left : F.F64} {ws : List F.F64} {i : ℕ}
        → F.below target w ≡ false
        → Stops (F.sub target w) ws i left
        → Stops target (w ∷ ws) (suc i) left

  -- A scan that stops nowhere, and what is left of the target
  pub data Passes : F.F64 → List F.F64 → F.F64 → Type 0 where
    ended : {target : F.F64} → Passes target [] target
    passed :
        {target w left : F.F64} {ws : List F.F64}
        → F.below target w ≡ false
        → Passes (F.sub target w) ws left
        → Passes target (w ∷ ws) left

  -- What is left at the stop is below the weight there.
  Stops-at :
      {target left : F.F64} {ws : List F.F64} {i : ℕ}
      → Stops target ws i left
      → (i < length ws) × (F.below left (get_or ws i (nothing F)) ≡ true)
  Stops-at (here b) = (omega arith, b)
  Stops-at (further b s) = let (low, under) = Stops-at s in (omega (arith, low), under)

  spin_lem :
      (target : F.F64) (ws : List F.F64)
      → ((i : ℕ) × (left : F.F64) × (spin F target ws ≡ some (i, left)) × Stops target ws i left)
        ⊎ ((spin F target ws ≡ none) × Passes target ws (spent F target ws))
  spin_lem target [] = inr (refl, ended)
  spin_lem target (w ∷ ws) = elim (Bool-cases (F.below target w)) [
    | inl b ↦ inl (0, target, rw b refl, here b)
    | inr b ↦ elim (spin_lem (F.sub target w) ws) [
      | inl (i, left, found, s) ↦ inl (suc i, left, rw b (rw found refl), further b s)
      | inr (gone, p) ↦ inr (rw b (rw gone refl), passed b p)
    ]
  ]

  -- The block that a draw chooses, with what is left of the draw
  abbrev pub Chosen : F.F64 → List F.F64 → ℕ → F.F64 → Type 0
  Chosen drawn blocks b target =
      Stops drawn blocks b target ⊎ ((b ≡ 0) × Passes drawn blocks target)

  find_block_lem :
      (drawn : F.F64) (blocks : List F.F64)
      → Chosen drawn blocks (find_block F drawn blocks).0 (find_block F drawn blocks).1
  unfolding find_block
  find_block_lem drawn blocks = elim (spin_lem drawn blocks) [
    | inl (i, left, found, s) ↦ rw (found, find_block) (inl s)
    | inr (gone, p) ↦ rw (gone, find_block) (inr (refl, p))
  ]

  -- What a sample of a table gives for what is left of the draw at a block
  abbrev pub Sampled : ℕ → F.F64 → BlockSumTable F → BlockSumTable F → ℕ → Type 0
  Sampled b target t t' slot =
      ((i : ℕ) × (left : F.F64) × Stops target (window (b * t.block_size) t.block_size t.leaves) i
          left
        × (slot ≡ b * t.block_size + i)
        × (F.below left (get_or t.leaves slot (nothing F)) ≡ true)
        × (t' ≡ record t { requests = t.requests + 1 }))
      ⊎ ((left : F.F64) × Passes target (window (b * t.block_size) t.block_size t.leaves) left
          × (slot + 1 ≡ length t.leaves)
          × (t' ≡ record t { requests = t.requests + 1; fall_through = t.fall_through + 1 }))

  pick_lem :
      (drawn : F.F64) (t : BlockSumTable F)
      → IsValid F t
      → 0 < length t.leaves
      → (t' : BlockSumTable F) × (slot : ℕ) × (b : ℕ) × (target : F.F64) × (pick F drawn t
          ≡ some (t', some slot))
        × (slot < length t.leaves)
        × Chosen drawn t.blocks b target
        × Sampled b target t t' slot
  unfolding pick
  pick_lem drawn t v h =
      let (b, target) = find_block F drawn t.blocks in
      let chosen = find_block_lem drawn t.blocks in
      let start = b * t.block_size in
      let begins : start ≤ length t.leaves = elim chosen [
        | inl s ↦ omega (arith, v.filled b (Stops-at s).0)
        | inr (first, p) ↦ rw first (rw (zero-mul t.block_size) (omega arith))
      ] in
      let inside : ltb (length t.leaves) start ≡ false = ground (arith, begins) in
      elim (spin_lem target (window start t.block_size t.leaves)) [
        | inl (i, left, found, s) ↦
            let (low, under) = Stops-at s in
            let at = window_in_range start t.block_size i t.leaves low in
            (
              record t { requests = t.requests + 1 },
              start + i,
              b,
              target,
              rw (inside, pick) (rw (found, pick) refl),
              at,
              chosen,
              inl (
                i,
                left,
                s,
                refl,
                rw (← get_or-drop start i t.leaves (nothing F))
                    (rw (← get_or-take t.block_size i (drop start t.leaves) (nothing F) low) under),
                refl,
              ),
            )
        | inr (gone, p) ↦ (
          record t { requests = t.requests + 1; fall_through = t.fall_through + 1 },
          length t.leaves - 1,
          b,
          target,
          rw (inside, pick) (rw (gone, pick) refl),
          omega (arith, h),
          chosen,
          inr (spent F target (window start t.block_size t.leaves), p, omega (arith, h), refl),
        )
      ]

  -- On a valid table with a slot, whatever its sums are, and where the generator draws from the
  -- total, `sample` does not panic, counts the request and gives a slot of the table. The block is
  -- the first one that what is left of the draw is below, the sums before it taken off, or the
  -- first of all where there is none. In it the slot is found the same way: what is left then is
  -- below the slot's own weight. Where no leaf of the block stops the scan, the fall-through is
  -- counted and the slot is the last one of the table.
  pub sample_wheel :
      (random_range : F.F64 → Option F.F64) (drawn : F.F64) (t : BlockSumTable F)
      → IsValid F t
      → 0 < length t.leaves
      → random_range t.total_sum ≡ some drawn
      → (t' : BlockSumTable F) × (slot : ℕ) × (b : ℕ) × (target : F.F64) × (sample F random_range t
          ≡ some (t', some slot))
        × (slot < length t.leaves)
        × Chosen drawn t.blocks b target
        × Sampled b target t t' slot
  unfolding sample
  sample_wheel random_range drawn t v h rolled =
      let occupied : (length t.leaves == 0) ≡ false = ground (arith, h) in
      let (t', slot, b, target, run, inside, chosen, sampled) = pick_lem drawn t v h in
      (
        t',
        slot,
        b,
        target,
        rw (occupied, sample) (rw (rolled, sample) run),
        inside,
        chosen,
        sampled,
      )
