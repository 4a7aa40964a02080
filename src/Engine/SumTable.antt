-- ===== src/Engine/SumTable.antt =====
-- crates/lsf-engine/src/probabilisitic_mab.rs, `BlockSumTable`: roulette over blocks of weights.
-- The operations of `f64` are those of `Floats`, of which no law of a sum is used: a sum may have
-- drifted, `sample` may fall through, and `resum` adds in the source's order. `iter().sum()` starts
-- at zero. `none` is the panic of an index out of range, or that of `random_range`.
pub mod Weights
pub mod Table
pub mod Windows
pub mod Repair
pub mod Roulette
use ast_sqlite_test.Common.{
  ℕ, zero, suc, ◌+◌, ◌-◌, ◌*◌, ◌/◌, ◌%◌, ◌>>=◌, min, max, Bool, true, false, List, [], ◌∷◌, ◌++◌,
  Option, none, some, ltb, leb, ◌==◌, if◌then◌else◌, length, get_elem?, get_or, set, take, drop,
  map,
}
use ast_sqlite_test.Feedback.Floats.{Floats}

-- For an `alignment` that is a power of two, `& !(alignment - 1)` clears the bits below it.
unfoldable pub align_up : ℕ → ℕ → ℕ
align_up n alignment = let raised = n + alignment - 1 in raised - raised % alignment

-- `(n as f64).sqrt().ceil()`: the first `s` from `from` on with `n ≤ s * s`; `fuel` bounds the search.
unfoldable pub ceil_sqrt : ℕ → ℕ → ℕ → ℕ
ceil_sqrt zero n from = from
ceil_sqrt (suc fuel) n from =
    let later = ceil_sqrt fuel n (suc from) in if leb n (from * from) then from else later

module _ (F : Floats) where
  abbrev pub nothing : F.F64
  nothing = F.of_nat 0

  pub record BlockSumTable : Type 0 where
    pub leaves : List F.F64
    pub blocks : List F.F64
    pub total_sum : F.F64
    pub block_size : ℕ
    pub free_slots : List ℕ
    pub requests : ℕ
    pub fall_through : ℕ

  unfoldable pub new : ℕ → BlockSumTable
  unfolding ceil_sqrt align_up
  new initial_capacity = record {
    leaves = [];
    blocks = [];
    total_sum = nothing;
    block_size = align_up (ceil_sqrt initial_capacity initial_capacity 0) 2;
    free_slots = [];
    requests = 0;
    fall_through = 0;
  }

  unfoldable pub set_weight : ℕ → F.F64 → BlockSumTable → Option BlockSumTable
  set_weight slot weight t =
      let block_idx = slot / t.block_size in
      let blocks = if leb (length t.blocks) block_idx then t.blocks ++ nothing ∷ [] else t.blocks in
      get_elem? t.leaves slot >>= λ old. get_elem? blocks block_idx >>= λ block. some (record t {
        leaves = set t.leaves slot weight;
        blocks = set blocks block_idx (F.add block (F.sub weight old));
        total_sum = F.add t.total_sum (F.sub weight old);
      })

  -- A leaf beyond the blocks is left out.
  abbrev pub add_leaves : ℕ → ℕ → List F.F64 → List F.F64 → List F.F64
  add_leaves block_size leaf_idx [] blocks = blocks
  add_leaves block_size leaf_idx (leaf ∷ leaves) blocks =
      let block_idx = leaf_idx / block_size in
      add_leaves block_size (suc leaf_idx) leaves
        (set blocks block_idx (F.add (get_or blocks block_idx nothing) leaf))

  -- The weights added to a sum, from left to right
  abbrev pub sum_from : F.F64 → List F.F64 → F.F64
  sum_from acc [] = acc
  sum_from acc (w ∷ ws) = sum_from (F.add acc w) ws

  unfoldable pub resum : BlockSumTable → BlockSumTable
  resum t =
      let blocks = add_leaves t.block_size 0 t.leaves (map (λ sum. nothing) t.blocks) in
      record t {
        blocks = blocks;
        total_sum = sum_from nothing blocks;
        requests = 0;
        fall_through = 0;
      }

  -- The index of the first weight above what is left of the target, and what is left there.
  abbrev pub spin : F.F64 → List F.F64 → Option (ℕ × F.F64)
  spin target [] = none
  spin target (w ∷ ws) =
      let later = spin (F.sub target w) ws in
      if F.below target w then some (0, target) else (later >>= λ r. some (suc r.0, r.1))

  -- What is left after all weights
  abbrev pub spent : F.F64 → List F.F64 → F.F64
  spent target [] = target
  spent target (w ∷ ws) = spent (F.sub target w) ws

  -- The block of the target; the first one, with what is left after all of them, when there is none.
  unfoldable pub find_block : F.F64 → List F.F64 → ℕ × F.F64
  find_block target blocks = elim (spin target blocks) [
    | none ↦ (0, spent target blocks)
    | some r ↦ r
  ]

  -- What `sample` does with the number that it draws.
  unfoldable pub pick : F.F64 → BlockSumTable → Option (BlockSumTable × Option ℕ)
  unfolding find_block
  pick drawn t =
      let (block_idx, target) = find_block drawn t.blocks in
      let start = block_idx * t.block_size in
      let counted : BlockSumTable = record t { requests = t.requests + 1 } in
      if ltb (length t.leaves) start
      then none
      else some (elim (spin target (take t.block_size (drop start t.leaves))) [
        | none ↦ (record counted { fall_through = t.fall_through + 1 }, some (length t.leaves - 1))
        | some r ↦ (counted, some (start + r.0))
      ])

  -- `random_range` is the generator's draw below a bound; it panics on an empty range.
  unfoldable pub sample : (F.F64 → Option F.F64) → BlockSumTable → Option (BlockSumTable × Option ℕ)
  sample random_range t =
      if length t.leaves == 0
      then some (t, none)
      else (random_range t.total_sum >>= λ drawn. pick drawn t)

  module _ (min_weight max_weight : F.F64) where
    unfoldable pub push : F.F64 → BlockSumTable → Option (BlockSumTable × ℕ)
    push weight t =
        let idx = length t.leaves in
        set_weight idx (F.clamp min_weight max_weight weight)
          (record t { leaves = t.leaves ++ nothing ∷ [] })
        >>= λ t'. some (t', idx)

    unfoldable pub insert : F.F64 → BlockSumTable → Option (BlockSumTable × ℕ)
    insert weight t = elim t.free_slots [
      | [] ↦ push weight t
      | free ∷ slots ↦
          set_weight free weight (record t { free_slots = slots }) >>= λ t'. some (t', free)
    ]

    unfoldable pub update : ℕ → F.F64 → BlockSumTable → Option BlockSumTable
    update idx weight t = set_weight idx (F.clamp min_weight max_weight weight) t

  unfoldable pub remove : ℕ → BlockSumTable → Option BlockSumTable
  remove idx t =
      set_weight idx nothing t >>= λ t'. some (record t' { free_slots = idx ∷ t'.free_slots })
