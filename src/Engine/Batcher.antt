-- ===== src/Engine/Batcher.antt =====
-- crates/lsf-engine/src/schedule.rs, `SchedulerBatcher`: entries of the inner scheduler that are
-- handed out several times before it is asked again. `E` is an entry, `digits` what its first
-- parent hook, if it has one, makes of its score: `(1. + score.min(MAX_WEIGHT)).log10().ceil()`.
pub mod Pools
pub mod Energy
use ast_sqlite_test.Common.{
  ℕ, zero, suc, ◌+◌, ◌-◌, ◌*◌, ◌^◌, min, max, Bool, true, false, List, [], ◌∷◌, ◌++◌, Option, none,
  some, ltb, ◌==◌, ◌>>=◌, if◌then◌else◌, length, option_map, get_elem?, get_or, set, take, map,
}

abbrev pub max_refill : ℕ
max_refill = 128

abbrev pub batch_multiplicator : ℕ
batch_multiplicator = 4

abbrev pub min_refill : ℕ
min_refill = 32

abbrev pub base_persistence : ℕ
base_persistence = 5

abbrev pub usize_max : ℕ
usize_max = 2 ^ 64 - 1

-- `Vec::swap_remove` of an index in range
unfoldable pub swap_remove {ℓ} : {A : Type ℓ} → ℕ → A → List A → List A
swap_remove i d xs = take (length xs - 1) (set xs i (get_or xs (length xs - 1) d))

module _ {E : Type 0} where
  unfoldable pub calculate_persistence : (E → Option ℕ) → E → ℕ
  calculate_persistence digits entry = elim (digits entry) [
    | none ↦ base_persistence
    | some n ↦ base_persistence * n
  ]

  unfoldable pub with_energy : (E → Option ℕ) → List E → List (E × ℕ)
  with_energy digits [] = []
  with_energy digits (item ∷ items) =
      (item, calculate_persistence digits item) ∷ with_energy digits items

  -- The entry at an index of the pool, and the pool when one of its uses is spent. `usize`
  -- subtraction wraps.
  unfoldable pub spend : ℕ → List (E × ℕ) → Option (E × List (E × ℕ))
  spend rd_index batch = elim (get_elem? batch rd_index) [
    | none ↦ none
    | some (entry, energy) ↦
        let energy' = if energy == 0 then usize_max else energy - 1 in
        let rest = set batch rd_index (entry, energy') in
        some (entry, if energy' == 0 then swap_remove rd_index (entry, energy') rest else rest)
  ]

module _ {E Inner C R : Type 0} (inner_next_batch : C → ℕ → R → Inner → List E × C × R × Inner)
    (digits : E → Option ℕ) (random_range : ℕ → ℕ → R → ℕ × R) where
  pub record SchedulerBatcher : Type 0 where
    pub inner_scheduler : Inner
    pub batch : List (E × ℕ)

  -- The batcher with the corpus and the generator that it is lent.
  pub record Lent : Type 0 where
    pub batcher : SchedulerBatcher
    pub corpus : C
    pub rng : R

  unfoldable pub refill : ℕ → Lent → Lent
  refill size s =
      let wanted = min (max size min_refill) max_refill in
      let (items, corpus, rng, inner) =
        inner_next_batch s.corpus wanted s.rng s.batcher.inner_scheduler in
      record {
        batcher = record {
          inner_scheduler = inner;
          batch = s.batcher.batch ++ with_energy digits items;
        };
        corpus = corpus;
        rng = rng;
      }

  unfoldable pub refill_if_empty : ℕ → Lent → Lent
  refill_if_empty size s =
      if length s.batcher.batch == 0 then refill (size * batch_multiplicator) s else s

  -- A round of the loop hands out one entry. `none` is the panic of a draw from an empty range.
  unfoldable pub draw_one : ℕ → Lent → Option (E × Lent)
  unfolding refill_if_empty
  draw_one size s =
      let s₁ = refill_if_empty size s in
      let n = length s₁.batcher.batch in
      let (rd_index, rng) = random_range (n - min n size) n s₁.rng in
      option_map
        (λ spent.
          (spent.0, record s₁ { batcher = record (s₁.batcher) { batch = spent.1 }; rng = rng }))
        (spend rd_index s₁.batcher.batch)

  unfoldable pub draw_all : ℕ → ℕ → Lent → Option (List E × Lent)
  draw_all size zero s = some ([], s)
  draw_all size (suc count) s = elim (draw_one size s) [
    | none ↦ none
    | some (entry, s') ↦ option_map (λ r. (entry ∷ r.0, r.1)) (draw_all size count s')
  ]

  unfoldable pub next_batch : ℕ → Lent → Option (List E × Lent)
  next_batch size s =
      draw_all size size
        (if ltb (length s.batcher.batch) size then refill (size * batch_multiplicator) s else s)
