-- ===== src/Mutate/Combinators.antt =====
-- crates/lsf-mutate/src/sample.rs and schedule.rs: strategies over strategies.
pub mod Idle
use ast_sqlite_test.Common.{
  ℕ, zero, suc, ◌+◌, Bool, true, false, List, [], ◌∷◌, Option, none, some, ◌==◌, ◌>>=◌, length,
  get_elem?, if◌then◌else◌,
}
use ast_sqlite_test.Feedback.Outcome.{mutated, noop, Handle, attach_hook}
use ast_sqlite_test.Mutate.Strategy.{
  MutationState, mutated_child, unchanged, MutationError, no_op, BreedResult, ok, err, is_mutated,
  Host, World, draw, flip, tell, Child, Breed, MutationStrategy,
}

module _ (H : Host) where
  -- `Randomly`
  unfoldable pub randomly : MutationStrategy H → H.F64 → MutationStrategy H
  randomly over prob = record {
    breed_inner = over.breed;
    breed = λ child parent_gen w.
        let (hit, w') = flip H prob w in
        if hit then over.breed child parent_gen w' else some (child, w', ok unchanged);
  }

  -- The rounds of `RandomMutationSampler`; an error counts as no mutation.
  unfoldable pub sample_rounds : List (MutationStrategy H) → ℕ → MutationState → Breed H
  sample_rounds choices zero status child parent_gen w = some (child, w, ok status)
  sample_rounds choices (suc rounds) status child parent_gen w =
      draw H 0 (length choices) w >>= λ chosen. get_elem? choices chosen.0 >>= λ strategy.
      strategy.breed child parent_gen chosen.1 >>= λ r.
      sample_rounds choices rounds (if is_mutated r.2 then mutated_child else status) r.0 parent_gen
        r.1

  unfoldable pub random_mutation_sampler : ℕ → ℕ → List (MutationStrategy H) → MutationStrategy H
  random_mutation_sampler choose_max choose_min choices = record {
    breed_inner = λ child parent_gen w. some (child, w, err no_op);
    breed = λ child parent_gen w. draw H choose_min (choose_max + 1) w >>= λ chosen.
        if chosen.0 == 0
        then some (child, chosen.1, ok unchanged)
        else sample_rounds choices chosen.0 unchanged child parent_gen chosen.1;
  }

  -- The rounds of `Repeat`: an error ends them.
  unfoldable pub repeat_rounds : MutationStrategy H → ℕ → MutationState → Breed H
  repeat_rounds inner zero state child parent_gen w = some (child, w, ok state)
  repeat_rounds inner (suc rounds) state child parent_gen w =
      inner.breed child parent_gen w >>= λ r. elim (r.2) [
        | ok mutated_child ↦ repeat_rounds inner rounds mutated_child r.0 parent_gen r.1
        | ok unchanged ↦ repeat_rounds inner rounds state r.0 parent_gen r.1
        | err e ↦ some (r.0, r.1, err e)
      ]

  unfoldable pub repeat : ℕ → MutationStrategy H → MutationStrategy H
  repeat up_to inner = record {
    breed_inner = inner.breed;
    breed = λ child parent_gen w.
        draw H 1 (up_to + 1) w >>= λ n. repeat_rounds inner n.0 unchanged child parent_gen n.1;
  }

  unfoldable pub sigmoid : H.F64 → H.F64
  sigmoid score = H.div (H.of_nat 1) (H.add (H.of_nat 1) (H.exp (H.mul H.minus_half score)))

  -- What a breeding under an arm tells the arm and the child.
  unfoldable pub report : Handle → Child H × World H × BreedResult → Child H × World H × BreedResult
  report arm r =
      if is_mutated r.2
      then (attach_hook arm r.0, tell H mutated arm r.1, r.2)
      else (r.0, tell H noop arm r.1, r.2)

  -- `AdaptiveStrategyScheduler`
  unfoldable pub adaptive_strategy_scheduler : MutationStrategy H → Handle → MutationStrategy H
  adaptive_strategy_scheduler strategy arm = record {
    breed_inner = strategy.breed;
    breed = λ child parent_gen w.
        let (heap, score) = H.calculate_score arm w.heap in
        let (hit, w') = flip H (sigmoid score) (record w { heap = heap }) in
        if hit
        then (strategy.breed child parent_gen w' >>= λ r. some (report arm r))
        else some (child, w', ok unchanged);
  }
