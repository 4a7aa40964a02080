-- ===== src/Mutate/Mab.antt =====
-- crates/lsf-mutate/src/schedule.rs, `MABScheduler`: the strategies with the best scores, one after
-- the other. The queue behind the lock is an argument and a part of the result.
pub mod Rules
use ast_sqlite_test.Common.{
  ℕ, ◌+◌, ◌*◌, Bool, true, false, List, [], ◌∷◌, ◌++◌, Option, none, some, ◌>>=◌, length,
  if◌then◌else◌,
}
use ast_sqlite_test.Mutate.Strategy.{
  BreedResult, ok, err, no_op, is_mutated, state_of, Host, World, Child, Breed, MutationStrategy,
}
use ast_sqlite_test.Mutate.Combinators.{report}
use ast_sqlite_test.Mutate.Queue.{ScheduledItem, new_item, take_items}

abbrev pub accept_under : ℕ
accept_under = 10

module _ (H : Host) where
  abbrev pub Rule : Type 0
  Rule = ScheduledItem H (MutationStrategy H)

  -- The queue of `new`: the assertion that there are enough strategies is left to the caller.
  unfoldable pub new_queue : List (MutationStrategy H) → World H → List Rule × World H
  new_queue [] w = ([], w)
  new_queue (s ∷ strategies) w =
      let (rule, w₁) = new_item H s w in
      let (rules, w₂) = new_queue strategies w₁ in (rule ∷ rules, w₂)

  unfoldable pub apply_rules :
      List Rule → Bool → Child H → List (Child H) → World H → Option (Child H × World H × Bool)
  apply_rules [] is_mutated_yet parent parent_gen w = some (parent, w, is_mutated_yet)
  apply_rules (rule ∷ rules) is_mutated_yet parent parent_gen w =
      rule.item.breed parent parent_gen w >>= λ r.
      let told = report H rule.stats r in
      apply_rules rules (if is_mutated r.2 then true else is_mutated_yet) told.0 parent_gen told.1

  unfoldable pub mab_breed_inner : Breed H
  mab_breed_inner parent parent_gen w = some (parent, w, err no_op)

  unfoldable pub mab_breed :
      ℕ
      → List Rule
      → Child H
      → List (Child H)
      → World H
      → Option (List Rule × Child H × World H × BreedResult)
  mab_breed choose queue parent parent_gen w =
      take_items H (2 * length queue + 1) accept_under choose (H.epoch w.heap) queue [] w >>= λ t.
      apply_rules t.0 false parent parent_gen t.2 >>= λ r.
      some (t.1 ++ t.0, r.0, r.1, ok (state_of r.2))
