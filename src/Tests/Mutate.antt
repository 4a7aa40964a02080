-- ===== src/Tests/Mutate.antt =====
-- Runs of the strategies under a concrete host.

use ast_sqlite_test.Common.{
  ℕ, ◌+◌, ◌*◌, ◌≡◌, ◌⊎◌, refl, Bool, true, List, [], ◌∷◌, some, length, arith,
}
use ast_sqlite_test.Feedback.Outcome.{noop}
use ast_sqlite_test.Mutate.Strategy.{
  ok, mutated_child, unchanged, BreedResult, is_mutated, World, Child, fire_parent_hooks,
  by_default, breed_by_default, do_nothing, with_ast, draw, flip, choose_from, get_mut, ast_mut,
}
use ast_sqlite_test.Mutate.Combinators.{randomly}
use ast_sqlite_test.Mutate.Combinators.Idle.{atom, chosen}
use ast_sqlite_test.Mutate.Visit.{edit, edit_tree, visiting}
use ast_sqlite_test.Mutate.Values.{numeric_bounds, numeric_step}
use ast_sqlite_test.Mutate.Splice.{
  splice, slice, splice_in, splice_in_from, splice_out, splice_out_tree, splice_len, set_ops,
  set_ops_from, combine_queries, query_indices, pick, pick_entry, push_parent,
}
use ast_sqlite_test.Mutate.Splice.Crossing.{Crossed}
use ast_sqlite_test.Mutate.Splice.Queries.{CombinedWith, set_ops_lem}
use ast_sqlite_test.Mutate.Trees.{shuffle_self, tree_mutator}
use ast_sqlite_test.Mutate.Trees.ShuffleSelf.{shuffle_self_idle}
use ast_sqlite_test.Mutate.Json.{Json, null, object, end, entry}
use ast_sqlite_test.Mutate.Catalogue.{bounds, mutation_told}
use ast_sqlite_test.Mutate.Queue.{take_items}
use ast_sqlite_test.Mutate.Queue.Loop.{Taken, take_items-Taken}
use ast_sqlite_test.Mutate.Mab.{Rule, mab_breed}
use ast_sqlite_test.Mutate.Mab.Rules.{AllRules, IsSafe, mab_breed_lem}
use ast_sqlite_test.Tests.Hosts.{dice, numbers, nodes, entry_of, with_draws}

abbrev long_entry : Child dice
long_entry = entry_of 3 1 (10 ∷ 11 ∷ 12 ∷ 13 ∷ 14 ∷ [])

abbrev donor_entry : Child dice
donor_entry = entry_of 4 2 (20 ∷ 21 ∷ 22 ∷ [])

-- Two statements of the donor, put in at the child's second place
abbrev spliced : Child dice
spliced = record long_entry {
  entry = record {
    id = 3;
    parents = 4 ∷ [];
    ast = record { tree = 10 ∷ 21 ∷ 22 ∷ 11 ∷ 12 ∷ 13 ∷ 14 ∷ []; count = 1 };
  };
}

splice_in_run :
    (splice_in dice 5 0).breed long_entry (donor_entry ∷ []) (with_draws (0 ∷ 1 ∷ 1 ∷ 0 ∷ 1 ∷ []))
    ≡ some (spliced, with_draws [], ok mutated_child)
unfolding splice_in splice_in_from by_default splice_len splice slice pick_entry push_parent
    with_ast ast_mut get_mut draw flip breed_by_default fire_parent_hooks
splice_in_run = refl

-- The last two of five statements, taken out
abbrev shortened : Child dice
shortened = entry_of 3 1 (10 ∷ 11 ∷ 12 ∷ [])

splice_out_run :
    (splice_out dice 5 0).breed long_entry [] (with_draws (3 ∷ 1 ∷ 1 ∷ 0 ∷ []))
    ≡ some (shortened, with_draws [], ok mutated_child)
unfolding splice_out splice_out_tree by_default splice_len splice with_ast ast_mut get_mut draw flip
    breed_by_default fire_parent_hooks
splice_out_run = refl

-- Every statement is a query; a combination is a number of its parts.
abbrev all_queries : ℕ → Bool
all_queries stmt = true

abbrev combine : ℕ → Bool → ℕ → ℕ → ℕ
combine op all left right = op + left * 100 + right

abbrev combined : Child dice
combined = record long_entry {
  entry = record {
    id = 3;
    parents = 4 ∷ [];
    ast = record { tree = 10 ∷ 11 ∷ 1322 ∷ 13 ∷ 14 ∷ []; count = 1 };
  };
}

set_ops_run :
    (set_ops dice all_queries combine 0).breed long_entry
      (donor_entry ∷ [])
      (with_draws (0 ∷ 2 ∷ 1 ∷ 0 ∷ 3 ∷ 2 ∷ []))
    ≡ some (combined, with_draws [], ok mutated_child)
unfolding set_ops set_ops_from combine_queries query_indices pick by_default pick_entry push_parent
    with_ast ast_mut get_mut draw flip breed_by_default fire_parent_hooks
set_ops_run = refl

set_ops_lem_example :
    (child' : Child dice) × (w' : World dice) × (r : BreedResult) × ((set_ops dice all_queries
          combine 0).breed
        long_entry
        (donor_entry ∷ [])
        (with_draws (0 ∷ 2 ∷ 1 ∷ 0 ∷ 3 ∷ 2 ∷ []))
      ≡ some (child', w', r))
    × Crossed dice (CombinedWith dice all_queries combine 0) (donor_entry ∷ []) long_entry child' r
set_ops_lem_example =
    set_ops_lem dice all_queries combine 0 long_entry (donor_entry ∷ [])
      (with_draws (0 ∷ 2 ∷ 1 ∷ 0 ∷ 3 ∷ 2 ∷ [])) (omega arith)

abbrev outer : Json
outer = object (entry "left" (object (entry "right" (object (entry "value" null end)) end)) end)

shuffle_self_idle_example :
    (tree_mutator dice nodes shuffle_self 1 1).breed long_entry [] (with_draws (1 ∷ []))
    ≡ some (long_entry, fire_parent_hooks dice noop long_entry (with_draws (1 ∷ [])), ok unchanged)
shuffle_self_idle_example =
    shuffle_self_idle dice nodes 1 1 long_entry [] (with_draws (1 ∷ [])) (ground arith)

-- The second number becomes another one.
abbrev renumbered : Child dice
renumbered = entry_of 3 1 (10 ∷ 111 ∷ 12 ∷ 13 ∷ 14 ∷ [])

renumbering :
    (randomly dice (numeric_bounds dice numbers 1) 1).breed long_entry []
      (with_draws (1 ∷ 0 ∷ 1 ∷ 3 ∷ 0 ∷ 0 ∷ 0 ∷ []))
    ≡ some (renumbered, with_draws [], ok mutated_child)
unfolding randomly numeric_bounds numeric_step edit edit_tree visiting by_default with_ast ast_mut
    get_mut flip breed_by_default fire_parent_hooks choose_from
renumbering = refl

mutation_told_example : (is_mutated (ok mutated_child) ≡ true) ⊎ (renumbered ≡ long_entry)
mutation_told_example =
    mutation_told dice numbers (randomly dice (numeric_bounds dice numbers 1) 1) long_entry
      renumbered [] (with_draws (1 ∷ 0 ∷ 1 ∷ 3 ∷ 0 ∷ 0 ∷ 0 ∷ [])) (with_draws []) (ok mutated_child)
      (chosen {s = numeric_bounds dice numbers 1} 1
        (atom {s = numeric_bounds dice numbers 1} (bounds 1)))
      renumbering

-- Rules of which one has a score that is too old
abbrev rules : List (Rule dice)
rules =
    record { score = 5; epoch = 0; stats = 1; item = do_nothing dice }
    ∷ record { score = 3; epoch = 20; stats = 2; item = do_nothing dice }
    ∷ []

take_items-Taken_example :
    (acc : List (Rule dice)) × (queue' : List (Rule dice)) × (w' : World dice) × (take_items dice
        (2 * length rules + 1)
        10
        1
        20
        rules
        []
        (with_draws [])
      ≡ some (acc, queue', w'))
    × Taken dice 10 20 1 rules [] acc queue'
take_items-Taken_example = take_items-Taken dice 10 20 1 rules (with_draws [])

do_nothing-IsSafe : IsSafe dice (do_nothing dice).breed
unfolding do_nothing by_default breed_by_default
do_nothing-IsSafe = ((λ child gen w child' w' r h q. ground (arith, h)), λ child gen w. (_, refl))

rules-IsSafe : AllRules dice (IsSafe dice) rules
rules-IsSafe = (do_nothing-IsSafe, (do_nothing-IsSafe, tt))

mab_breed_lem_example :
    (queue' : List (Rule dice)) × (child' : Child dice) × (w' : World dice) × (r : BreedResult)
    × (mab_breed dice 1 rules long_entry [] (with_draws []) ≡ some (queue', child', w', r))
    × (length queue' ≡ length rules)
    × AllRules dice (IsSafe dice) queue'
    × ((is_mutated r ≡ true) ⊎ (child' ≡ long_entry))
mab_breed_lem_example = mab_breed_lem dice 1 rules long_entry [] (with_draws []) rules-IsSafe
