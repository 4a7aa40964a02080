-- ===== src/Mutate/Catalogue.antt =====
-- The strategies of crates/lsf-mutate together: what the engine can be given, built from those that
-- change a tree by the combinators of sample.rs and schedule.rs.
use ast_sqlite_test.Common.{ℕ, ◌≡◌, ◌⊎◌, Bool, true, List, some, arith, Bool-cases, inl, inr}
use ast_sqlite_test.Mutate.Strategy.{
  Host, World, Child, BreedResult, MutationStrategy, do_nothing, by_default, is_mutated,
}
use ast_sqlite_test.Mutate.Combinators.Idle.{
  IsStrict, breed_by_default-IsStrict, Composed, Composed-IsStrict,
}
use ast_sqlite_test.Mutate.Syntax.{Syntax}
use ast_sqlite_test.Mutate.Values.{
  numeric_bounds, operator_flip, null_inject, type_cast, force_ident,
}
use ast_sqlite_test.Mutate.Values.Flips.{values-IsStrict, force_ident-IsStrict}
use ast_sqlite_test.Mutate.Splice.{splice_in, splice_out, set_ops}
use ast_sqlite_test.Mutate.Splice.Runs.{splice_in-IsStrict}
use ast_sqlite_test.Mutate.Splice.Out.{splice_out-IsStrict}
use ast_sqlite_test.Mutate.Splice.Queries.{set_ops-IsStrict}
use ast_sqlite_test.Mutate.Structure.{expr_shuffle, rel_shuffle, table_name_scramble, table_guard}
use ast_sqlite_test.Mutate.Structure.Shuffles.{structure-IsStrict, table_name_scramble-IsStrict}
use ast_sqlite_test.Mutate.SubQuery.{sub_query}
use ast_sqlite_test.Mutate.SubQuery.Idle.{sub_query-IsStrict}
use ast_sqlite_test.Mutate.Trees.{
  AstNode, FieldOperation, recursive_expand_expr, hoist_expr, tree_mutator, arbitrary_generator,
}
use ast_sqlite_test.Mutate.Trees.Rewrites.{
  recursive_expand_expr-IsStrict, hoist_expr-IsStrict, tree_mutator-IsStrict,
  arbitrary_generator-IsStrict,
}

module _ (H : Host) (X : Syntax H) where
  -- The strategies that change a tree themselves
  pub data Atomic : MutationStrategy H → Type 1 where
    nothing : Atomic (do_nothing H)
    bounds : (chance : H.F64) → Atomic (numeric_bounds H X chance)
    flips : (chance : H.F64) → Atomic (operator_flip H X chance)
    nulls : (chance : H.F64) → Atomic (null_inject H X chance)
    casts : (chance : H.F64) → Atomic (type_cast H X chance)
    idents : Atomic (force_ident H X)
    splices_in : (rounds : ℕ) (p : H.F64) → Atomic (splice_in H rounds p)
    splices_out : (rounds : ℕ) (p : H.F64) → Atomic (splice_out H rounds p)
    combines :
        (is_query : H.Statement → Bool)
        (combine : ℕ → Bool → H.Statement → H.Statement → H.Statement) (half : H.F64)
        → Atomic (set_ops H is_query combine half)
    shuffles : (chance : H.F64) → Atomic (expr_shuffle H X chance)
    renames : (chance : H.F64) → Atomic (rel_shuffle H X chance)
    subqueries : (chance : H.F64) → Atomic (sub_query H X chance)
    scrambles : Atomic (table_name_scramble H X)
    guards : Atomic (table_guard H X)
    expands :
        (N : AstNode H) (max_depth : ℕ) (chance_per_node chance_per_level : H.F64)
        → Atomic (recursive_expand_expr H N max_depth chance_per_node chance_per_level)
    hoists : (N : AstNode H) (chance : H.F64) → Atomic (hoist_expr H N chance)
    rewrites :
        (N : AstNode H) (operation : FieldOperation) (chance_per_node chance_per_field : H.F64)
        → Atomic (tree_mutator H N operation chance_per_node chance_per_field)
    generates : (N : AstNode H) → Atomic (arbitrary_generator H N)

  do_nothing-IsStrict : IsStrict H (do_nothing H).breed
  unfolding do_nothing by_default
  do_nothing-IsStrict =
      breed_by_default-IsStrict H _ (λ child gen w child' w' r h q. ground (arith, h))

  Atomic-IsStrict : (s : MutationStrategy H) → Atomic s → IsStrict H s.breed
  Atomic-IsStrict s nothing = do_nothing-IsStrict
  Atomic-IsStrict s (bounds chance) = (values-IsStrict H X chance).0
  Atomic-IsStrict s (flips chance) = (values-IsStrict H X chance).1
  Atomic-IsStrict s (nulls chance) = (values-IsStrict H X chance).2
  Atomic-IsStrict s (casts chance) = (values-IsStrict H X chance).3
  Atomic-IsStrict s idents = force_ident-IsStrict H X
  Atomic-IsStrict s (splices_in rounds p) = splice_in-IsStrict H rounds p
  Atomic-IsStrict s (splices_out rounds p) = splice_out-IsStrict H rounds p
  Atomic-IsStrict s (combines is_query combine half) = set_ops-IsStrict H is_query combine half
  Atomic-IsStrict s (shuffles chance) = (structure-IsStrict H X chance).0
  Atomic-IsStrict s (renames chance) = (structure-IsStrict H X chance).1
  Atomic-IsStrict s (subqueries chance) = sub_query-IsStrict H X chance
  Atomic-IsStrict s scrambles = table_name_scramble-IsStrict H X
  Atomic-IsStrict s guards = (structure-IsStrict H X H.minus_half).2
  Atomic-IsStrict s (expands N max_depth chance_per_node chance_per_level) =
      recursive_expand_expr-IsStrict H N max_depth chance_per_node chance_per_level
  Atomic-IsStrict s (hoists N chance) = hoist_expr-IsStrict H N chance
  Atomic-IsStrict s (rewrites N operation chance_per_node chance_per_field) =
      tree_mutator-IsStrict H N operation chance_per_node chance_per_field
  Atomic-IsStrict s (generates N) = arbitrary_generator-IsStrict H N

  -- For any strategy that is built from those that change a tree, by choosing, sampling and weighing
  -- them at any depth, and any run of it that does not panic: it reports a mutation, or the child is
  -- what it was, hooks and parents included, also where the run fails.
  pub mutation_told :
      (s : MutationStrategy H) (child child' : Child H) (gen : List (Child H)) (w w' : World H)
      (r : BreedResult)
      → Composed H Atomic s
      → s.breed child gen w ≡ some (child', w', r)
      → (is_mutated r ≡ true) ⊎ (child' ≡ child)
  mutation_told s child child' gen w w' r built h = elim (Bool-cases (is_mutated r)) [
    | inl told ↦ inl told
    | inr not_told ↦
        inr (Composed-IsStrict H Atomic Atomic-IsStrict s built child gen w child' w' r h not_told)
  ]
