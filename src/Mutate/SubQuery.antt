-- ===== src/Mutate/SubQuery.antt =====
-- crates/lsf-mutate/src/splice.rs, `SubQuery`: a subquery of another entry in place of a value. The
-- draw of an entry panics where the generation is empty, in the middle of the visit.
pub mod Idle
use ast_sqlite_test.Common.{
  ℕ, Bool, true, false, ◌||◌, List, Option, none, some, get_elem?, if◌then◌else◌,
}
use ast_sqlite_test.Mutate.Strategy.{
  BreedResult, ok, err, ast_shared, state_of, Host, World, flip, Child, MutationStrategy,
  by_default, ast_mut, with_ast,
}
use ast_sqlite_test.Mutate.Visit.{Flow, continue_on, break_off}
use ast_sqlite_test.Mutate.Syntax.{Syntax}
use ast_sqlite_test.Mutate.Splice.{pick_entry}

module _ (H : Host) (X : Syntax H) where
  -- What the closure captures, and whether it has panicked
  pub record Visited : Type 0 where
    pub world : World H
    pub child_is_mutated : Bool
    pub panicked : Bool

  -- The first expression of the entry, where it is a subquery
  unfoldable pub graft : X.Expr → Child H → Visited → X.Expr × Visited × Flow
  graft expr other s = elim (get_elem? (X.exprs.nodes other.entry.ast.tree) 0) [
    | none ↦ (expr, s, continue_on)
    | some first ↦
        if X.is_subquery first
        then (X.set_right first expr, record s { child_is_mutated = true }, continue_on)
        else (expr, s, continue_on)
  ]

  unfoldable pub replace_value : H.F64 → List (Child H) → X.Expr → Visited → X.Expr × Visited × Flow
  replace_value mutation_chance parent_gen expr s = elim (X.right expr) [
    | none ↦ (expr, s, continue_on)
    | some right ↦
        let (hit, w) = flip H mutation_chance s.world in
        if X.is_value right
        then (if hit
            then (elim (pick_entry H parent_gen w) [
              | none ↦ (expr, record s { world = w; panicked = true }, break_off)
              | some (other, w') ↦ graft expr other (record s { world = w' })
            ])
            else (expr, record s { world = w }, continue_on))
        else (expr, s, continue_on)
  ]

  unfoldable pub sub_query_tree :
      H.F64
      → List (Child H)
      → List H.Statement
      → Child H
      → World H
      → Option (Child H × World H × BreedResult)
  sub_query_tree mutation_chance parent_gen tree child w =
      let (tree', s) =
        X.exprs.visit_mut (replace_value mutation_chance parent_gen) tree
          (record { world = w; child_is_mutated = false; panicked = false }) in
      if s.panicked
      then none
      else some (with_ast H tree' child, s.world, ok (state_of s.child_is_mutated))

  -- `SubQuery`
  unfoldable pub sub_query : H.F64 → MutationStrategy H
  sub_query mutation_chance = by_default H (λ child parent_gen w. elim (ast_mut H child) [
    | none ↦ some (child, w, err ast_shared)
    | some tree ↦ sub_query_tree mutation_chance parent_gen tree child w
  ])
