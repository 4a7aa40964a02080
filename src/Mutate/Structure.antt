-- ===== src/Mutate/Structure.antt =====
-- crates/lsf-mutate/src/structure.rs and ident.rs: expressions, names of relations and guards of
-- tables.
pub mod Shuffles
use Prim.Native.String.{String}
use ast_sqlite_test.Common.{
  ℕ, zero, suc, Bool, true, false, not, ◌&&◌, ◌||◌, List, [], ◌∷◌, ◌++◌, Option, none, some, ◌==◌,
  ◌>>=◌, if◌then◌else◌, length, get_elem?, get_or, filter, any,
}
use ast_sqlite_test.Mutate.Strategy.{
  BreedResult, ok, err, ast_shared, mutated_child, unchanged, state_of, is_mutated, Host, World,
  flip, choose_from, Child, Breed, MutationStrategy, by_default, ast_mut, with_ast,
}
use ast_sqlite_test.Mutate.Visit.{Visitor, Step, visiting, edit, edit_tree, Flow, continue_on}
use ast_sqlite_test.Mutate.Syntax.{ObjectNamePart, identifier, function, Syntax}
use ast_sqlite_test.Mutate.Splice.{push_parent, pick_entry}

module _ (H : Host) (X : Syntax H) where
  -- The expressions of a kind: what the map holds under a discriminant
  unfoldable pub of_kind : ℕ → List X.Expr → List X.Expr
  of_kind kind exprs = filter (λ e. X.expr_kind e == kind) exprs

  unfoldable pub shuffle_step : List X.Expr → H.F64 → Step H X.exprs
  shuffle_step exprs chance_per_node expr w =
      let targets = of_kind (X.expr_kind expr) exprs in
      let (hit, w₁) = flip H chance_per_node w in
      let (target, w₂) = choose_from H targets expr w₁ in
      if length targets == 0
      then (expr, w, false)
      else if hit
      then (if X.same_expr expr target then (expr, w₂, false) else (target, w₂, true))
      else (expr, w₁, false)

  -- A mutation from an entry makes it a parent.
  unfoldable pub credit : ℕ → Child H × World H × BreedResult → Child H × World H × BreedResult
  credit id r = if is_mutated r.2 then (push_parent H id r.0, r.1, r.2) else r

  unfoldable pub expr_shuffle_tree :
      H.F64
      → List H.Statement
      → Child H
      → Child H
      → World H
      → Option (Child H × World H × BreedResult)
  expr_shuffle_tree chance_per_node tree rd_donor child w =
      let exprs = X.exprs.nodes rd_donor.entry.ast.tree ++ X.exprs.nodes tree in
      if length exprs == 0
      then some (child, w, ok unchanged)
      else (edit_tree H X.exprs (shuffle_step exprs chance_per_node) tree child w >>= λ r.
          some (credit rd_donor.entry.id r))

  -- `ExprShuffle`
  unfoldable pub expr_shuffle : H.F64 → MutationStrategy H
  expr_shuffle chance_per_node = by_default H (λ child parent_gen w. elim (ast_mut H child) [
    | none ↦ some (child, w, err ast_shared)
    | some tree ↦ pick_entry H parent_gen w >>= λ donor.
        expr_shuffle_tree chance_per_node tree donor.0 child donor.1
  ])

  -- A set of names, in some order
  unfoldable pub name_set : List (List ObjectNamePart) → List (List ObjectNamePart)
  name_set [] = []
  name_set (rel ∷ rels) =
      let rest = name_set rels in if any (X.same_name rel) rest then rest else rel ∷ rest

  unfoldable pub rel_step : List (List ObjectNamePart) → H.F64 → Step H X.relations
  rel_step parent_rels chance_per_node rel w =
      let (hit, w₁) = flip H chance_per_node w in
      let (target, w₂) = choose_from H parent_rels rel w₁ in
      if hit
      then (if X.same_name rel target then (rel, w₂, false) else (target, w₂, true))
      else (rel, w₁, false)

  unfoldable pub rel_shuffle_tree :
      H.F64 → List H.Statement → Child H → World H → Option (Child H × World H × BreedResult)
  rel_shuffle_tree chance_per_node tree child w =
      let parent_rels = name_set (X.relations.nodes tree) in
      if length parent_rels == 0
      then some (child, w, ok unchanged)
      else edit_tree H X.relations (rel_step parent_rels chance_per_node) tree child w

  -- `RelShuffle`
  unfoldable pub rel_shuffle : H.F64 → MutationStrategy H
  rel_shuffle chance_per_node = by_default H (λ child parent_gen w. elim (ast_mut H child) [
    | none ↦ some (child, w, err ast_shared)
    | some tree ↦ rel_shuffle_tree chance_per_node tree child w
  ])

  unfoldable pub tables_of : List H.Statement → List String
  tables_of [] = []
  tables_of (stmt ∷ stmts) =
      let rest = tables_of stmts in
      if X.is_create stmt
      then (elim (X.created_name stmt) [ none ↦ rest | some name ↦ name ∷ rest ])
      else rest

  -- The last part of a name, where it is a name, becomes that of a table.
  unfoldable pub rename_last : String → List ObjectNamePart → Option (List ObjectNamePart)
  rename_last value [] = none
  rename_last value (identifier old ∷ []) = some (identifier value ∷ [])
  rename_last value (function name args ∷ []) = none
  rename_last value (part ∷ next ∷ parts) = elim (rename_last value (next ∷ parts)) [
    | none ↦ none
    | some renamed ↦ some (part ∷ renamed)
  ]

  unfoldable pub scramble_relation :
      List String
      → List ObjectNamePart
      → World H × Bool
      → List ObjectNamePart × (World H × Bool) × Flow
  scramble_relation tables relation s =
      let (value, w) = choose_from H tables "" s.0 in
      elim (rename_last value relation) [
        | none ↦ (relation, s, continue_on)
        | some renamed ↦ (renamed, (w, true), continue_on)
      ]

  unfoldable pub scramble_all :
      List String → List H.Statement → World H × Bool → List H.Statement × (World H × Bool)
  scramble_all tables [] s = ([], s)
  scramble_all tables (stmt ∷ stmts) s =
      let visited = X.relations_in.visit_mut (scramble_relation tables) stmt s in
      let (stmt', s') = if X.is_create stmt then (stmt, s) else visited in
      let (stmts', s'') = scramble_all tables stmts s' in (stmt' ∷ stmts', s'')

  unfoldable pub scramble_tree :
      List H.Statement → Child H → World H → Option (Child H × World H × BreedResult)
  scramble_tree tree child w =
      let tables = tables_of (X.statements.nodes tree) in
      let (tree', s) = scramble_all tables tree (w, false) in
      if length tables == 0
      then some (child, w, ok unchanged)
      else some (with_ast H tree' child, s.0, ok (state_of s.1))

  -- `TableNameScramble`
  unfoldable pub table_name_scramble : MutationStrategy H
  table_name_scramble = by_default H (λ child parent_gen w. elim (ast_mut H child) [
    | none ↦ some (child, w, err ast_shared)
    | some tree ↦ scramble_tree tree child w
  ])

  unfoldable pub guard_step : Step H X.statements
  guard_step stmt w =
      if X.is_create stmt
      then (X.set_if_not_exists stmt, w, not (X.if_not_exists stmt))
      else (stmt, w, false)

  -- `TableGuard`
  unfoldable pub table_guard : MutationStrategy H
  table_guard = by_default H (edit H X.statements guard_step)
