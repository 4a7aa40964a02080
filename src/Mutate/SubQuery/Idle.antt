-- ===== src/Mutate/SubQuery/Idle.antt =====
-- Where no subquery is put in, the child is left alone.
use ast_sqlite_test.Common.{
  ◌≡◌, ◌∙◌, ap, false, List, some, arith, Bool-cases, Option-cases, inl, inr,
}
use ast_sqlite_test.Mutate.Strategy.{
  BreedResult, is_mutated, Host, World, Child, by_default, ast_mut, with_ast,
}
use ast_sqlite_test.Mutate.Combinators.Idle.{IsStrict, breed_by_default-IsStrict}
use ast_sqlite_test.Mutate.Visit.Edits.{with_ast_same}
use ast_sqlite_test.Mutate.Syntax.{Syntax}
use ast_sqlite_test.Mutate.SubQuery.{Visited, graft, replace_value, sub_query_tree, sub_query}

module _ (H : Host) (X : Syntax H) (chance : H.F64) where
  replace_value_idle :
      (gen : List (Child H)) (n : X.Expr) (s : Visited H X)
      → (replace_value H X chance gen n s).1.child_is_mutated ≡ false
      → (s.child_is_mutated ≡ false) × ((replace_value H X chance gen n s).0 ≡ n)
  unfolding replace_value graft
  replace_value_idle gen n s h = ground (arith, h)

  sub_query_tree_idle :
      (gen : List (Child H)) (tree : List H.Statement) (child child' : Child H) (w w' : World H)
      (r : BreedResult)
      → ast_mut H child ≡ some tree
      → sub_query_tree H X chance gen tree child w ≡ some (child', w', r)
      → is_mutated r ≡ false
      → child' ≡ child
  unfolding sub_query_tree
  sub_query_tree_idle gen tree child child' w w' r here h q =
      let (tree', s) =
        X.exprs.visit_mut (replace_value H X chance gen) tree
          (record { world = w; child_is_mutated = false; panicked = false }) in
      elim (Bool-cases s.panicked) [
        | inl p ↦ absurd (ground (arith, h, p))
        | inr n ↦ elim (Bool-cases s.child_is_mutated) [
          | inl t ↦ ground (arith, h, q, n, t)
          | inr f ↦
              let same : child' ≡ with_ast H tree' child = ground (arith, h, n) in
              let kept =
                (X.exprs.unmoved (λ v. v.child_is_mutated ≡ false) (replace_value H X chance gen)
                  tree (record { world = w; child_is_mutated = false; panicked = false })
                  (replace_value_idle gen) f).1 in
              same ∙ ap (λ t. with_ast H t child) kept ∙ with_ast_same H tree child here
        ]
      ]

  pub sub_query-IsStrict : IsStrict H (sub_query H X chance).breed
  unfolding sub_query by_default
  sub_query-IsStrict = breed_by_default-IsStrict H _ (λ child gen w child' w' r h q.
      elim (Option-cases (ast_mut H child)) [
        | inl gone ↦ ground (arith, h, gone)
        | inr (tree, here) ↦
            sub_query_tree_idle gen tree child child' w w' r here (ground (arith, h, here)) q
      ])
