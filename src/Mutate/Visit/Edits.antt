-- ===== src/Mutate/Visit/Edits.antt =====
-- A strategy that changes nodes in place changes nothing where it reports no mutation.
use ast_sqlite_test.Common.{
  ◌≡◌, refl, false, List, some, ◌==◌, arith, Option-cases, inl, inr, Bool-cases, ap, ◌∙◌,
}
use ast_sqlite_test.Mutate.Strategy.{
  BreedResult, is_mutated, Host, World, Child, ast_mut, with_ast, get_mut,
}
use ast_sqlite_test.Mutate.Combinators.Idle.{IsStrict}
use ast_sqlite_test.Mutate.Visit.{Visitor, Step, visiting, edit_tree, edit}

module _ (H : Host) where
  pub ast_mut_tree :
      (tree : List H.Statement) (child : Child H)
      → ast_mut H child ≡ some tree
      → tree ≡ child.entry.ast.tree
  unfolding ast_mut get_mut
  ast_mut_tree tree child h = ground (arith, h)

  pub with_ast_same :
      (tree : List H.Statement) (child : Child H)
      → ast_mut H child ≡ some tree
      → with_ast H tree child ≡ child
  unfolding ast_mut with_ast get_mut
  with_ast_same tree child h = elim (Bool-cases (child.entry.ast.count == 1)) [
    | inl t ↦ let same : tree ≡ child.entry.ast.tree = ground (arith, h, t) in rw same refl
    | inr f ↦ ground (arith, h, f)
  ]

  module _ {Node : Type 0} (V : Visitor (List H.Statement) Node) where
    -- The step leaves the node alone unless it counts it as mutated.
    abbrev pub IsStrictStep : Step H V → Type 0
    IsStrictStep step = (n : Node) (w : World H) → (step n w).2 ≡ false → (step n w).0 ≡ n

    pub edit_tree-same :
        (step : Step H V)
        → IsStrictStep step
        → (tree : List H.Statement) (w : World H)
        → (V.visit_mut (visiting H V step) tree (w, false)).1.1 ≡ false
        → (V.visit_mut (visiting H V step) tree (w, false)).0 ≡ tree
    unfolding visiting
    edit_tree-same step strict tree w q =
        (V.unmoved (λ s. s.1 ≡ false) (visiting H V step) tree (w, false)
          (λ n t h. (ground (arith, h), strict n t.0 (ground (arith, h)))) q).1

    -- The visit of a tree that a strategy may change
    pub edit_tree_lem :
        (step : Step H V)
        → IsStrictStep step
        → (tree : List H.Statement) (child child' : Child H) (w w' : World H) (r : BreedResult)
        → ast_mut H child ≡ some tree
        → edit_tree H V step tree child w ≡ some (child', w', r)
        → is_mutated r ≡ false
        → child' ≡ child
    unfolding edit_tree
    edit_tree_lem step strict tree child child' w w' r here h q =
        let (tree', s) = V.visit_mut (visiting H V step) tree (w, false) in
        elim (Bool-cases s.1) [
          | inl t ↦ ground (arith, h, q, t)
          | inr f ↦
              let same : child' ≡ with_ast H tree' child = ground (arith, h) in
              same
              ∙ ap (λ t. with_ast H t child) (edit_tree-same step strict tree w f)
              ∙ with_ast_same tree child here
        ]

    pub edit-IsStrict : (step : Step H V) → IsStrictStep step → IsStrict H (edit H V step)
    unfolding edit
    edit-IsStrict step strict child gen w child' w' r h q = elim (Option-cases (ast_mut H child)) [
      | inl gone ↦ ground (arith, h, gone)
      | inr (tree, here) ↦
          edit_tree_lem step strict tree child child' w w' r here (ground (arith, h, here)) q
    ]
