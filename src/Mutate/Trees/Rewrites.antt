-- ===== src/Mutate/Trees/Rewrites.antt =====
-- The strategies of Trees.antt leave the child alone unless they report a mutation.
use ast_sqlite_test.Common.{
  ℕ, ◌≡◌, refl, ap, ◌+◌, ◌-◌, ◌∙◌, false, List, some, ◌==◌, length, arith, Bool-cases, Option-cases,
  inl, inr,
}
use ast_sqlite_test.Mutate.Strategy.{
  BreedResult, is_mutated, Host, World, draw, Child, by_default, ast_mut, with_ast,
}
use ast_sqlite_test.Mutate.Visit.{edit_tree}
use ast_sqlite_test.Mutate.Visit.Edits.{IsStrictStep, edit-IsStrict, edit_tree_lem, with_ast_same}
use ast_sqlite_test.Mutate.Combinators.Idle.{IsStrict, breed_by_default-IsStrict}
use ast_sqlite_test.Mutate.Splice.{pick_entry}
use ast_sqlite_test.Mutate.Trees.{
  AstNode, FieldOperation, shuffle_two, null_random, shuffle_self, expand_root, expand_step,
  recursive_expand_expr, hoist_step, hoist_expr, null_step, swap_step, shuffle_across, with_count,
  shuffle_itself, tree_mutation, tree_mutator, Search, replace_at, arbitrary_tree,
  arbitrary_generator,
}

module _ (H : Host) (N : AstNode H) where
  -- A clone made and dropped
  pub with_count_back :
      (child : Child H)
      → with_count H N
          ((with_count H N (child.entry.ast.count + 1) child).entry.ast.count - 1)
          (with_count H N (child.entry.ast.count + 1) child)
        ≡ child
  unfolding with_count
  with_count_back child =
      let back : child.entry.ast.count + 1 - 1 ≡ child.entry.ast.count = omega arith in rw back refl

  expand_step-IsStrict :
      (max_depth : ℕ) (chance_per_node chance_per_level : H.F64)
      → IsStrictStep H N.visitor (expand_step H N max_depth chance_per_node chance_per_level)
  unfolding expand_step expand_root
  expand_step-IsStrict max_depth chance_per_node chance_per_level n w h = ground (arith, h)

  hoist_step-IsStrict : (chance : H.F64) → IsStrictStep H N.visitor (hoist_step H N chance)
  unfolding hoist_step
  hoist_step-IsStrict chance n w h = ground (arith, h)

  null_step-IsStrict :
      (chance_per_node chance_per_field : H.F64)
      → IsStrictStep H N.visitor (null_step H N chance_per_node chance_per_field)
  unfolding null_step
  null_step-IsStrict chance_per_node chance_per_field n w h = ground (arith, h)

  swap_step-IsStrict :
      (donors : List N.Node) (chance_per_node chance_per_field : H.F64)
      → IsStrictStep H N.visitor (swap_step H N donors chance_per_node chance_per_field)
  unfolding swap_step
  swap_step-IsStrict donors chance_per_node chance_per_field n w h = ground (arith, h)

  module _ (chance_per_node chance_per_field : H.F64) where
    shuffle_across_lem :
        (donor parent child' : Child H) (w w' : World H) (r : BreedResult)
        → shuffle_across H N chance_per_node chance_per_field donor parent w ≡ some (child', w', r)
        → is_mutated r ≡ false
        → child' ≡ parent
    unfolding shuffle_across
    shuffle_across_lem donor parent child' w w' r h q = elim (Option-cases (ast_mut H parent)) [
      | inl gone ↦ ground (arith, h, gone)
      | inr (tree, here) ↦
          let donor_nodes = N.visitor.nodes donor.entry.ast.tree in
          let step = swap_step H N donor_nodes chance_per_node chance_per_field in
          elim (Bool-cases (length donor_nodes == 0)) [
            | inl e ↦ ground (arith, h, here, e)
            | inr ne ↦ elim (Option-cases (edit_tree H N.visitor step tree parent w)) [
              | inl gone ↦ ground (arith, h, here, ne, gone)
              | inr ((c, v, s), run) ↦ ground (
                arith,
                h,
                here,
                ne,
                run,
                q,
                edit_tree_lem H N.visitor step
                    (swap_step-IsStrict donor_nodes chance_per_node chance_per_field) tree parent c
                    w v s here run,
              )
            ]
          ]
    ]

    shuffle_itself_lem :
        (parent child' : Child H) (w w' : World H) (r : BreedResult)
        → shuffle_itself H N chance_per_node chance_per_field parent w ≡ some (child', w', r)
        → is_mutated r ≡ false
        → child' ≡ parent
    unfolding shuffle_itself
    shuffle_itself_lem parent child' w w' r h q =
        let twin = with_count H N (parent.entry.ast.count + 1) parent in
        elim (Option-cases (shuffle_across H N chance_per_node chance_per_field twin twin w)) [
          | inl gone ↦ ground (arith, h, gone)
          | inr ((c, v, s), run) ↦
              let done : s ≡ r = ground (arith, h, run) in
              let same : c ≡ twin = shuffle_across_lem twin twin c w v s run (rw done q) in
              let last : child' ≡ with_count H N (c.entry.ast.count - 1) c =
                ground (arith, h, run) in
              last
              ∙ ap (λ t. with_count H N (t.entry.ast.count - 1) t) same
              ∙ with_count_back parent
        ]

    tree_mutation-IsStrict :
        (operation : FieldOperation)
        → IsStrict H (tree_mutation H N operation chance_per_node chance_per_field)
    unfolding tree_mutation
    tree_mutation-IsStrict shuffle_two child gen w child' w' r h q =
        elim (Option-cases (pick_entry H gen w)) [
          | inl gone ↦ ground (arith, h, gone)
          | inr ((donor, w₁), picked) ↦
              shuffle_across_lem donor child child' w₁ w' r (ground (arith, h, picked)) q
        ]
    tree_mutation-IsStrict null_random child gen w child' w' r h q =
        edit-IsStrict H N.visitor _ (null_step-IsStrict chance_per_node chance_per_field) child gen
          w child' w' r h q
    tree_mutation-IsStrict shuffle_self child gen w child' w' r h q =
        shuffle_itself_lem child child' w w' r h q

  replace_at_lem :
      (target : ℕ) (n : N.Node) (s : Search H N)
      → (replace_at H N target n s).1.is_mutated ≡ false
      → (s.is_mutated ≡ false) × ((replace_at H N target n s).0 ≡ n)
  unfolding replace_at
  replace_at_lem target n s h = ground (arith, h)

  arbitrary_tree_lem :
      (tree : List H.Statement) (child child' : Child H) (w w' : World H) (r : BreedResult)
      → ast_mut H child ≡ some tree
      → arbitrary_tree H N tree child w ≡ some (child', w', r)
      → is_mutated r ≡ false
      → child' ≡ child
  unfolding arbitrary_tree
  arbitrary_tree_lem tree child child' w w' r here h q =
      let node_count = length (N.visitor.nodes tree) in
      elim (Bool-cases (node_count == 0)) [
        | inl e ↦ ground (arith, h, e)
        | inr ne ↦ elim (Option-cases (draw H 0 node_count w)) [
          | inl gone ↦ ground (arith, h, ne, gone)
          | inr ((target, w₁), drawn) ↦
              let start : Search H N = record {
                current_index = 0;
                is_mutated = false;
                world = w₁;
              } in
              let (tree', s) = N.visitor.visit_mut (replace_at H N target) tree start in
              elim (Bool-cases s.is_mutated) [
                | inl t ↦ ground (arith, h, ne, drawn, q, t)
                | inr f ↦
                    let same : child' ≡ with_ast H tree' child = ground (arith, h, ne, drawn) in
                    same
                    ∙ ap (λ t. with_ast H t child)
                        (N.visitor.unmoved (λ s. s.is_mutated ≡ false) (replace_at H N target) tree
                          start (replace_at_lem target) f).1
                    ∙ with_ast_same H tree child here
              ]
        ]
      ]

  pub arbitrary_generator-IsStrict : IsStrict H (arbitrary_generator H N).breed
  unfolding arbitrary_generator by_default
  arbitrary_generator-IsStrict = breed_by_default-IsStrict H _ (λ child gen w child' w' r h q.
      elim (Option-cases (ast_mut H child)) [
        | inl gone ↦ ground (arith, h, gone)
        | inr (tree, here) ↦
            arbitrary_tree_lem tree child child' w w' r here (ground (arith, h, here)) q
      ])

  pub recursive_expand_expr-IsStrict :
      (max_depth : ℕ) (chance_per_node chance_per_level : H.F64)
      → IsStrict H (recursive_expand_expr H N max_depth chance_per_node chance_per_level).breed
  unfolding recursive_expand_expr by_default
  recursive_expand_expr-IsStrict max_depth chance_per_node chance_per_level =
      breed_by_default-IsStrict H _ (
        edit-IsStrict H N.visitor _
          (expand_step-IsStrict max_depth chance_per_node chance_per_level))

  pub hoist_expr-IsStrict : (chance : H.F64) → IsStrict H (hoist_expr H N chance).breed
  unfolding hoist_expr by_default
  hoist_expr-IsStrict chance =
      breed_by_default-IsStrict H _ (edit-IsStrict H N.visitor _ (hoist_step-IsStrict chance))

  pub tree_mutator-IsStrict :
      (operation : FieldOperation) (chance_per_node chance_per_field : H.F64)
      → IsStrict H (tree_mutator H N operation chance_per_node chance_per_field).breed
  unfolding tree_mutator by_default
  tree_mutator-IsStrict operation chance_per_node chance_per_field =
      breed_by_default-IsStrict H _
        (tree_mutation-IsStrict chance_per_node chance_per_field operation)
