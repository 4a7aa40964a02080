-- ===== src/Mutate/Structure/Shuffles.antt =====
-- The strategies of Structure.antt leave the child alone unless they report a mutation.
use Prim.Native.String.{String}
use ast_sqlite_test.Common.{
  ◌≡◌, refl, ap, ◌∙◌, Bool, false, List, [], ◌∷◌, ◌++◌, some, ◌==◌, if◌then◌else◌, length, arith,
  Bool-cases, Option-cases, inl, inr,
}
use ast_sqlite_test.Mutate.Strategy.{
  BreedResult, is_mutated, Host, World, Child, by_default, ast_mut, with_ast,
}
use ast_sqlite_test.Mutate.Visit.{edit_tree}
use ast_sqlite_test.Mutate.Visit.Edits.{IsStrictStep, edit-IsStrict, edit_tree_lem, with_ast_same}
use ast_sqlite_test.Mutate.Combinators.Idle.{IsStrict, breed_by_default-IsStrict}
use ast_sqlite_test.Mutate.Syntax.{ObjectNamePart, Syntax}
use ast_sqlite_test.Mutate.Splice.{pick_entry}
use ast_sqlite_test.Mutate.Structure.{
  shuffle_step, credit, expr_shuffle_tree, expr_shuffle, name_set, rel_step, rel_shuffle_tree,
  rel_shuffle, tables_of, scramble_relation, scramble_all, scramble_tree, table_name_scramble,
  guard_step, table_guard,
}

module _ (H : Host) (X : Syntax H) where
  shuffle_step-IsStrict :
      (exprs : List X.Expr) (chance : H.F64)
      → IsStrictStep H X.exprs (shuffle_step H X exprs chance)
  unfolding shuffle_step
  shuffle_step-IsStrict exprs chance n w h = ground (arith, h)

  rel_step-IsStrict :
      (rels : List (List ObjectNamePart)) (chance : H.F64)
      → IsStrictStep H X.relations (rel_step H X rels chance)
  unfolding rel_step
  rel_step-IsStrict rels chance n w h = ground (arith, h)

  guard_step-IsStrict : IsStrictStep H X.statements (guard_step H X)
  unfolding guard_step
  guard_step-IsStrict n w h = elim (Bool-cases (X.is_create n)) [
    | inl t ↦ elim (Bool-cases (X.if_not_exists n)) [
      | inl guarded ↦ rw t (X.set_if_not_exists_again n guarded)
      | inr bare ↦ ground (arith, h, t, bare)
    ]
    | inr f ↦ rw f refl
  ]

  expr_shuffle_tree_lem :
      (chance : H.F64) (tree : List H.Statement) (donor child child' : Child H) (w w' : World H)
      (r : BreedResult)
      → ast_mut H child ≡ some tree
      → expr_shuffle_tree H X chance tree donor child w ≡ some (child', w', r)
      → is_mutated r ≡ false
      → child' ≡ child
  unfolding expr_shuffle_tree credit
  expr_shuffle_tree_lem chance tree donor child child' w w' r here h q =
      let exprs = X.exprs.nodes donor.entry.ast.tree ++ X.exprs.nodes tree in
      let step = shuffle_step H X exprs chance in
      elim (Bool-cases (length exprs == 0)) [
        | inl e ↦ ground (arith, h, e)
        | inr ne ↦ elim (Option-cases (edit_tree H X.exprs step tree child w)) [
          | inl gone ↦ ground (arith, h, ne, gone)
          | inr ((c, v, s), run) ↦ ground (
            arith,
            h,
            ne,
            run,
            q,
            edit_tree_lem H X.exprs step (shuffle_step-IsStrict exprs chance) tree child c w v s
                here run,
          )
        ]
      ]

  expr_shuffle-IsStrict : (chance : H.F64) → IsStrict H (expr_shuffle H X chance).breed
  unfolding expr_shuffle by_default
  expr_shuffle-IsStrict chance = breed_by_default-IsStrict H _ (λ child gen w child' w' r h q.
      elim (Option-cases (ast_mut H child)) [
        | inl gone ↦ ground (arith, h, gone)
        | inr (tree, here) ↦ elim (Option-cases (pick_entry H gen w)) [
          | inl gone ↦ ground (arith, h, here, gone)
          | inr ((donor, w₁), picked) ↦
              expr_shuffle_tree_lem chance tree donor child child' w₁ w' r here
                (ground (arith, h, here, picked)) q
        ]
      ])

  rel_shuffle-IsStrict : (chance : H.F64) → IsStrict H (rel_shuffle H X chance).breed
  unfolding rel_shuffle by_default rel_shuffle_tree
  rel_shuffle-IsStrict chance = breed_by_default-IsStrict H _ (λ child gen w child' w' r h q.
      elim (Option-cases (ast_mut H child)) [
        | inl gone ↦ ground (arith, h, gone)
        | inr (tree, here) ↦
            let rels = name_set H X (X.relations.nodes tree) in
            elim (Bool-cases (length rels == 0)) [
              | inl e ↦ ground (arith, h, here, e)
              | inr ne ↦
                  edit_tree_lem H X.relations (rel_step H X rels chance)
                    (rel_step-IsStrict rels chance) tree child child' w w' r here
                    (ground (arith, h, here, ne)) q
            ]
      ])

  scramble_relation_lem :
      (tables : List String) (relation : List ObjectNamePart) (s : World H × Bool)
      → (scramble_relation H X tables relation s).1.1 ≡ false
      → (s.1 ≡ false) × ((scramble_relation H X tables relation s).0 ≡ relation)
  unfolding scramble_relation
  scramble_relation_lem tables relation s h = ground (arith, h)

  scramble_all_lem :
      (tables : List String) (stmts : List H.Statement) (s : World H × Bool)
      → (scramble_all H X tables stmts s).1.1 ≡ false
      → (s.1 ≡ false) × ((scramble_all H X tables stmts s).0 ≡ stmts)
  unfolding scramble_all
  scramble_all_lem tables [] s h = (h, refl)
  scramble_all_lem tables (stmt ∷ stmts) s h =
      let visited = X.relations_in.visit_mut (scramble_relation H X tables) stmt s in
      let after : H.Statement × (World H × Bool) =
        if X.is_create stmt then (stmt, s) else visited in
      let (clean, rest) = scramble_all_lem tables stmts after.1 h in
      elim (Bool-cases (X.is_create stmt)) [
        | inl t ↦ ground (arith, clean, rest, t)
        | inr f ↦
            let still : visited.1.1 ≡ false = ground (arith, clean, f) in
            let (before, same) =
              X.relations_in.unmoved (λ t. t.1 ≡ false) (scramble_relation H X tables) stmt s
                (scramble_relation_lem tables) still in
            let head : after.0 ≡ stmt = rw f same in (before, cc (head, rest))
      ]

  pub table_name_scramble-IsStrict : IsStrict H (table_name_scramble H X).breed
  unfolding table_name_scramble by_default scramble_tree
  table_name_scramble-IsStrict = breed_by_default-IsStrict H _ (λ child gen w child' w' r h q.
      elim (Option-cases (ast_mut H child)) [
        | inl gone ↦ ground (arith, h, gone)
        | inr (tree, here) ↦
            let tables = tables_of H X (X.statements.nodes tree) in
            elim (Bool-cases (length tables == 0)) [
              | inl e ↦ ground (arith, h, here, e)
              | inr ne ↦
                  let (tree', s) = scramble_all H X tables tree (w, false) in
                  elim (Bool-cases s.1) [
                    | inl t ↦ ground (arith, h, here, ne, q, t)
                    | inr f ↦
                        let same : child' ≡ with_ast H tree' child = ground (arith, h, here, ne) in
                        same
                        ∙ ap (λ t. with_ast H t child) (scramble_all_lem tables tree (w, false) f).1
                        ∙ with_ast_same H tree child here
                  ]
            ]
      ])

  -- Shuffled expressions and names, subqueries and guards.
  pub structure-IsStrict :
      (chance : H.F64)
      → IsStrict H (expr_shuffle H X chance).breed
        × IsStrict H (rel_shuffle H X chance).breed
        × IsStrict H (table_guard H X).breed
  unfolding table_guard by_default
  structure-IsStrict chance = (
    expr_shuffle-IsStrict chance,
    rel_shuffle-IsStrict chance,
    breed_by_default-IsStrict H _
        (edit-IsStrict H X.statements (guard_step H X) guard_step-IsStrict),
  )
