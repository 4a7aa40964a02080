-- ===== src/Mutate/Trees/ShuffleSelf.antt =====
-- `TreeMutator` with `ShuffleSelf`: the clone that it takes the fields from holds the tree as well.
use ast_sqlite_test.Common.{◌+◌, ◌≤◌, ◌≡◌, refl, List, none, some, arith, ap}
use ast_sqlite_test.Feedback.Outcome.{noop}
use ast_sqlite_test.Mutate.Strategy.{
  ok, unchanged, Host, World, Child, by_default, breed_by_default, fire_parent_hooks, ast_mut,
  get_mut,
}
use ast_sqlite_test.Mutate.Trees.Rewrites.{with_count_back}
use ast_sqlite_test.Mutate.Trees.{
  AstNode, shuffle_self, shuffle_across, shuffle_itself, with_count, tree_mutation, tree_mutator,
}

module _ (H : Host) (N : AstNode H) (chance_per_node chance_per_field : H.F64) where
  shared_clone :
      (child : Child H)
      → 1 ≤ child.entry.ast.count
      → ast_mut H (with_count H N (child.entry.ast.count + 1) child) ≡ none
  unfolding ast_mut get_mut with_count
  shared_clone child h = ground (arith, h)

  itself_idle :
      (child : Child H) (w : World H)
      → 1 ≤ child.entry.ast.count
      → shuffle_itself H N chance_per_node chance_per_field child w ≡ some (child, w, ok unchanged)
  unfolding shuffle_itself
  itself_idle child w h =
      let twin = with_count H N (child.entry.ast.count + 1) child in
      let across : shuffle_across H N chance_per_node chance_per_field twin twin w
          ≡ some (twin, w, ok unchanged) =
        unfold shuffle_across in rw (shared_clone child h, shuffle_across) refl in
      rw across (ap (λ c. some (c, w, ok unchanged)) (with_count_back H N child))

  -- Shuffling a child with itself never does anything: for every child whose tree exists, with any
  -- chances, it draws nothing, leaves the child alone, reports that nothing changed, and tells that
  -- to the arms of the child's parents.
  pub shuffle_self_idle :
      (child : Child H) (gen : List (Child H)) (w : World H)
      → 1 ≤ child.entry.ast.count
      → (tree_mutator H N shuffle_self chance_per_node chance_per_field).breed child gen w
        ≡ some (child, fire_parent_hooks H noop child w, ok unchanged)
  unfolding tree_mutator tree_mutation by_default breed_by_default
  shuffle_self_idle child gen w h = rw (itself_idle child w h) refl
