-- ===== src/Mutate/Trees.antt =====
-- crates/lsf-mutate/src/recurse.rs, json_tree.rs and random_mutate.rs, and `HoistExpr` of reduce.rs:
-- nodes rewritten through their JSON, and nodes made of random bytes. A node's kind is its
-- discriminant; `to_value` and `from_value` are serde's.
pub mod Rewrites
pub mod ShuffleSelf
use ast_sqlite_test.Common.{
  ℕ, zero, suc, ◌+◌, ◌-◌, Bool, true, false, List, [], ◌∷◌, Option, none, some, ◌==◌, ◌>>=◌,
  if◌then◌else◌, length, filter,
}
use ast_sqlite_test.Mutate.Strategy.{
  BreedResult, ok, err, ast_shared, MutationState, mutated_child, unchanged, state_of, Host, World,
  flip, draw, choose_from, Child, Breed, MutationStrategy, by_default, ast_mut, with_ast,
  is_mutated,
}
use ast_sqlite_test.Mutate.Visit.{Visitor, Step, edit, edit_tree, Flow, continue_on, break_off}
use ast_sqlite_test.Mutate.Splice.{push_parent, pick_entry}
use ast_sqlite_test.Mutate.Json.{
  Json, as_object, object, Entries, keys_of, prune_depth, expandable, expand_recursive,
  extract_child_exprs, null_random_fields, swap_random_fields,
}

-- `AstNode`
pub record AstNode (H : Host) : Type 1 where
  pub Node : Type 0
  pub visitor : Visitor (List H.Statement) Node
  pub discriminant : Node → ℕ
  pub to_value : Node → Option Json
  pub from_value : Json → Option Node
  -- `fill_bytes`, and `arbitrary` of the bytes
  pub arbitrary : H.Generator → Option Node × H.Generator

pub data FieldOperation : Type 0 where
  shuffle_two null_random shuffle_self : FieldOperation

module _ (H : Host) (N : AstNode H) where
  -- A node read back from its changed JSON counts as mutated.
  abbrev pub read_back : N.Node → Json × World H → N.Node × World H × Bool
  read_back node changed = elim (N.from_value changed.0) [
    | none ↦ (node, changed.1, false)
    | some node' ↦ (node', changed.1, true)
  ]

  -- `RecursiveExpandExpr` at a node that is chosen, with its JSON pruned
  unfoldable pub expand_root : ℕ → H.F64 → Json → N.Node → World H → N.Node × World H × Bool
  expand_root max_depth chance_per_level root node w = elim (as_object root) [
    | none ↦ (node, w, false)
    | some json_object ↦
        let fields = expandable N.from_value root json_object (keys_of json_object) in
        let (mutated, w') =
          expand_recursive H root json_object fields max_depth chance_per_level w in
        if length fields == 0 then (node, w, false) else read_back node (object mutated, w')
  ]

  unfoldable pub expand_step : ℕ → H.F64 → H.F64 → Step H N.visitor
  expand_step max_depth chance_per_node chance_per_level node w =
      let (hit, w₁) = flip H chance_per_node w in
      if hit
      then (elim (N.to_value node) [
        | none ↦ (node, w₁, false)
        | some json ↦ expand_root max_depth chance_per_level (prune_depth json max_depth) node w₁
      ])
      else (node, w₁, false)

  unfoldable pub recursive_expand_expr : ℕ → H.F64 → H.F64 → MutationStrategy H
  recursive_expand_expr max_depth chance_per_node chance_per_level =
      by_default H (edit H N.visitor (expand_step max_depth chance_per_node chance_per_level))

  unfoldable pub hoist_step : H.F64 → Step H N.visitor
  hoist_step chance_per_node node w =
      let (hit, w₁) = flip H chance_per_node w in
      if hit
      then (elim (N.to_value node) [
        | none ↦ (node, w₁, false)
        | some json ↦
            let candidates = extract_child_exprs N.from_value json in
            let (chosen, w₂) = choose_from H candidates node w₁ in
            if length candidates == 0 then (node, w₁, false) else (chosen, w₂, true)
      ])
      else (node, w₁, false)

  unfoldable pub hoist_expr : H.F64 → MutationStrategy H
  hoist_expr chance_per_node = by_default H (edit H N.visitor (hoist_step chance_per_node))

  unfoldable pub null_step : H.F64 → H.F64 → Step H N.visitor
  null_step chance_per_node chance_per_field node w =
      let (hit, w₁) = flip H chance_per_node w in
      if hit
      then (elim (N.to_value node) [
        | none ↦ (node, w₁, false)
        | some json ↦ read_back node (null_random_fields H json chance_per_field w₁)
      ])
      else (node, w₁, false)

  -- The donor's nodes of a kind: what the map holds under a discriminant
  unfoldable pub donors_of : ℕ → List N.Node → List N.Node
  donors_of kind nodes = filter (λ n. N.discriminant n == kind) nodes

  unfoldable pub swap_step : List N.Node → H.F64 → H.F64 → Step H N.visitor
  swap_step donor_nodes chance_per_node chance_per_field node w =
      let (hit, w₁) = flip H chance_per_node w in
      let donors = donors_of (N.discriminant node) donor_nodes in
      let (donor, w₂) = choose_from H donors node w₁ in
      if hit
      then if length donors == 0 then (node, w₁, false) else (elim (N.to_value node) [
        | none ↦ (node, w₂, false)
        | some node_json ↦ elim (N.to_value donor) [
          | none ↦ (node, w₂, false)
          | some donor_json ↦
              read_back node (swap_random_fields H node_json donor_json chance_per_field w₂)
        ]
      ])
      else (node, w₁, false)

  -- `shuffle_across`: a shared tree counts as no mutation.
  unfoldable pub shuffle_across :
      H.F64 → H.F64 → Child H → Child H → World H → Option (Child H × World H × BreedResult)
  shuffle_across chance_per_node chance_per_field donor parent w = elim (ast_mut H parent) [
    | none ↦ some (parent, w, ok unchanged)
    | some tree ↦
        let donor_nodes = N.visitor.nodes donor.entry.ast.tree in
        if length donor_nodes == 0
        then some (parent, w, ok unchanged)
        else (edit_tree H N.visitor (swap_step donor_nodes chance_per_node chance_per_field) tree
              parent w
            >>= λ r.
                some (if is_mutated r.2 then (push_parent H donor.entry.id r.0, r.1, r.2) else r))
  ]

  -- `parent.clone()` is one more reference to the tree, seen by the parent and by its clone, and one
  -- reference less when the clone is dropped.
  unfoldable pub with_count : ℕ → Child H → Child H
  with_count count child = record child {
    entry = record (child.entry) { ast = record (child.entry.ast) { count = count } };
  }

  unfoldable pub shuffle_itself :
      H.F64 → H.F64 → Child H → World H → Option (Child H × World H × BreedResult)
  shuffle_itself chance_per_node chance_per_field parent w =
      let parent_clone = with_count (parent.entry.ast.count + 1) parent in
      shuffle_across chance_per_node chance_per_field parent_clone parent_clone w >>= λ r.
      some (with_count (r.0.entry.ast.count - 1) r.0, r.1, r.2)

  unfoldable pub tree_mutation : FieldOperation → H.F64 → H.F64 → Breed H
  tree_mutation shuffle_two chance_per_node chance_per_field parent parent_gen w =
      pick_entry H parent_gen w >>= λ donor.
      shuffle_across chance_per_node chance_per_field donor.0 parent donor.1
  tree_mutation shuffle_self chance_per_node chance_per_field parent parent_gen w =
      shuffle_itself chance_per_node chance_per_field parent w
  tree_mutation null_random chance_per_node chance_per_field parent parent_gen w =
      edit H N.visitor (null_step chance_per_node chance_per_field) parent parent_gen w

  -- `TreeMutator`
  unfoldable pub tree_mutator : FieldOperation → H.F64 → H.F64 → MutationStrategy H
  tree_mutator operation chance_per_node chance_per_field =
      by_default H (tree_mutation operation chance_per_node chance_per_field)

  -- What the closure of `ArbitraryGenerator` captures
  pub record Search : Type 0 where
    pub current_index : ℕ
    pub is_mutated : Bool
    pub world : World H

  unfoldable pub replace_at : ℕ → N.Node → Search → N.Node × Search × Flow
  replace_at target_index node s =
      let (made, rng) = N.arbitrary s.world.rng in
      let w : World H = record (s.world) { rng = rng } in
      if s.current_index == target_index
      then (elim made [
        | none ↦ (node, record s { world = w }, break_off)
        | some new_node ↦ (new_node, record s { is_mutated = true; world = w }, break_off)
      ])
      else (node, record s { current_index = s.current_index + 1 }, continue_on)

  unfoldable pub arbitrary_tree :
      List H.Statement → Child H → World H → Option (Child H × World H × BreedResult)
  arbitrary_tree tree child w =
      let node_count = length (N.visitor.nodes tree) in
      if node_count == 0
      then some (child, w, ok unchanged)
      else (draw H 0 node_count w >>= λ target.
          let (tree', s) =
            N.visitor.visit_mut (replace_at target.0) tree
              (record { current_index = 0; is_mutated = false; world = target.1 }) in
          some (with_ast H tree' child, s.world, ok (state_of s.is_mutated)))

  -- `ArbitraryGenerator`
  unfoldable pub arbitrary_generator : MutationStrategy H
  arbitrary_generator = by_default H (λ child parent_gen w. elim (ast_mut H child) [
    | none ↦ some (child, w, err ast_shared)
    | some tree ↦ arbitrary_tree tree child w
  ])
