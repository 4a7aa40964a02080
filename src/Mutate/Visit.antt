-- ===== src/Mutate/Visit.antt =====
-- The visitors of the `sqlparser` crate, and the shape that the strategies over them share: take
-- the tree, change nodes in place, and report whether a node was changed.
pub mod Edits
use ast_sqlite_test.Common.{ℕ, ◌≡◌, Bool, true, false, ◌||◌, List, Option, none, some}
use ast_sqlite_test.Mutate.Strategy.{
  BreedResult, ok, err, ast_shared, state_of, Host, World, Child, Breed, ast_mut, with_ast,
}

-- `ControlFlow`
pub data Flow : Type 0 where
  continue_on break_off : Flow

-- `nodes` are the nodes of a kind in the order in which `visit_…` meets them. `visit_…_mut` calls
-- its closure on one node after the other, each where it stands, and stops when the closure breaks
-- off; `S` is what the closure captures.
pub record Visitor (Tree Node : Type 0) : Type 1 where
  pub nodes : Tree → List Node
  pub visit_mut : {S : Type 0} → (Node → S → Node × S × Flow) → Tree → S → Tree × S
  -- Where the state at the end tells that no call of the closure changed its node, the tree is
  -- what it was, and the state at the start told so too.
  pub unmoved :
      {S : Type 0} (P : S → Type 0) (f : Node → S → Node × S × Flow) (tree : Tree) (s : S)
      → ((n : Node) (t : S) → P (f n t).1 → P t × ((f n t).0 ≡ n))
      → P (visit_mut f tree s).1
      → P s × ((visit_mut f tree s).0 ≡ tree)

module _ (H : Host) where
  module _ {Node : Type 0} (V : Visitor (List H.Statement) Node) where
    -- What a strategy does at a node: the node, and whether it counts as a mutation.
    abbrev pub Step : Type 0
    Step = Node → World H → Node × World H × Bool

    unfoldable pub visiting : Step → Node → World H × Bool → Node × (World H × Bool) × Flow
    visiting step n s = let (n', w, hit) = step n s.0 in (n', (w, s.1 || hit), continue_on)

    unfoldable pub edit_tree :
        Step → List H.Statement → Child H → World H → Option (Child H × World H × BreedResult)
    edit_tree step tree child w =
        let (tree', s) = V.visit_mut (visiting step) tree (w, false) in
        some (with_ast H tree' child, s.0, ok (state_of s.1))

    unfoldable pub edit : Step → Breed H
    edit step child parent_gen w = elim (ast_mut H child) [
      | none ↦ some (child, w, err ast_shared)
      | some tree ↦ edit_tree step tree child w
    ]
