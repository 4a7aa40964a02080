-- ===== src/Mutate/Values/Flips.antt =====
-- What the changes at single expressions keep.
use Prim.Native.String.{String}
use ast_sqlite_test.Common.{ℕ, option_map, ◌≡◌, ◌↔◌, refl, List, [], ◌∷◌, Option, none, some, arith}
use ast_sqlite_test.Mutate.Strategy.{Host, by_default}
use ast_sqlite_test.Mutate.Visit.Edits.{IsStrictStep, edit-IsStrict}
use ast_sqlite_test.Mutate.Combinators.Idle.{IsStrict, breed_by_default-IsStrict}
use ast_sqlite_test.Mutate.Syntax.{
  BinaryOperator, other, Syntax, ObjectNamePart, identifier, function,
}
use ast_sqlite_test.Mutate.Values.{
  flipped, numeric_step, numeric_bounds, flip_step, operator_flip, null_step, null_inject,
  cast_step, type_cast, force_ident, force_ident_tree, last_ident, force_parts, force_args,
}

abbrev IsOther : BinaryOperator → Type 0
IsOther op = (n : ℕ) × (op ≡ other n)

-- A flip undone is none, and only the operators without a partner are their own flip.
pub flipped-flipped :
    (op : BinaryOperator) → (flipped (flipped op) ≡ op) × ((flipped op ≡ op) ↔ IsOther op)
unfolding flipped
flipped-flipped (other n) = (refl, (λ h. (n, refl), λ h. refl))
flipped-flipped op = (refl, (λ h. absurd (ground (arith, h)), λ h. absurd (ground (arith, h.1))))

module _ (H : Host) (X : Syntax H) (chance : H.F64) where
  numeric_step-IsStrict : IsStrictStep H X.exprs (numeric_step H X chance)
  unfolding numeric_step
  numeric_step-IsStrict n w h = ground (arith, h)

  flip_step-IsStrict : IsStrictStep H X.exprs (flip_step H X chance)
  unfolding flip_step
  flip_step-IsStrict n w h = ground (arith, h)

  null_step-IsStrict : IsStrictStep H X.exprs (null_step H X chance)
  unfolding null_step
  null_step-IsStrict n w h = ground (arith, h)

  cast_step-IsStrict : IsStrictStep H X.exprs (cast_step H X chance)
  unfolding cast_step
  cast_step-IsStrict n w h = ground (arith, h)

  -- The four strategies that change single expressions leave the child alone unless they report a
  -- mutation, also where its tree is shared and they fail.
  pub values-IsStrict :
      IsStrict H (numeric_bounds H X chance).breed
      × IsStrict H (operator_flip H X chance).breed
      × IsStrict H (null_inject H X chance).breed
      × IsStrict H (type_cast H X chance).breed
  unfolding numeric_bounds operator_flip null_inject type_cast by_default
  values-IsStrict = (
    breed_by_default-IsStrict H _ (edit-IsStrict H X.exprs _ numeric_step-IsStrict),
    breed_by_default-IsStrict H _ (edit-IsStrict H X.exprs _ flip_step-IsStrict),
    breed_by_default-IsStrict H _ (edit-IsStrict H X.exprs _ null_step-IsStrict),
    breed_by_default-IsStrict H _ (edit-IsStrict H X.exprs _ cast_step-IsStrict),
  )

module _ (H : Host) (X : Syntax H) where
  pub force_ident-IsStrict : IsStrict H (force_ident H X).breed
  unfolding force_ident by_default force_ident_tree
  force_ident-IsStrict =
      breed_by_default-IsStrict H _ (λ child gen w child' w' r h q. ground (arith, h, q))

force_args_again :
    (ident ident' : String) (args : List (Option String))
    → force_args ident' (force_args ident args) ≡ force_args ident' args
unfolding force_args
force_args_again ident ident' [] = refl
force_args_again ident ident' (none ∷ args) = cc (force_args_again ident ident' args)
force_args_again ident ident' (some v ∷ args) = cc (force_args_again ident ident' args)

force_parts_again :
    (ident ident' : String) (rel : List ObjectNamePart)
    → force_parts ident' (force_parts ident rel) ≡ force_parts ident' rel
unfolding force_parts
force_parts_again ident ident' [] = refl
force_parts_again ident ident' (identifier v ∷ rel) = cc (force_parts_again ident ident' rel)
force_parts_again ident ident' (function name args ∷ rel) =
    cc (force_args_again ident ident' args, force_parts_again ident ident' rel)

last_ident-force_parts :
    (ident : String) (rel : List ObjectNamePart)
    → last_ident (force_parts ident rel) ≡ option_map (λ old. ident) (last_ident rel)
unfolding force_parts last_ident
last_ident-force_parts ident [] = refl
last_ident-force_parts ident (identifier v ∷ []) = refl
last_ident-force_parts ident (function name args ∷ []) = refl
last_ident-force_parts ident (identifier v ∷ identifier v' ∷ rel) =
    last_ident-force_parts ident (identifier v' ∷ rel)
last_ident-force_parts ident (identifier v ∷ function name' args' ∷ rel) =
    last_ident-force_parts ident (function name' args' ∷ rel)
last_ident-force_parts ident (function name args ∷ identifier v' ∷ rel) =
    last_ident-force_parts ident (identifier v' ∷ rel)
last_ident-force_parts ident (function name args ∷ function name' args' ∷ rel) =
    last_ident-force_parts ident (function name' args' ∷ rel)

-- Where a name is forced on a relation, its last part is that name if it was a name before, and no
-- name if it was none; to force another one is to forget the first.
pub force_parts_lem :
    (ident ident' : String) (rel : List ObjectNamePart)
    → (last_ident (force_parts ident rel) ≡ option_map (λ old. ident) (last_ident rel))
      × (force_parts ident' (force_parts ident rel) ≡ force_parts ident' rel)
force_parts_lem ident ident' rel =
    (last_ident-force_parts ident rel, force_parts_again ident ident' rel)
