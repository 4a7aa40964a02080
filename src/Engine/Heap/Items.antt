-- ===== src/Engine/Heap/Items.antt =====
-- The ids of items and entries, and how often each stands in a list.
use ast_sqlite_test.Common.{
  ℕ, suc, ◌+◌, ◌≡◌, refl, ap, List, [], ◌∷◌, ◌++◌, some, ◌==◌, arith, if◌then◌else◌, Bool-cases,
  Option-cases, inl, inr,
}
use ast_sqlite_test.Core.Entry.{EntryId, RawEntry}
use ast_sqlite_test.Feedback.Outcome.{TestableEntry}
use ast_sqlite_test.Mutate.Strategy.{Host}
use ast_sqlite_test.Mutate.Queue.{cmp, is_lt, pop}
use ast_sqlite_test.Mutate.Queue.Loop.{length_none}
use ast_sqlite_test.Engine.Heap.{Target}

abbrev pub occurs : EntryId → List EntryId → ℕ
occurs id [] = 0
occurs id (x ∷ xs) = let rest = occurs id xs in if x == id then suc rest else rest

pub occurs-append :
    (id : EntryId) (xs ys : List EntryId) → occurs id (xs ++ ys) ≡ occurs id xs + occurs id ys
occurs-append id [] ys = omega arith
occurs-append id (x ∷ xs) ys = ground (arith, occurs-append id xs ys)

module _ (H : Host) where
  abbrev pub items : List (Target H) → List EntryId
  items [] = []
  items (x ∷ xs) = x.item ∷ items xs

  pub items-append : (xs ys : List (Target H)) → items (xs ++ ys) ≡ items xs ++ items ys
  items-append [] ys = refl
  items-append (x ∷ xs) ys = ap (λ r. x.item ∷ r) (items-append xs ys)

  pub pop_occurs :
      (id : EntryId) (queue rest : List (Target H)) (top : Target H)
      → pop H queue ≡ some (top, rest)
      → occurs id (items queue) ≡ occurs id (items (top ∷ rest))
  unfolding pop
  pop_occurs id [] rest top h = absurd (ground (arith, h))
  pop_occurs id (x ∷ xs) rest top h = elim (Option-cases (pop H xs)) [
    | inl gone ↦ ground (arith, h, gone, length_none H 0 0 xs gone)
    | inr ((best, rest'), found) ↦
        let same = pop_occurs id xs rest' best found in
        elim (Bool-cases (is_lt (cmp H x best))) [
          | inl t ↦ ground (arith, h, found, t, same)
          | inr f ↦ ground (arith, h, found, f, same)
        ]
  ]

abbrev pub ids_of : {A : Type 0} → List (TestableEntry (RawEntry A)) → List EntryId
ids_of [] = []
ids_of (x ∷ xs) = x.entry.id ∷ ids_of xs

pub ids_of-append :
    {A : Type 0} (xs ys : List (TestableEntry (RawEntry A)))
    → ids_of (xs ++ ys) ≡ ids_of xs ++ ids_of ys
ids_of-append [] ys = refl
ids_of-append (x ∷ xs) ys = ap (λ r. x.entry.id ∷ r) (ids_of-append xs ys)
