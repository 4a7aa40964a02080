-- ===== src/Common/Assoc.antt =====
-- The standard library's `HashMap` with numbers for keys: an association list, so that the order
-- of iteration is some order of the entries.
use Prim.Native.Nat.{ℕ, ◌+◌, ◌≤◌, ◌<◌}
use mathlib.Core.Path.{◌≡◌, refl, subst}
use mathlib.Core.Bool.{Bool, true, false, not, ◌&&◌, ◌||◌}
use mathlib.Core.List.{List, [], ◌∷◌, ◌++◌}
use mathlib.Core.Logic.{inl, inr}
use mathlib.Core.Option.{Option, none, some}
use native.Mathlib.Omega.{arith}
use ast_sqlite_test.Common.Lists.{length, filter}
use ast_sqlite_test.Common.Tests.{
  Bool-cases, Option-cases, option_map, is_some, ==_iff, ==_refl, ◌==◌, if◌then◌else◌,
}

abbrev pub Assoc {ℓ} : Type ℓ → Type ℓ
Assoc V = List (ℕ × V)

abbrev pub mem : ℕ → List ℕ → Bool
mem k [] = false
mem k (j ∷ ks) = if j == k then true else mem k ks

-- A list of keys in which none stands twice: a `HashSet`, in the order of iteration.
abbrev pub distinct : List ℕ → Bool
distinct [] = true
distinct (x ∷ xs) = not (mem x xs) && distinct xs

pub mem-append : (k : ℕ) (xs ys : List ℕ) → mem k (xs ++ ys) ≡ mem k xs || mem k ys
mem-append k [] ys = refl
mem-append k (x ∷ xs) ys = ground (arith, mem-append k xs ys)

pub mem-filter : (p : ℕ → Bool) (xs : List ℕ) (k : ℕ) → mem k (filter p xs) ≡ mem k xs && p k
mem-filter p [] k = refl
mem-filter p (x ∷ xs) k = elim (Bool-cases (x == k)) [
  | inl e ↦ let same : x ≡ k = ground arith in ground (arith, mem-filter p xs k, same)
  | inr ne ↦ ground (arith, mem-filter p xs k)
]

pub distinct-filter :
    (p : ℕ → Bool) (xs : List ℕ) → distinct xs ≡ true → distinct (filter p xs) ≡ true
distinct-filter p [] d = refl
distinct-filter p (x ∷ xs) d = ground (arith, distinct-filter p xs, mem-filter p xs x)

module _ {ℓ} {V : Type ℓ} where
  abbrev pub lookup : ℕ → Assoc V → Option V
  lookup k [] = none
  lookup k (e ∷ m) = if e.0 == k then some e.1 else lookup k m

  -- Replaces the value of a key that is there.
  abbrev pub insert : ℕ → V → Assoc V → Assoc V
  insert k v [] = (k, v) ∷ []
  insert k v (e ∷ m) = if e.0 == k then (k, v) ∷ m else e ∷ insert k v m

  abbrev pub remove : ℕ → Assoc V → Assoc V
  remove k [] = []
  remove k (e ∷ m) = let rest = remove k m in if e.0 == k then rest else e ∷ rest

  abbrev pub contains_key : ℕ → Assoc V → Bool
  contains_key k m = elim (lookup k m) [ none ↦ false | some _ ↦ true ]

  abbrev pub keys : Assoc V → List ℕ
  keys [] = []
  keys (e ∷ m) = e.0 ∷ keys m

  pub lookup-insert :
      (k j : ℕ) (v : V) (m : Assoc V)
      → lookup j (insert k v m) ≡ (if k == j then some v else lookup j m)
  lookup-insert k j v [] = refl
  lookup-insert k j v (e ∷ m) = ground (arith, lookup-insert k j v m)

  pub lookup-remove :
      (k j : ℕ) (m : Assoc V) → lookup j (remove k m) ≡ (if k == j then none else lookup j m)
  lookup-remove k j [] = ground arith
  lookup-remove k j (e ∷ m) = ground (arith, lookup-remove k j m)

  pub length-remove-le : (k : ℕ) (m : Assoc V) → length (remove k m) ≤ length m
  length-remove-le k [] = omega arith
  length-remove-le k (e ∷ m) = ground (arith, length-remove-le k m)

  -- Taking out a key that is there makes room.
  pub length-remove :
      (k : ℕ) (m : Assoc V) (v : V) → lookup k m ≡ some v → length (remove k m) + 1 ≤ length m
  length-remove k [] v h = cc
  length-remove k (e ∷ m) v h = ground (arith, length-remove k m v, length-remove-le k m)

  pub length-insert : (k : ℕ) (v : V) (m : Assoc V) → length (insert k v m) ≤ length m + 1
  length-insert k v [] = omega arith
  length-insert k v (e ∷ m) = ground (arith, length-insert k v m)

  pub mem-keys : (k : ℕ) (m : Assoc V) → mem k (keys m) ≡ contains_key k m
  mem-keys k [] = refl
  mem-keys k (e ∷ m) = ground (arith, mem-keys k m)

module _ {ℓ} {V : Type ℓ} where
  -- `if let Some(v) = map.get_mut(k) { *v = f(v) }`
  abbrev pub modify : ℕ → (V → V) → Assoc V → Assoc V
  modify k f m = elim (lookup k m) [ none ↦ m | some v ↦ insert k (f v) m ]

  pub lookup-modify :
      (k j : ℕ) (f : V → V) (m : Assoc V)
      → lookup j (modify k f m) ≡ (if k == j then option_map f (lookup k m) else lookup j m)
  lookup-modify k j f m = elim (Option-cases (lookup k m)) [
    | inl gone ↦
        rw (gone, modify)
          (elim (Bool-cases (k == j)) [
            | inl e ↦ rw e (subst (λ i. lookup i m ≡ none) ((==_iff k j).0 e) gone)
            | inr ne ↦ rw ne refl
          ])
    | inr (v, found) ↦ rw (found, modify) (lookup-insert k j (f v) m)
  ]

  pub nonempty_key : (m : Assoc V) → 0 < length m → (k : ℕ) × (is_some (lookup k m) ≡ true)
  nonempty_key [] h = absurd (omega arith)
  nonempty_key (e ∷ m) h = (e.0, rw (==_refl e.0) refl)
