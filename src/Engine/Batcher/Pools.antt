-- ===== src/Engine/Batcher/Pools.antt =====
-- A test that all of a list pass, through the changes of a pool.
use ast_sqlite_test.Common.{
  ℕ, zero, suc, ◌-◌, ◌≤◌, ◌<◌, ◌≡◌, refl, Bool, true, List, [], ◌∷◌, ◌++◌, length, get_or, set,
  take, all, arith, length-set, length-take, ap, ℕ_discrete, get_or-set_ne,
}
use ast_sqlite_test.Engine.Batcher.{swap_remove}

module _ {A : Type 0} (p : A → Bool) where
  pub all-set :
      (xs : List A) (i : ℕ) (v : A) → all p xs ≡ true → p v ≡ true → all p (set xs i v) ≡ true
  all-set [] i v h q = refl
  all-set (x ∷ xs) zero v h q = ground (arith, h, q)
  all-set (x ∷ xs) (suc i) v h q = ground (arith, h, all-set xs i v)

  pub all-take : (n : ℕ) (xs : List A) → all p xs ≡ true → all p (take n xs) ≡ true
  all-take zero xs h = refl
  all-take (suc n) [] h = refl
  all-take (suc n) (x ∷ xs) h = ground (arith, h, all-take n xs)

  pub all-append : (xs ys : List A) → all p xs ≡ true → all p ys ≡ true → all p (xs ++ ys) ≡ true
  all-append [] ys h q = q
  all-append (x ∷ xs) ys h q = ground (arith, h, all-append xs ys)

  pub all-get_or :
      (xs : List A) (i : ℕ) (d : A) → all p xs ≡ true → i < length xs → p (get_or xs i d) ≡ true
  all-get_or [] i d h l = absurd (omega arith)
  all-get_or (x ∷ xs) zero d h l = ground (arith, h)
  all-get_or (x ∷ xs) (suc i) d h l = all-get_or xs i d (ground (arith, h)) (omega arith)

  pub take-set_before : (n i : ℕ) (w : A) (xs : List A) → n ≤ i → take n (set xs i w) ≡ take n xs
  take-set_before zero i w xs h = refl
  take-set_before (suc n) i w [] h = refl
  take-set_before (suc n) zero w (x ∷ xs) h = absurd (omega arith)
  take-set_before (suc n) (suc i) w (x ∷ xs) h = ap (◌∷◌ x) (take-set_before n i w xs (omega arith))

  pub set-set : (xs : List A) (i : ℕ) (v w : A) → set (set xs i v) i w ≡ set xs i w
  set-set [] i v w = refl
  set-set (x ∷ xs) zero v w = refl
  set-set (x ∷ xs) (suc i) v w = ap (◌∷◌ x) (set-set xs i v w)

  -- All but the one that is removed.
  pub all-swap_remove :
      (i : ℕ) (d v : A) (xs : List A)
      → all p xs ≡ true
      → i < length xs
      → (all p (swap_remove i d (set xs i v)) ≡ true)
        × (length (swap_remove i d (set xs i v)) ≡ length xs - 1)
  unfolding swap_remove
  all-swap_remove i d v xs h l = rw (length-set xs i v) (elim (ℕ_discrete i (length xs - 1)) [
    | yes e ↦ (
      rw
          (
            set-set xs i v (get_or (set xs i v) (length xs - 1) d),
            take-set_before (length xs - 1) i (get_or (set xs i v) (length xs - 1) d) xs
                (omega arith),
          )
          (all-take (length xs - 1) xs h),
      size_lem,
    )
    | no ne ↦ (
      rw
          (
            set-set xs i v (get_or (set xs i v) (length xs - 1) d),
            get_or-set_ne xs i (length xs - 1) v d ne,
          )
          (all-take (length xs - 1) (set xs i (get_or xs (length xs - 1) d)) (
            all-set xs i (get_or xs (length xs - 1) d) h
              (all-get_or xs (length xs - 1) d h (omega arith)))),
      size_lem,
    )
  ])
    where
      size_lem :
          length (take (length xs - 1) (set (set xs i v) i (get_or (set xs i v) (length xs - 1) d)))
          ≡ length xs - 1
      size_lem = omega (
        arith,
        length-take (length xs - 1) (set (set xs i v) i (get_or (set xs i v) (length xs - 1) d)),
        length-set (set xs i v) i (get_or (set xs i v) (length xs - 1) d),
        length-set xs i v,
      )
