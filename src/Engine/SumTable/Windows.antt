-- ===== src/Engine/SumTable/Windows.antt =====
-- Windows of a list of weights.
use ast_sqlite_test.Common.{
  ℕ, zero, suc, ◌+◌, ◌*◌, ◌/◌, ◌≤◌, ◌<◌, ◌≡◌, ◌≢◌, refl, sym, ◌∙◌, ap, List, [], ◌∷◌, ◌++◌, length,
  take, drop, arith, dec_lt,
}
use ast_sqlite_test.Engine.SumTable.Weights.{block_bounds, block_apart}

-- `n` weights from `m` on
abbrev pub window : {A : Type 0} → ℕ → ℕ → List A → List A
window m n xs = take n (drop m xs)

module _ {A : Type 0} where
  pub window-append_in :
      (m n : ℕ) (xs : List A) (x : A)
      → m ≤ length xs
      → length xs < m + n
      → window m n (xs ++ x ∷ []) ≡ window m n xs ++ x ∷ []
  window-append_in zero zero xs x h k = absurd (omega arith)
  window-append_in zero (suc zero) [] x h k = refl
  window-append_in zero (suc (suc n)) [] x h k = refl
  window-append_in zero (suc n) (y ∷ xs) x h k =
      ap (◌∷◌ y) (window-append_in zero n xs x (omega arith) (omega arith))
  window-append_in (suc m) n [] x h k = absurd (omega arith)
  window-append_in (suc m) n (y ∷ xs) x h k = window-append_in m n xs x (omega arith) (omega arith)

  pub window_past : (m n : ℕ) (xs : List A) → length xs ≤ m → window m n xs ≡ []
  window_past zero zero [] h = refl
  window_past zero (suc n) [] h = refl
  window_past (suc m) zero [] h = refl
  window_past (suc m) (suc n) [] h = refl
  window_past zero n (x ∷ xs) h = absurd (omega arith)
  window_past (suc m) n (x ∷ xs) h = window_past m n xs (omega arith)

  window-append_before :
      (m n : ℕ) (xs : List A) (x : A) → length xs < m → window m n (xs ++ x ∷ []) ≡ window m n xs
  window-append_before zero n xs x h = absurd (omega arith)
  window-append_before (suc m) n [] x h =
      window_past m n [] (omega arith) ∙ sym (window_past (suc m) n [] (omega arith))
  window-append_before (suc m) n (y ∷ xs) x h = window-append_before m n xs x (omega arith)

  window-append_after :
      (m n : ℕ) (xs : List A) (x : A)
      → m + n ≤ length xs
      → window m n (xs ++ x ∷ []) ≡ window m n xs
  window-append_after zero zero xs x h = refl
  window-append_after zero (suc n) [] x h = absurd (omega arith)
  window-append_after zero (suc n) (y ∷ xs) x h =
      ap (◌∷◌ y) (window-append_after zero n xs x (omega arith))
  window-append_after (suc m) n [] x h = absurd (omega arith)
  window-append_after (suc m) n (y ∷ xs) x h = window-append_after m n xs x (omega arith)

  -- A weight at the end stands in the window of its own block only.
  pub window-append_apart :
      (b size : ℕ) (xs : List A) (x : A)
      → 0 < size
      → b ≢ length xs / size
      → window (b * size) size (xs ++ x ∷ []) ≡ window (b * size) size xs
  window-append_apart b size xs x pos ne =
      let (low, high) = block_bounds (length xs) size pos in
      elim (dec_lt b (length xs / size)) [
        | yes lt ↦
            let past = block_apart b (length xs / size) size lt in
            window-append_after (b * size) size xs x (omega (arith, past, low))
        | no ge ↦
            let lt : length xs / size < b = omega (arith, ge, ne) in
            let before = block_apart (length xs / size) b size lt in
            window-append_before (b * size) size xs x (omega (arith, before, high))
      ]
