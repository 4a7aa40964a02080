-- ===== src/Cov/EdgeMap/Coverage.antt =====
-- What `update` keeps and what it can report: the running total, and each edge reported once.
use ast_sqlite_test.Common.{
  ℕ, zero, suc, ◌+◌, ◌≤◌, ◌≡◌, refl, ap, ◌∙◌, sym, ◌||◌, List, [], ◌∷◌, some, ltb, ◌==◌,
  if◌then◌else◌, length, get_or, arith,
}
use ast_sqlite_test.Cov.EdgeMap.Bytewise.{merged, new_from, update-merged}
use ast_sqlite_test.Cov.EdgeMap.{EdgeMap, EdgesFound, update}

-- The number of edges that are set.
abbrev pub covered : List ℕ → ℕ
covered [] = 0
covered (x ∷ xs) = if x == 0 then covered xs else suc (covered xs)

abbrev pub IsConsistent : EdgeMap → Type 0
IsConsistent m = m.total_found ≡ covered m.raw_map

covered-le : (xs : List ℕ) → covered xs ≤ length xs
covered-le [] = omega arith
covered-le (x ∷ xs) = ground (arith, covered-le xs)

pub covered-merged :
    (i : ℕ) (xs ys : List ℕ) → covered (merged xs ys) ≡ covered xs + length (new_from i xs ys)
covered-merged i [] ys = omega arith
covered-merged i (x ∷ xs) [] = omega arith
covered-merged i (x ∷ xs) (y ∷ ys) = ground (arith, covered-merged (suc i) xs ys)

length-merged : (xs ys : List ℕ) → length (merged xs ys) ≡ length xs
length-merged [] ys = refl
length-merged (x ∷ xs) [] = refl
length-merged (x ∷ xs) (y ∷ ys) = ap suc (length-merged xs ys)

merged-merged : (xs ys : List ℕ) → merged (merged xs ys) ys ≡ merged xs ys
merged-merged [] ys = refl
merged-merged (x ∷ xs) [] = refl
merged-merged (x ∷ xs) (y ∷ ys) = ground (arith, merged-merged xs ys)

new_from-merged : (i : ℕ) (xs ys : List ℕ) → new_from i (merged xs ys) ys ≡ []
new_from-merged i [] ys = refl
new_from-merged i (x ∷ xs) [] = refl
new_from-merged i (x ∷ xs) (y ∷ ys) = ground (arith, new_from-merged (suc i) xs ys)

pub get_or-merged :
    (xs ys : List ℕ) (i : ℕ)
    → length ys ≡ length xs
    → ltb 0 (get_or (merged xs ys) i 0) ≡ ltb 0 (get_or xs i 0) || ltb 0 (get_or ys i 0)
get_or-merged [] [] i h = refl
get_or-merged [] (y ∷ ys) i h = absurd (omega arith)
get_or-merged (x ∷ xs) [] i h = absurd (omega arith)
get_or-merged (x ∷ xs) (y ∷ ys) zero h = ground arith
get_or-merged (x ∷ xs) (y ∷ ys) (suc i) h = get_or-merged xs ys i (omega arith)

module _ (m : EdgeMap) (theirs : List ℕ) (same_size : length theirs ≡ length m.raw_map) where
  -- `total_found` stays the number of edges that are set, which is at most the number of edges;
  -- it grows by the number of edges reported as new.
  pub update-IsConsistent :
      IsConsistent m
      → (m' : EdgeMap) × (found : EdgesFound) × (update m theirs ≡ some (m', found))
        × IsConsistent m'
        × (m'.total_found ≡ m.total_found + length found.new)
        × (m'.total_found ≤ length m'.raw_map)
  update-IsConsistent c = (
    _,
    _,
    update-merged m theirs same_size,
    omega (arith, covered-merged 0 m.raw_map theirs),
    refl,
    omega (arith, covered-merged 0 m.raw_map theirs, covered-le (merged m.raw_map theirs)),
  )

  -- After `update` an edge is set exactly when it was set before or the other map has it.
  pub get-update :
      (i : ℕ)
      → (m' : EdgeMap) × (found : EdgesFound) × (update m theirs ≡ some (m', found))
        × (ltb 0 (get_or m'.raw_map i 0)
            ≡ ltb 0 (get_or m.raw_map i 0) || ltb 0 (get_or theirs i 0))
  get-update i =
      (_, _, update-merged m theirs same_size, get_or-merged m.raw_map theirs i same_size)

  -- An edge is new once: a second `update` by the same map reports the same hits and nothing
  -- new, and changes nothing.
  pub update-update :
      (m' : EdgeMap) × (found : EdgesFound) × (update m theirs ≡ some (m', found))
      × (update m' theirs ≡ some (m', record { new = []; all = found.all }))
  update-update =
      let n = length-merged m.raw_map theirs in
      (
        _,
        _,
        update-merged m theirs same_size,
        update-merged (record { raw_map = merged m.raw_map theirs; total_found = _ }) theirs
              (same_size ∙ sym n)
            ∙ ground (arith, merged-merged m.raw_map theirs, new_from-merged 0 m.raw_map theirs),
      )
