-- ===== src/Cov/EdgeMap/Bytewise.antt =====
-- `update` against a plain reading of what it is for: one pass over the bytes of both maps.
use native.Mathlib.Nat.{zero-add, add-zero, suc-add, add-suc}
use ast_sqlite_test.Common.{
  ℕ, zero, suc, ◌+◌, ◌-◌, ◌*◌, ◌/◌, ◌≤◌, ◌<◌, min, ◌≡◌, refl, ap, ◌∙◌, ◌&&◌, List, [], ◌∷◌, ◌++◌,
  append-nil, append_assoc, some, ltb, ◌==◌, if◌then◌else◌, length, get_or, for_range,
  for_range_add, length-append, get_or_seam, set_seam, get_elem?_in_range, Bool-cases, sym, ==_iff,
  ℕ_discrete, inl, inr, arith,
}
use ast_sqlite_test.Cov.EdgeMap.{
  EdgeMap, Scan, mark, visit, from_ne_bytes, visit_word, visit_tail, update,
}

-- The map with every edge of `theirs` set.
abbrev pub merged : List ℕ → List ℕ → List ℕ
merged (x ∷ xs) (y ∷ ys) = (if ltb 0 y && x == 0 then 1 else x) ∷ merged xs ys
merged xs _ = xs

-- The edges of `theirs` that `ours` has not, counted from `i` on.
abbrev pub new_from : ℕ → List ℕ → List ℕ → List ℕ
new_from i (x ∷ xs) (y ∷ ys) =
    let rest = new_from (suc i) xs ys in if ltb 0 y && x == 0 then i ∷ rest else rest
new_from i _ _ = []

abbrev pub all_from : ℕ → List ℕ → List ℕ
all_from i [] = []
all_from i (y ∷ ys) = let rest = all_from (suc i) ys in if ltb 0 y then i ∷ rest else rest

abbrev scan : List ℕ → List ℕ → List ℕ → Scan
scan m a b = record { raw_map = m; new = a; all = b }

abbrev after : ℕ → ℕ → ℕ
after x y = if ltb 0 y && x == 0 then 1 else x

visit_seam :
    (opre ys pre xs : List ℕ) (y x : ℕ) (a b : List ℕ)
    → length opre ≡ length pre
    → visit (opre ++ y ∷ ys) (length pre) (scan (pre ++ x ∷ xs) a b)
      ≡ scan
          (pre ++ after x y ∷ xs)
          (if ltb 0 y && x == 0 then a ++ length pre ∷ [] else a)
          (if ltb 0 y then b ++ length pre ∷ [] else b)
unfolding visit mark
visit_seam opre ys pre xs y x a b h =
    let e : get_or (opre ++ y ∷ ys) (length pre) 0 ≡ y = rw (← h) (get_or_seam opre ys y 0) in
    rw (e, get_or_seam pre xs x 0) (ground (arith, set_seam pre xs x 1))

snoc_append : (pre xs : List ℕ) (x : ℕ) → (pre ++ x ∷ []) ++ xs ≡ pre ++ x ∷ xs
snoc_append pre xs x = append_assoc pre (x ∷ []) xs

length-snoc : (pre : List ℕ) (x : ℕ) → length (pre ++ x ∷ []) ≡ suc (length pre)
length-snoc pre x = omega (arith, length-append pre (x ∷ []))

-- The loop over the whole of both maps, from any seam.
visit_all :
    (xs ys pre opre a b : List ℕ)
    → length opre ≡ length pre
    → length xs ≡ length ys
    → for_range (length pre) (length xs) (visit (opre ++ ys)) (scan (pre ++ xs) a b)
      ≡ scan
          (pre ++ merged xs ys)
          (a ++ new_from (length pre) xs ys)
          (b ++ all_from (length pre) ys)
visit_all [] [] pre opre a b h k = rw (append-nil pre, append-nil a, append-nil b)
visit_all [] (y ∷ ys) pre opre a b h k = absurd (omega arith)
visit_all (x ∷ xs) [] pre opre a b h k = absurd (omega arith)
visit_all (x ∷ xs) (y ∷ ys) pre opre a b h k =
    let v : ℕ = after x y in
    let i : ℕ = length pre in
    let a' : List ℕ = if ltb 0 y && x == 0 then a ++ i ∷ [] else a in
    let b' : List ℕ = if ltb 0 y then b ++ i ∷ [] else b in
    let ih =
      rw
        (
          length-snoc pre v,
          snoc_append opre ys y,
          snoc_append pre xs v,
          snoc_append pre (merged xs ys) v,
        )
        at
        (visit_all xs ys (pre ++ v ∷ []) (opre ++ y ∷ []) a' b'
          (omega (arith, length-snoc pre v, length-snoc opre y)) (omega arith)) in
    ap (for_range (suc i) (length xs) (visit (opre ++ y ∷ ys)))
      (visit_seam opre ys pre xs y x a b h)
    ∙ ih
    ∙ ground (
      arith,
      append_assoc a (i ∷ []) (new_from (suc i) xs ys),
      append_assoc b (i ∷ []) (all_from (suc i) ys),
    )

-- A word of zeros is eight bytes of zeros.
zero_word :
    (theirs : List ℕ) (k j : ℕ)
    → from_ne_bytes theirs k ≡ 0
    → j < 8
    → get_or theirs (k * 8 + j) 0 ≡ 0
unfolding from_ne_bytes
zero_word theirs k zero h l = omega arith
zero_word theirs k (suc zero) h l = omega arith
zero_word theirs k (suc (suc zero)) h l = omega arith
zero_word theirs k (suc (suc (suc zero))) h l = omega arith
zero_word theirs k (suc (suc (suc (suc zero)))) h l = omega arith
zero_word theirs k (suc (suc (suc (suc (suc zero))))) h l = omega arith
zero_word theirs k (suc (suc (suc (suc (suc (suc zero)))))) h l = omega arith
zero_word theirs k (suc (suc (suc (suc (suc (suc (suc j))))))) h l = elim (ℕ_discrete j 0) [
  | yes e ↦ rw e (omega arith)
  | no e ↦ absurd (omega arith)
]

visit_zeros :
    (theirs : List ℕ) (n start : ℕ) (s : Scan)
    → ((j : ℕ) → j < n → get_or theirs (start + j) 0 ≡ 0)
    → for_range start n (visit theirs) s ≡ s
unfolding visit
visit_zeros theirs zero start s h = refl
visit_zeros theirs (suc n) start s h =
    let e : get_or theirs start 0 ≡ 0 = rw add-zero at (h 0 (omega arith)) in
    rw e (
      visit_zeros theirs n (suc start) s (λ j l. rw (suc-add, ← add-suc) (h (suc j) (omega arith))))

visit_word_lem :
    (theirs : List ℕ) (k : ℕ) (s : Scan)
    → visit_word theirs k s ≡ for_range (k * 8) 8 (visit theirs) s
unfolding visit_word
visit_word_lem theirs k s = elim (Bool-cases (from_ne_bytes theirs k == 0)) [
  | inl z ↦
      rw z (sym (visit_zeros theirs 8 (k * 8) s (λ j l. zero_word theirs k j ((==_iff _ 0).0 z) l)))
  | inr nz ↦ rw nz refl
]

visit_words :
    (theirs : List ℕ) (n k : ℕ) (s : Scan)
    → for_range k n (visit_word theirs) s ≡ for_range (k * 8) (n * 8) (visit theirs) s
visit_words theirs zero k s = refl
visit_words theirs (suc n) k s =
    let next : k * 8 + 8 ≡ suc k * 8 = omega arith in
    let more : suc n * 8 ≡ 8 + n * 8 = omega arith in
    rw (visit_words theirs n (suc k), visit_word_lem theirs k s, more)
      (sym (
        for_range_add 8 (n * 8) (k * 8) (visit theirs) s
        ∙ ap (λ i. for_range i (n * 8) (visit theirs) (for_range (k * 8) 8 (visit theirs) s)) next))

visit_tail_lem :
    (theirs : List ℕ) (n start : ℕ) (s : Scan)
    → start + n ≤ length theirs
    → visit_tail theirs start n s ≡ some (for_range start n (visit theirs) s)
unfolding visit_tail
visit_tail_lem theirs zero start s h = refl
visit_tail_lem theirs (suc n) start s h =
    rw (get_elem?_in_range theirs start 0 (omega arith), visit_tail)
      (visit_tail_lem theirs n (suc start) (visit theirs start s) (omega arith))

-- For maps of one size `update` does not panic; it sets every edge of the other map, reports
-- those that were not set before as new and all of them as hit, in order, and adds the number
-- of the new ones to the total. Skipping the words of zeros changes nothing.
pub update-merged :
    (m : EdgeMap) (theirs : List ℕ)
    → length theirs ≡ length m.raw_map
    → update m theirs
      ≡ some (
        record {
          raw_map = merged m.raw_map theirs;
          total_found = m.total_found + length (new_from 0 m.raw_map theirs);
        },
        record { new = new_from 0 m.raw_map theirs; all = all_from 0 theirs },
      )
unfolding update
update-merged m theirs h =
    let n = length m.raw_map in
    let s : Scan = scan m.raw_map [] [] in
    let e : min (length theirs / 8) (n / 8) ≡ n / 8 = omega arith in
    let all_bytes : n / 8 * 8 + (n - n / 8 * 8) ≡ n = omega arith in
    let whole : for_range (0 + n / 8 * 8) (n - n / 8 * 8) (visit theirs)
          (for_range 0 (n / 8 * 8) (visit theirs) s)
        ≡ scan (merged m.raw_map theirs) (new_from 0 m.raw_map theirs) (all_from 0 theirs) =
      sym (for_range_add (n / 8 * 8) (n - n / 8 * 8) 0 (visit theirs) s)
      ∙ ap (λ k. for_range 0 k (visit theirs) s) all_bytes
      ∙ visit_all m.raw_map theirs [] [] [] [] refl (sym h) in
    rw (e, visit_words theirs (n / 8) 0 s)
      (rw
        (visit_tail_lem theirs (n - n / 8 * 8) (n / 8 * 8)
          (for_range 0 (n / 8 * 8) (visit theirs) s) (omega arith))
        (rw (rw zero-add at whole) refl))
