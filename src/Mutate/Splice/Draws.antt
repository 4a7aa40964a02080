-- ===== src/Mutate/Splice/Draws.antt =====
-- What the draws of a splice give, and the lengths of what is cut.
use ast_sqlite_test.Common.{
  refl, ℕ, zero, suc, ◌+◌, ◌-◌, ◌≤◌, ◌<◌, ◌≡◌, true, false, List, ◌++◌, some, length, take, drop,
  arith, Bool-cases, inl, inr, ◌⊎◌, length-append, length-take, length-drop, ltb, ℕ_discrete, none,
  ◌≢◌,
}
use ast_sqlite_test.Mutate.Strategy.{get_mut, Host, World, flip, draw, Child, ast_mut}
use ast_sqlite_test.Mutate.Splice.{splice_len, splice, slice}

pub length-slice :
    {A : Type 0} (start end : ℕ) (v : List A)
    → end ≤ length v
    → length (slice start end v) ≡ end - start
unfolding slice
length-slice start end v h =
    omega (arith, h, length-take (end - start) (drop start v), length-drop start v)

pub length-splice :
    {A : Type 0} (start end : ℕ) (insert v : List A)
    → start ≤ end
    → end ≤ length v
    → length (splice start end insert v) + (end - start) ≡ length v + length insert
unfolding splice
length-splice start end insert v h k = omega (
  arith,
  h,
  k,
  length-append (take start v) (insert ++ drop end v),
  length-append insert (drop end v),
  length-take start v,
  length-drop end v,
)

module _ (H : Host) where
  pub draw_lem :
      (low high n : ℕ) (w w' : World H) → draw H low high w ≡ some (n, w') → (low ≤ n) × (n < high)
  unfolding draw
  draw_lem low high n w w' h = elim (Bool-cases (ltb low high)) [
    | inl t ↦ ground (arith, h, t, H.in_range low high w.rng)
    | inr f ↦ ground (arith, h, f)
  ]

  pub draw-some :
      (low high : ℕ) (w : World H)
      → low < high
      → (n : ℕ) × (w' : World H) × (draw H low high w ≡ some (n, w'))
  unfolding draw
  draw-some low high w h =
      let (n, rng) = H.random_range low high w.rng in
      let t : ltb low high ≡ true = ground (arith, h) in
      (n, record w { rng = rng }, rw (t, draw) refl)

  pub splice_len_pos : (rounds : ℕ) (p : H.F64) (w : World H) → 0 < (splice_len H rounds p w).0
  unfolding splice_len
  splice_len_pos zero p w = omega arith
  splice_len_pos (suc rounds) p w = elim (Bool-cases (flip H p w).0) [
    | inl t ↦ rw (t, splice_len) (omega arith)
    | inr f ↦ rw (f, splice_len) (omega arith)
  ]

  -- A run of the generator that hits so many times and then misses.
  pub data Misses (p : H.F64) : World H → ℕ → World H → Type 0 where
    now : {w w' : World H} → flip H p w ≡ (false, w') → Misses p w 0 w'
    later :
        {w w₁ w' : World H} {hits : ℕ}
        → flip H p w ≡ (true, w₁)
        → Misses p w₁ hits w'
        → Misses p w (suc hits) w'

  -- Where the generator hits so many times and then misses, the length that is drawn is one more than
  -- the hits, for any number of rounds that is greater.
  pub splice_len-Misses :
      (rounds : ℕ) {p : H.F64} {w w' : World H} {hits : ℕ}
      → Misses p w hits w'
      → hits < rounds
      → splice_len H rounds p w ≡ (suc hits, w')
  unfolding splice_len
  splice_len-Misses zero m h = absurd (omega (arith, h))
  splice_len-Misses (suc rounds) (now e) h = ground (arith, e)
  splice_len-Misses (suc rounds) {p = p} (later {w₁ = w₁} {w' = w'} {hits = hits} e m) h = ground (
    arith,
    e,
    splice_len-Misses rounds {p = p} {w = w₁} {w' = w'} {hits = hits} m (omega (arith, h)),
  )

  pub ast_mut_count :
      (child : Child H)
      → ((ast_mut H child ≡ none) × (child.entry.ast.count ≢ 1))
        ⊎ ((ast_mut H child ≡ some (child.entry.ast.tree)) × (child.entry.ast.count ≡ 1))
  unfolding ast_mut get_mut
  ast_mut_count child = elim (ℕ_discrete child.entry.ast.count 1) [
    | yes one ↦ inr (ground (arith, one), one)
    | no more ↦ inl (ground (arith, more), more)
  ]
