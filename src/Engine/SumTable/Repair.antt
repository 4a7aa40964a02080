-- ===== src/Engine/SumTable/Repair.antt =====
-- `resum` adds the leaves of each block up again, and the blocks.
use ast_sqlite_test.Common.{
  ℕ, zero, suc, ◌+◌, ◌*◌, ◌/◌, ◌≤◌, ◌<◌, ◌≡◌, refl, sym, ◌∙◌, ap, List, [], ◌∷◌, ◌++◌, some, length,
  get_elem?, get_or, set, map, arith, ℕ_discrete, dec_lt, length-set, length-append,
  get_or-set_self, get_or-set_ne, get_elem?_in_range, append_assoc, append-nil,
}
use native.Mathlib.Nat.{mul-le-mul_right}
use ast_sqlite_test.Feedback.Floats.{Floats}
use ast_sqlite_test.Engine.SumTable.{nothing, BlockSumTable, add_leaves, sum_from, resum}
use ast_sqlite_test.Engine.SumTable.Windows.{
  window, window_past, window-append_in, window-append_apart,
}
use ast_sqlite_test.Engine.SumTable.Weights.{IsValid, block_bounds}

block_inside : (i size blocks : ℕ) → 0 < size → i < blocks * size → i / size < blocks
block_inside i size blocks pos h = elim (dec_lt (i / size) blocks) [
  | yes lt ↦ lt
  | no ge ↦
      let over = mul-le-mul_right {m = blocks} {n = i / size} size (omega (arith, ge)) in
      absurd (omega (arith, over, h, (block_bounds i size pos).0))
]

module _ (F : Floats) where
  sum_from-append :
      (acc x : F.F64) (ws : List F.F64)
      → sum_from F acc (ws ++ x ∷ []) ≡ F.add (sum_from F acc ws) x
  sum_from-append acc x [] = refl
  sum_from-append acc x (w ∷ ws) = sum_from-append (F.add acc w) x ws

  -- The sum of a block's leaves, as `resum` adds them
  abbrev pub block_sum : ℕ → ℕ → List F.F64 → F.F64
  block_sum size b leaves = sum_from F (nothing F) (window (b * size) size leaves)

  -- The leaves that are added after others
  add_leaves_lem :
      (size : ℕ) (leaves pre blocks : List F.F64)
      → 0 < size
      → length pre + length leaves ≤ length blocks * size
      → ((b : ℕ) → get_or blocks b (nothing F) ≡ block_sum size b pre)
      → ((b : ℕ)
          → get_or (add_leaves F size (length pre) leaves blocks) b (nothing F)
            ≡ block_sum size b (pre ++ leaves))
        × (length (add_leaves F size (length pre) leaves blocks) ≡ length blocks)
  add_leaves_lem size [] pre blocks pos room so_far =
      ((λ b. so_far b ∙ ap (block_sum size b) (sym (append-nil pre))), refl)
  add_leaves_lem size (leaf ∷ leaves) pre blocks pos room so_far =
      let k = length pre / size in
      let summed = F.add (get_or blocks k (nothing F)) leaf in
      let added = set blocks k summed in
      let inside = block_inside (length pre) size (length blocks) pos (omega (arith, room)) in
      let wide : length added ≡ length blocks = length-set blocks k summed in
      let next : length (pre ++ leaf ∷ []) ≡ suc (length pre) =
        omega (arith, length-append pre (leaf ∷ [])) in
      let (low, high) = block_bounds (length pre) size pos in
      let now : (b : ℕ) → get_or added b (nothing F) ≡ block_sum size b (pre ++ leaf ∷ []) = λ b.
        elim (ℕ_discrete b k) [
          | yes here ↦ rw here (
              get_or-set_self blocks k summed (nothing F) inside
              ∙ ap (λ n. F.add n leaf) (so_far k)
              ∙ sym (sum_from-append (nothing F) leaf (window (k * size) size pre))
              ∙ ap (sum_from F (nothing F))
                  (sym (window-append_in (k * size) size pre leaf low high)))
          | no apart ↦
              get_or-set_ne blocks k b summed (nothing F) (λ e. apart (sym e))
              ∙ so_far b
              ∙ ap (sum_from F (nothing F)) (sym (window-append_apart b size pre leaf pos apart))
        ] in
      let (each, long) =
        add_leaves_lem size leaves (pre ++ leaf ∷ []) added pos
          (omega (arith, room, next, ap (λ n. n * size) wide)) now in
      let step : add_leaves F size (length (pre ++ leaf ∷ [])) leaves added
          ≡ add_leaves F size (suc (length pre)) leaves added =
        ap (λ n. add_leaves F size n leaves added) next in
      (
        (λ b.
            sym (ap (λ r. get_or r b (nothing F)) step)
            ∙ each b
            ∙ ap (block_sum size b) (append_assoc pre (leaf ∷ []) leaves)),
        omega (arith, long, wide, ap length step),
      )

  abbrev blank : List F.F64 → List F.F64
  blank blocks = map (λ sum. nothing F) blocks

  zeros : (blocks : List F.F64) (b : ℕ) → get_or (blank blocks) b (nothing F) ≡ nothing F
  zeros [] b = refl
  zeros (x ∷ blocks) zero = refl
  zeros (x ∷ blocks) (suc b) = zeros blocks b

  length-zeros : (blocks : List F.F64) → length (blank blocks) ≡ length blocks
  length-zeros [] = refl
  length-zeros (x ∷ blocks) = ap suc (length-zeros blocks)

  -- Whatever the block sums and the total of a valid table are, `resum` makes each block the sum of
  -- its own leaves, added to zero in their order, and the total the sum of the blocks; it keeps the
  -- leaves, the number of blocks and the free slots, puts the counters to 0, and leaves the table
  -- valid.
  pub resum-IsValid :
      (t : BlockSumTable F)
      → IsValid F t
      → IsValid F (resum F t)
        × ((b : ℕ)
            → b < length t.blocks
            → get_elem? (resum F t).blocks b ≡ some (block_sum t.block_size b t.leaves))
        × (length (resum F t).blocks ≡ length t.blocks)
        × ((resum F t).total_sum ≡ sum_from F (nothing F) (resum F t).blocks)
        × ((resum F t).leaves ≡ t.leaves)
        × ((resum F t).free_slots ≡ t.free_slots)
        × ((resum F t).requests ≡ 0)
        × ((resum F t).fall_through ≡ 0)
  unfolding resum
  resum-IsValid t v =
      let cleared = blank t.blocks in
      let wide = length-zeros t.blocks in
      let (each, long) =
        add_leaves_lem t.block_size t.leaves [] cleared v.sized
          (omega (arith, v.covered, ap (λ n. n * t.block_size) wide))
          (λ b.
            zeros t.blocks b
            ∙ ap (sum_from F (nothing F))
                (sym (window_past (b * t.block_size) t.block_size [] (omega arith)))) in
      (
        record {
          sized = v.sized;
          covered =
              omega (
                arith,
                v.covered,
                ap (λ n. n * t.block_size) long,
                ap (λ n. n * t.block_size) wide,
              );
          filled = λ b l. v.filled b (omega (arith, l, long, wide));
          free = v.free;
          freed_once = v.freed_once;
        },
        (λ b l.
            get_elem?_in_range _ b (nothing F) (omega (arith, l, long, wide)) ∙ ap some (each b)),
        long ∙ wide,
        refl,
        refl,
        refl,
        refl,
        refl,
      )
