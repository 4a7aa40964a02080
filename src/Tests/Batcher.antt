-- ===== src/Tests/Batcher.antt =====
-- Entries are numbers; the inner scheduler hands out two of them; the generator draws the first.
use ast_sqlite_test.Common.{
  ℕ, ◌<◌, ◌≡◌, refl, Bool, true, List, [], ◌∷◌, Option, some, ltb, length, all, arith,
}
use ast_sqlite_test.Engine.Batcher.{Lent, next_batch}
use ast_sqlite_test.Engine.Batcher.Energy.{usable, next_batch_full}

abbrev inner_batch : ℕ → ℕ → ℕ → ℕ → List ℕ × ℕ × ℕ × ℕ
inner_batch c n r s = (7 ∷ 8 ∷ [], c, r, s)

abbrev one_digit : ℕ → Option ℕ
one_digit e = some 1

abbrev draw_low : ℕ → ℕ → ℕ → ℕ × ℕ
draw_low low high r = (low, r)

abbrev small : ℕ → Bool
small e = ltb e 10

abbrev two_left : Lent inner_batch one_digit draw_low
two_left = record {
  batcher = record { inner_scheduler = 0; batch = (1, 1) ∷ (2, 3) ∷ [] };
  corpus = 0;
  rng = 0;
}

one_digit_lem : (e n : ℕ) → one_digit e ≡ some n → 0 < n
one_digit_lem e n h = ground (arith, h)

next_batch_full_example :
    (entries : List ℕ) × (last : Lent inner_batch one_digit draw_low) × (next_batch inner_batch
        one_digit draw_low 6 two_left
      ≡ some (entries, last))
    × (length entries ≡ 6)
    × (all small entries ≡ true)
    × (all (usable small) last.batcher.batch ≡ true)
next_batch_full_example =
    next_batch_full inner_batch one_digit draw_low small (λ low high r h. (omega arith, h))
      (λ c n r s h. (omega arith, refl)) one_digit_lem 6 two_left refl
