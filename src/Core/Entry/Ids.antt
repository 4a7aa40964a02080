-- ===== src/Core/Entry/Ids.antt =====
-- Ids name entries: a run that makes at most 2 ^ 32 of them makes each once.
use ast_sqlite_test.Common.{
  ℕ, zero, suc, ◌+◌, ◌%◌, ◌≤◌, ◌<◌, ◌≡◌, ◌≢◌, List, [], ◌∷◌, length, get_or, arith,
}
use ast_sqlite_test.Core.Entry.{EntryId, u32_mod, next, RawEntry, new}

module _ {A : Type 0} where
  -- The entries that a call of `RawEntry::new` for each tree makes, and the counter after them.
  pub entries : List A → ℕ → List (RawEntry A) × ℕ
  entries [] c = ([], c)
  entries (a ∷ rest) c =
      let (e, c') = new a [] c in let (es, c'') = entries rest c' in (e ∷ es, c'')

  pub ids : List (RawEntry A) → List EntryId
  ids [] = []
  ids (e ∷ es) = e.id ∷ ids es

  get_or-ids :
      (asts : List A) (c i : ℕ)
      → c < u32_mod
      → i < length asts
      → get_or (ids (entries asts c).0) i 0 ≡ (c + i) % u32_mod
  unfolding ids entries new next
  get_or-ids [] c i h l = elim l [ ]
  get_or-ids (a ∷ rest) c zero h l = omega arith
  get_or-ids (a ∷ rest) c (suc i) h l =
      omega (arith, get_or-ids rest ((c + 1) % u32_mod) i (omega arith) (omega arith))

  -- The counter wraps, and still no two of up to 2 ^ 32 entries made one after the other have
  -- the same id.
  pub ids_distinct :
      (asts : List A) (c i j : ℕ)
      → c < u32_mod
      → length asts ≤ u32_mod
      → i < j
      → j < length asts
      → get_or (ids (entries asts c).0) i 0 ≢ get_or (ids (entries asts c).0) j 0
  ids_distinct asts c i j h few ij l =
      omega (arith, get_or-ids asts c i h (omega arith), get_or-ids asts c j h l)
