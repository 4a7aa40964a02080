-- ===== src/Tests/Core.antt =====
-- Ids at the wrap of the counter.
use ast_sqlite_test.Common.{ℕ, List, [], ◌∷◌}

abbrev three_trees : List ℕ
three_trees = 10 ∷ 11 ∷ 12 ∷ []
