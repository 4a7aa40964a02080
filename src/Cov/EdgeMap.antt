-- ===== src/Cov/EdgeMap.antt =====
-- crates/lsf-cov/src/bitmap.rs, `EdgeMap`: one byte for each edge of the instrumented program.
-- A loop body at an index of the slice is `visit`; the eight-byte words of `chunks_exact(8)` are
-- read in place, word `k` being the slice from `8 * k` to `8 * k + 8`.
pub mod Bytewise
pub mod Coverage
use ast_sqlite_test.Common.{
  ℕ, zero, suc, ◌+◌, ◌-◌, ◌*◌, ◌/◌, ◌^◌, min, Bool, true, false, List, [], ◌∷◌, ◌++◌, Option, none,
  some, ltb, ◌==◌, if◌then◌else◌, ◌>>=◌, length, get_elem?, get_or, set, replicate, for_range,
}

pub record EdgesFound : Type 0 where
  pub new : List ℕ
  pub all : List ℕ

pub record EdgeMap : Type 0 where
  pub raw_map : List ℕ
  pub total_found : ℕ

abbrev pub empty_map : ℕ → EdgeMap
empty_map max_edges = record { raw_map = replicate max_edges 0; total_found = 0 }

-- The map while it is updated, with the two vectors that the loops push to.
pub record Scan : Type 0 where
  pub raw_map : List ℕ
  pub new : List ℕ
  pub all : List ℕ

-- The body of the inner loops, where the other map's byte is not 0.
unfoldable pub mark : ℕ → Scan → Scan
mark i s =
    if get_or s.raw_map i 0 == 0
    then record { raw_map = set s.raw_map i 1; new = s.new ++ i ∷ []; all = s.all ++ i ∷ [] }
    else record s { all = s.all ++ i ∷ [] }

unfoldable pub visit : List ℕ → ℕ → Scan → Scan
visit theirs i s = if ltb 0 (get_or theirs i 0) then mark i s else s

-- `u64::from_ne_bytes` of the word, on a little-endian machine
unfoldable pub from_ne_bytes : List ℕ → ℕ → ℕ
from_ne_bytes theirs k = for_range 0 8 (λ j acc. acc + get_or theirs (k * 8 + j) 0 * 2 ^ (8 * j)) 0

unfoldable pub visit_word : List ℕ → ℕ → Scan → Scan
visit_word theirs k s =
    if from_ne_bytes theirs k == 0 then s else for_range (k * 8) 8 (visit theirs) s

-- The bytes after the last whole word. `other.raw_view[i]` panics out of range.
unfoldable pub visit_tail : List ℕ → ℕ → ℕ → Scan → Option Scan
visit_tail theirs start zero s = some s
visit_tail theirs start (suc n) s = elim (get_elem? theirs start) [
  | none ↦ none
  | some b ↦ visit_tail theirs (suc start) n (visit theirs start s)
]

-- `update`, as the release build runs it: `debug_assert_eq!` is not compiled in.
unfoldable pub update : EdgeMap → List ℕ → Option (EdgeMap × EdgesFound)
update m theirs =
    let n = length m.raw_map in
    let start : Scan = record { raw_map = m.raw_map; new = []; all = [] } in
    let words = for_range 0 (min (length theirs / 8) (n / 8)) (visit_word theirs) start in
    visit_tail theirs (n / 8 * 8) (n - n / 8 * 8) words >>= λ s. some (
      record { raw_map = s.raw_map; total_found = m.total_found + length s.new },
      record { new = s.new; all = s.all },
    )
