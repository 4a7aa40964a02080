-- ===== src/Engine/Diversity.antt =====
-- crates/lsf-engine/src/minimizer.rs, `DiversityEscape`: a window of the similarity hashes of the
-- last entries that were unlike all others in the window. An `i32` weight is kept as a number
-- biased by 2 ^ 31. `hash_feature` is the hash of one statement by `rustc_hash::FxHasher`.
pub mod Window
use ast_sqlite_test.Common.{
  ℕ, zero, suc, ◌+◌, ◌-◌, ◌*◌, ◌/◌, ◌%◌, ◌^◌, min, bit_or, bit_xor, Bool, true, false, List, [],
  ◌∷◌, ◌++◌, ltb, leb, ◌==◌, if◌then◌else◌, length, replicate, any, for_range,
}
use ast_sqlite_test.Core.Entry.{EntryId}

abbrev pub max_diversity_window : ℕ
max_diversity_window = 2048

abbrev pub min_dist : ℕ
min_dist = 20

-- `(hash >> i) & 1`
unfoldable pub bit : ℕ → ℕ → ℕ
bit x i = x / 2 ^ i % 2

-- `(x ^ y).count_ones()` of two 64-bit words
unfoldable pub hamming_distance : ℕ → ℕ → ℕ
unfolding bit
hamming_distance x y = for_range 0 64 (λ i n. n + bit (bit_xor x y) i) 0

abbrev pub zero_weight : ℕ
zero_weight = 2 ^ 31

unfoldable pub weigh : ℕ → ℕ → ℕ
weigh one weight = if one == 1 then min (weight + 1) (2 ^ 32 - 1) else weight - 1

unfoldable pub weigh_all : ℕ → ℕ → List ℕ → List ℕ
weigh_all hash i [] = []
weigh_all hash i (w ∷ ws) = weigh (bit hash i) w ∷ weigh_all hash (suc i) ws

unfoldable pub signs : ℕ → List ℕ → ℕ → ℕ
signs i [] simhash = simhash
signs i (w ∷ ws) simhash =
    signs (suc i) ws (if ltb zero_weight w then bit_or simhash (2 ^ i) else simhash)

pub record DiversityEscape : Type 0 where
  pub hashes : List ℕ
  pub entries : List EntryId

unfoldable pub new : DiversityEscape
new = record { hashes = []; entries = [] }

-- `pop_front`
unfoldable pub pop_front {ℓ} : {A : Type ℓ} → List A → List A
pop_front [] = []
pop_front (x ∷ xs) = xs

unfoldable pub try_insert_hash : DiversityEscape → EntryId → ℕ → DiversityEscape × Bool
try_insert_hash d id ast_hash =
    let is_too_similar = any (λ h. ltb (hamming_distance h ast_hash) min_dist) d.hashes in
    if is_too_similar
    then (d, false)
    else (let full = leb max_diversity_window (length d.hashes) in
        let hashes = if full then pop_front d.hashes else d.hashes in
        let entries = if full then pop_front d.entries else d.entries in
        (record { hashes = hashes ++ ast_hash ∷ []; entries = entries ++ id ∷ [] }, true))

module _ {Stmt : Type 0} (hash_feature : Stmt → ℕ) where
  unfoldable pub weights : List Stmt → List ℕ → List ℕ
  weights [] v = v
  weights (s ∷ ss) v = weights ss (weigh_all (hash_feature s) 0 v)

  unfoldable pub simhash_stream : List Stmt → ℕ
  simhash_stream words = signs 0 (weights words (replicate 64 zero_weight)) 0

  unfoldable pub try_insert : DiversityEscape → EntryId → List Stmt → DiversityEscape × Bool
  unfolding try_insert_hash
  try_insert d id ast = try_insert_hash d id (simhash_stream ast)
