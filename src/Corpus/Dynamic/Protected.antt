-- ===== src/Corpus/Dynamic/Protected.antt =====
-- crates/lsf-engine/src/dynamic_corpus.rs, `DynamicCorpus::protected_ids`: the entries in flight,
-- and of the others those with the highest scores, as many as make up the ratio. A hash set is a
-- list in which no id stands twice; which of two entries with one score is taken is left to the
-- selection, here an insertion sort.
pub mod Highest
use ast_sqlite_test.Common.{
  ℕ, suc, ◌+◌, ◌-◌, ◌*◌, ◌/◌, ◌≤◌, ◌<◌, ◌≡◌, refl, max, Bool, true, ◌||◌, List, [], ◌∷◌, ltb, ◌==◌,
  if◌then◌else◌, length, drop, length-drop, arith, Bool-cases, inl, inr,
}
use ast_sqlite_test.Common.Assoc.{Assoc, mem, distinct, keys}
use ast_sqlite_test.Core.Entry.{EntryId}
use ast_sqlite_test.Corpus.Containers.{IndexMap, ScoreQueue}
use ast_sqlite_test.Corpus.Storage.{StorageBackend}
use ast_sqlite_test.Corpus.Dynamic.{EntryData, DynamicCorpus, size}

-- `extend` of a set
unfoldable pub extend : List EntryId → List EntryId → List EntryId
extend ids [] = ids
extend ids (id ∷ more) = let rest = extend ids more in if mem id rest then rest else id ∷ rest

pub extend_lem :
    (ids more : List EntryId)
    → distinct ids ≡ true
    → (distinct (extend ids more) ≡ true)
      × (length (extend ids more) ≤ length ids + length more)
      × ((id : EntryId) → mem id (extend ids more) ≡ mem id ids || mem id more)
unfolding extend
extend_lem ids [] d = (d, omega arith, λ id. ground arith)
extend_lem ids (id ∷ more) d =
    let (once, bound, there) = extend_lem ids more d in
    elim (Bool-cases (mem id (extend ids more))) [
      | inl e ↦ rw e (
        once,
        omega (arith, bound),
        λ j. elim (Bool-cases (id == j)) [
          | inl same ↦ let p : id ≡ j = ground (arith, same) in ground (arith, there j, e, p)
          | inr ne ↦ ground (arith, there j, ne)
        ],
      )
      | inr ne ↦
          rw ne (ground (arith, once, ne), omega (arith, bound), λ j. ground (arith, there j))
    ]

module _ {A Score : Type 0} {below : Score → Score → Bool} (M : IndexMap A)
    (Q : ScoreQueue Score below) (D : StorageBackend A) where
  -- `select_nth_unstable_by`: what stands after the n-th lowest score is no lower.
  unfoldable pub place :
      EntryId × EntryData Score → Assoc (EntryData Score) → Assoc (EntryData Score)
  place e [] = e ∷ []
  place e (e' ∷ index) =
      let rest = place e index in if below e'.1.score e.1.score then e' ∷ rest else e ∷ e' ∷ index

  unfoldable pub by_score : Assoc (EntryData Score) → Assoc (EntryData Score)
  by_score [] = []
  by_score (e ∷ index) = place e (by_score index)

  -- `PROTECTED_RATIO` is 15 / 100.
  unfoldable pub protected_target : DynamicCorpus M Q D → ℕ
  protected_target c = size M Q D c * 15 / 100 - length (M.entries c.flying)

  unfoldable pub protected_ids : DynamicCorpus M Q D → List EntryId
  protected_ids c =
      let target = protected_target c in
      let index_len = length c.index in
      let protected = keys (M.entries c.flying) in
      if target == 0
      then protected
      else if ltb target index_len
      then extend protected (keys (drop (index_len - target) (by_score c.index)))
      else extend protected (keys c.index)

  length-place :
      (e : EntryId × EntryData Score) (index : Assoc (EntryData Score))
      → length (place e index) ≡ suc (length index)
  unfolding place
  length-place e [] = refl
  length-place e (e' ∷ index) = ground (arith, length-place e index)

  length-by_score : (index : Assoc (EntryData Score)) → length (by_score index) ≡ length index
  unfolding by_score
  length-by_score [] = refl
  length-by_score (e ∷ index) =
      omega (arith, length-by_score index, length-place e (by_score index))

length-keys : {V : Type 0} (m : Assoc V) → length (keys m) ≡ length m
length-keys [] = refl
length-keys (e ∷ m) = ground (arith, length-keys m)

module _ {A Score : Type 0} {below : Score → Score → Bool} (M : IndexMap A)
    (Q : ScoreQueue Score below) (D : StorageBackend A) (c : DynamicCorpus M Q D) where
  -- The protected ids are a set that holds every entry in flight, and it is no larger than the
  -- entries in flight or fifteen in a hundred of the corpus, whichever are more.
  pub protected_ids_bounded :
      (distinct (protected_ids M Q D c) ≡ true)
      × (length (protected_ids M Q D c)
          ≤ max (length (M.entries c.flying)) (size M Q D c * 15 / 100))
      × ((id : EntryId)
          → mem id (keys (M.entries c.flying)) ≡ true
          → mem id (protected_ids M Q D c) ≡ true)
  unfolding protected_ids protected_target
  protected_ids_bounded =
      let flying = keys (M.entries c.flying) in
      let target = protected_target M Q D c in
      let once = M.distinct_keys c.flying in
      let many = length-keys (M.entries c.flying) in
      elim (Bool-cases (target == 0)) [
        | inl e ↦ rw e (once, omega (arith, many), λ id h. h)
        | inr some_left ↦ elim (Bool-cases (ltb target (length c.index))) [
          | inl e ↦
              let top = drop (length c.index - target) (by_score M Q D c.index) in
              let (d, l, m) = extend_lem flying (keys top) once in
              let over : 0 < target = ground (arith, some_left) in
              rw (some_left, e)
                (
                  d,
                  omega (
                    arith,
                    l,
                    many,
                    over,
                    length-keys top,
                    length-by_score M Q D c.index,
                    length-drop (length c.index - target) (by_score M Q D c.index),
                  ),
                  λ id h. ground (arith, m id, h),
                )
          | inr e ↦
              let (d, l, m) = extend_lem flying (keys c.index) once in
              let over : 0 < target = ground (arith, some_left) in
              let short : length c.index ≤ target = ground (arith, e) in
              rw (some_left, e)
                (
                  d,
                  omega (arith, l, many, length-keys c.index, short, over),
                  λ id h. ground (arith, m id, h),
                )
        ]
      ]
