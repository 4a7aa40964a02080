-- ===== src/Engine/Weighted/Draws.antt =====
-- What the samples are: entries that the corpus lists, and as many as wanted.
use ast_sqlite_test.Common.{
  ℕ, zero, suc, ◌≡◌, ◌<◌, refl, ◌∙◌, ap, true, List, [], ◌∷◌, some, ◌==◌, length, get_elem?,
  if◌then◌else◌, replicate, arith, Bool-cases, Option-cases, inl, inr, length-replicate, all,
}
use ast_sqlite_test.Common.Assoc.{mem}
use ast_sqlite_test.Core.Entry.{EntryId, RawEntry, CorpusEntry}
use ast_sqlite_test.Feedback.Outcome.{TestableEntry, Handle, attach_hook}
use ast_sqlite_test.Feedback.Outcome as Outcome
use ast_sqlite_test.Mutate.Strategy.{Host, World}
use ast_sqlite_test.Engine.Heap.Items.{ids_of}
use ast_sqlite_test.Engine.Weighted.{
  WeightedIndex, Listed, distribution, weigh_ids, sample_ids, next_batch,
}

get_elem?-mem :
    (xs : List ℕ) (i : ℕ) → i < length xs → (x : ℕ) × (get_elem? xs i ≡ some x) × (mem x xs ≡ true)
get_elem?-mem [] i h = absurd (omega (arith, h))
get_elem?-mem (x ∷ xs) zero h = (x, refl, ground arith)
get_elem?-mem (x ∷ xs) (suc i) h =
    let (y, at, there) = get_elem?-mem xs i (omega (arith, h)) in (y, at, ground (arith, there))

-- The ids of one list are among those of another one.
abbrev pub Among : List EntryId → List EntryId → Type 0
Among xs ys = (id : EntryId) → mem id xs ≡ true → mem id ys ≡ true

all-Among : (xs ys : List EntryId) → Among xs ys → all (λ id. mem id ys) xs ≡ true
all-Among [] ys h = refl
all-Among (x ∷ xs) ys h =
    ground (arith, h x (ground arith), all-Among xs ys (λ id m. h id (ground (arith, m))))

module _ (H : Host) (half : H.F64) (D : WeightedIndex H.F64 H.Generator)
    (even : (n : ℕ) → (d : D.Index) × (D.new (replicate (suc n) (H.of_nat 1)) ≡ some d)) where
  pub distribution_lem :
      (weights : List H.F64)
      → 0 < length weights
      → (d : D.Index) × (distribution H half D weights ≡ some d)
        × ((g : H.Generator) → (D.sample d g).0 < length weights)
  unfolding distribution
  distribution_lem [] h = absurd (omega (arith, h))
  distribution_lem (x ∷ weights) h = elim (Option-cases (D.new (x ∷ weights))) [
    | inr (d, made) ↦ (d, rw (made, distribution) refl, λ g. D.in_range (x ∷ weights) d g made)
    | inl gone ↦
        let (d, made) = even (length weights) in
        (
          d,
          rw (gone, distribution) made,
          λ g. omega (
            arith,
            D.in_range (replicate (suc (length weights)) (H.of_nat 1)) d g made,
            length-replicate (suc (length weights)) (H.of_nat 1),
          ),
        )
  ]

  module _ {A : Type 0} (K : Listed A)
      (kept : (id : EntryId) (c : K.Corpus) → K.ids (K.get id c).0 ≡ K.ids c)
      (counted : (c : K.Corpus) → K.size c ≡ length (K.ids c))
      (found : (id : EntryId) (c : K.Corpus)
        → mem id (K.ids c) ≡ true
        → (e : CorpusEntry A) × ((K.get id c).1 ≡ some e) × (e.raw.id ≡ id)) where
    weigh_ids_lem :
        (xs : List EntryId) (c : K.Corpus)
        → Among xs (K.ids c)
        → ((weigh_ids H half D K xs c).0 ≡ xs)
          × (length (weigh_ids H half D K xs c).1 ≡ length xs)
          × (K.ids (weigh_ids H half D K xs c).2 ≡ K.ids c)
    unfolding weigh_ids
    weigh_ids_lem [] c all = (refl, refl, refl)
    weigh_ids_lem (x ∷ xs) c all =
        let c' = (K.get x c).0 in
        let (e, here, own) = found x c (all x (ground arith)) in
        let (same, long, rest) =
          weigh_ids_lem xs c' (λ id m. rw (kept x c) (all id (ground (arith, m)))) in
        (
          rw (here, weigh_ids) (ap (λ r. x ∷ r) same),
          rw (here, weigh_ids) (ap suc long),
          rw (here, weigh_ids) (rest ∙ kept x c),
        )

    sample_ids_total :
        (n : ℕ) (d : D.Index) (ids : List EntryId) (c : K.Corpus) (w : World H)
        → ((g : H.Generator) → (D.sample d g).0 < length ids)
        → Among ids (K.ids c)
        → (parents : List (TestableEntry (RawEntry A))) × (c' : K.Corpus) × (w' : World H)
          × (sample_ids H half D K n d ids c w ≡ some (parents, c', w'))
          × (length parents ≡ n)
          × Among (ids_of parents) ids
    unfolding sample_ids Outcome.new
    sample_ids_total zero d ids c w range all = ([], c, w, refl, refl, λ id m. ground (arith, m))
    sample_ids_total (suc n) d ids c w range all =
        let (idx, rng) = D.sample d w.rng in
        let (x, at, listed) = get_elem?-mem ids idx (range w.rng) in
        let (e, here, own) = found x c (all x listed) in
        let (parents, c', w', run, long, among) =
          sample_ids_total n d ids (K.get x c).0 (record w { rng = rng }) range
            (λ id m. rw (kept x c) (all id m)) in
        (
          Outcome.new (e.raw) ∷ parents,
          c',
          w',
          rw (at, sample_ids) (rw (run, sample_ids) (rw (here, sample_ids) refl)),
          ap suc long,
          λ id m. elim (Bool-cases (x == id)) [
            | inl t ↦ ground (arith, listed, t)
            | inr f ↦ among id (ground (arith, m, own, f))
          ],
        )

    -- Over a corpus that answers each id of its list with the entry of that id, and keeps its list and
    -- its size then, and a distribution over even weights that exists where there is one: the batch is
    -- drawn without a panic, is as long as wanted, or empty where the corpus is, and all its entries
    -- are listed.
    pub next_batch_listed :
        (size : ℕ) (c : K.Corpus) (w : World H)
        → (parents : List (TestableEntry (RawEntry A))) × (c' : K.Corpus) × (w' : World H)
          × (next_batch H half D K size c w ≡ some (parents, c', w'))
          × (length parents ≡ (if K.size c == 0 then 0 else size))
          × (all (λ id. mem id (K.ids c)) (ids_of parents) ≡ true)
    unfolding next_batch
    next_batch_listed size c w = elim (Bool-cases (K.size c == 0)) [
      | inl none_left ↦ ([], c, w, rw (none_left, next_batch) refl, rw none_left refl, refl)
      | inr some_left ↦
          let (same, long, rest) = weigh_ids_lem (K.ids c) c (λ id m. m) in
          let (d, made, range) =
            distribution_lem (weigh_ids H half D K (K.ids c) c).1
              (ground (arith, long, some_left, counted c)) in
          let (parents, c', w', run, size_is, among) =
            sample_ids_total size d (weigh_ids H half D K (K.ids c) c).0
              (weigh_ids H half D K (K.ids c) c).2 w
              (λ g. omega (arith, range g, long, ap length same))
              (λ id m. rw rest (rw (← same) m)) in
          (
            parents,
            c',
            w',
            rw (some_left, next_batch) (rw (made, next_batch) run),
            rw some_left size_is,
            all-Among (ids_of parents) (K.ids c) (λ id m. rw (← same) (among id m)),
          )
    ]
