-- ===== src/Engine/Weighted.antt =====
-- crates/lsf-engine/src/schedule.rs: the schedulers that draw entries by weights. The distribution
-- is that of the `rand` crate; the corpus is behind `ids`, `size` and `get`.
pub mod Draws
pub mod Credits
use ast_sqlite_test.Common.{
  ℕ, zero, suc, ◌+◌, ◌*◌, ◌/◌, ◌%◌, ◌≡◌, ◌<◌, Bool, true, false, ◌||◌, List, [], ◌∷◌, ◌++◌, Option,
  none, some, ltb, ◌==◌, ◌>>=◌, length, get_elem?, if◌then◌else◌, replicate, map,
}
use ast_sqlite_test.Common.Assoc.{Assoc, lookup}
use ast_sqlite_test.Core.Entry.{EntryId, Meta, RawEntry, CorpusEntry}
use ast_sqlite_test.Feedback.Outcome.{TestableEntry, Handle, attach_hook}
use ast_sqlite_test.Feedback.Outcome as Outcome
use ast_sqlite_test.Mutate.Strategy.{Host, World}

-- `WeightedIndex`: built of weights that have a positive sum, it samples an index of one of them.
pub record WeightedIndex (F64 G : Type 0) : Type 1 where
  pub Index : Type 0
  pub new : List F64 → Option Index
  pub sample : Index → G → ℕ × G
  pub in_range :
      (weights : List F64) (d : Index) (g : G)
      → new weights ≡ some d
      → (sample d g).0 < length weights

-- A corpus that answers an id of its list with the entry of that id, and keeps its list then.
pub record Listed (A : Type 0) : Type 1 where
  pub Corpus : Type 0
  pub ids : Corpus → List EntryId
  pub size : Corpus → ℕ
  pub get : EntryId → Corpus → Corpus × Option (CorpusEntry A)

abbrev pub granularity : ℕ
granularity = 50

module _ (H : Host) (half : H.F64) where
  unfoldable pub calculate_weight : Meta → H.F64
  calculate_weight meta =
      let weight = H.add (H.of_nat 1) (H.mul (H.of_nat meta.new_cov_nodes) (H.of_nat 20)) in
      let exec_time_us = meta.exec_time / 1000 in
      H.mul weight (
        if ltb exec_time_us 10
        then H.of_nat 2
        else if ltb exec_time_us 1000
        then H.of_nat 1
        else half)

  module _ (D : WeightedIndex H.F64 H.Generator) where
    -- The distribution over the weights, or an even one; `none` is the panic of `unwrap`.
    unfoldable pub distribution : List H.F64 → Option D.Index
    distribution weights = elim (D.new weights) [
      | some dist ↦ some dist
      | none ↦ D.new (replicate (length weights) (H.of_nat 1))
    ]

    module _ {A : Type 0} (K : Listed A) where
      -- The ids that the corpus has, with their weights
      unfoldable pub weigh_ids : List EntryId → K.Corpus → List EntryId × List H.F64 × K.Corpus
      weigh_ids [] corpus = ([], [], corpus)
      weigh_ids (id ∷ ids) corpus =
          let (corpus', found) = K.get id corpus in
          let (ids', weights, corpus'') = weigh_ids ids corpus' in
          elim found [
            | none ↦ (ids', weights, corpus'')
            | some entry ↦ (id ∷ ids', calculate_weight entry.meta ∷ weights, corpus'')
          ]

      -- So many samples; an id that the corpus has not is left out.
      unfoldable pub sample_ids :
          ℕ
          → D.Index
          → List EntryId
          → K.Corpus
          → World H
          → Option (List (TestableEntry (RawEntry A)) × K.Corpus × World H)
      sample_ids zero dist ids corpus w = some ([], corpus, w)
      sample_ids (suc n) dist ids corpus w =
          let (idx, rng) = D.sample dist w.rng in
          get_elem? ids idx >>= λ id.
          let (corpus', found) = K.get id corpus in
          sample_ids n dist ids corpus' (record w { rng = rng }) >>= λ r. elim found [
            | none ↦ some r
            | some entry ↦ some (Outcome.new entry.raw ∷ r.0, r.1, r.2)
          ]

      -- `WeightedRandomScheduler`
      unfoldable pub next_batch :
          ℕ → K.Corpus → World H → Option (List (TestableEntry (RawEntry A)) × K.Corpus × World H)
      next_batch size corpus w =
          let (ids, weights, corpus') = weigh_ids (K.ids corpus) corpus in
          if K.size corpus == 0
          then some ([], corpus, w)
          else (distribution weights >>= λ dist. sample_ids size dist ids corpus' w)

      pub record AdaptiveWeightedRandomScheduler : Type 0 where
        pub stat_mapping : List (EntryId × Handle)
        pub dist : Option D.Index

      -- The arms of the ids and their scores. An arm is made for each id, and kept for a new one.
      unfoldable pub score_ids :
          (H.F64 → Bool)
          → List EntryId
          → List (EntryId × Handle)
          → H.Heap
          → List H.F64 × List (EntryId × Handle) × H.Heap
      score_ids is_infinite [] mapping heap = ([], mapping, heap)
      score_ids is_infinite (id ∷ ids) mapping heap =
          let (heap₁, fresh) = H.new_arm heap in
          let (arm, mapping') : Handle × List (EntryId × Handle) = elim (lookup id mapping) [
            | some arm ↦ (arm, mapping)
            | none ↦ (fresh, mapping ++ (id, fresh) ∷ [])
          ] in
          let (heap₂, score) = H.calculate_score arm heap₁ in
          let (scores, mapping'', heap₃) = score_ids is_infinite ids mapping' heap₂ in
          ((if is_infinite score then half else score) ∷ scores, mapping'', heap₃)

      -- So many samples of the mapping's places
      unfoldable pub sample_arms :
          ℕ
          → D.Index
          → List (EntryId × Handle)
          → K.Corpus
          → World H
          → List (TestableEntry (RawEntry A)) × K.Corpus × World H
      sample_arms zero dist mapping corpus w = ([], corpus, w)
      sample_arms (suc n) dist mapping corpus w =
          let (idx, rng) = D.sample dist w.rng in
          let w' : World H = record w { rng = rng } in
          elim (get_elem? mapping idx) [
            | none ↦ sample_arms n dist mapping corpus w'
            | some (id, arm) ↦
                let (corpus', found) = K.get id corpus in
                let (rest, corpus'', w'') = sample_arms n dist mapping corpus' w' in
                elim found [
                  | none ↦ (rest, corpus'', w'')
                  | some entry ↦ (attach_hook arm (Outcome.new entry.raw) ∷ rest, corpus'', w'')
                ]
          ]

      -- The weights are computed when there are none, and in every so many epochs.
      unfoldable pub refresh :
          (H.F64 → Bool)
          → AdaptiveWeightedRandomScheduler
          → K.Corpus
          → World H
          → Option (D.Index × AdaptiveWeightedRandomScheduler × World H)
      refresh is_infinite s corpus w =
          let (weights, mapping, heap) =
            score_ids is_infinite (K.ids corpus) s.stat_mapping w.heap in
          let renewed : Option (D.Index × AdaptiveWeightedRandomScheduler × World H) =
            distribution weights >>= λ dist.
            some (
              dist,
              record { stat_mapping = mapping; dist = some dist },
              record w { heap = heap },
            ) in
          elim (s.dist) [
            | none ↦ renewed
            | some dist ↦ if H.epoch w.heap % granularity == 0 then renewed else some (dist, s, w)
          ]

      unfoldable pub adaptive_next_batch :
          (H.F64 → Bool)
          → ℕ
          → AdaptiveWeightedRandomScheduler
          → K.Corpus
          → World H
          → Option (
              List (TestableEntry (RawEntry A))
              × AdaptiveWeightedRandomScheduler
              × K.Corpus
              × World H)
      adaptive_next_batch is_infinite size s corpus w =
          if K.size corpus == 0
          then some ([], s, corpus, w)
          else (refresh is_infinite s corpus w >>= λ r.
              let (parents, corpus', w') = sample_arms size r.0 r.1.stat_mapping corpus r.2 in
              some (parents, r.1, corpus', w'))

      unfoldable pub adaptive_reset :
          AdaptiveWeightedRandomScheduler → AdaptiveWeightedRandomScheduler
      adaptive_reset s = record { stat_mapping = []; dist = none }
