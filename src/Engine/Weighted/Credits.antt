-- ===== src/Engine/Weighted/Credits.antt =====
-- What the adaptive scheduler hands out carries the arm that the mapping has for it.
use ast_sqlite_test.Common.{
  ℕ, zero, suc, ◌%◌, ◌≡◌, ◌⊎◌, ◌<◌, ◌≤◌, refl, ap, Bool, List, [], ◌∷◌, ◌++◌, Option, none, some,
  ◌==◌, length, get_elem?, replicate, arith, Bool-cases, Option-cases, inl, inr,
}
use ast_sqlite_test.Common.Assoc.{lookup, Assoc}
use ast_sqlite_test.Core.Entry.{EntryId, RawEntry, CorpusEntry}
use ast_sqlite_test.Feedback.Outcome.{TestableEntry, Handle, attach_hook}
use ast_sqlite_test.Feedback.Outcome as Outcome
use ast_sqlite_test.Mutate.Strategy.{Host, World}
use ast_sqlite_test.Engine.Weighted.{
  WeightedIndex, Listed, granularity, distribution, score_ids, sample_arms, refresh,
  AdaptiveWeightedRandomScheduler, adaptive_next_batch,
}
use ast_sqlite_test.Engine.Weighted.Draws.{distribution_lem}

lookup-push :
    (k j : ℕ) (v : Handle) (m : Assoc Handle)
    → (lookup k m ≡ none) ⊎ (lookup k (m ++ (j, v) ∷ []) ≡ lookup k m)
lookup-push k j v [] = inl refl
lookup-push k j v ((i, u) ∷ m) = ground (arith, lookup-push k j v m)

-- Each entry has one rule to report to, the arm of its id in the mapping.
abbrev pub Credited : {A : Type 0} → Assoc Handle → List (TestableEntry (RawEntry A)) → Type 0
Credited mapping [] = Unit {0}
Credited mapping (p ∷ ps) =
    ((i : ℕ) × (arm : Handle) × (get_elem? mapping i ≡ some (p.entry.id, arm))
      × (p.applied_rule_stats ≡ arm ∷ []))
    × Credited mapping ps

module _ (H : Host) (half : H.F64) (D : WeightedIndex H.F64 H.Generator)
    (even : (n : ℕ) → (d : D.Index) × (D.new (replicate (suc n) (H.of_nat 1)) ≡ some d))
    {A : Type 0} (K : Listed A) (is_infinite : H.F64 → Bool)
    (counted : (c : K.Corpus) → K.size c ≡ length (K.ids c))
    (own : (id : EntryId) (c : K.Corpus) (e : CorpusEntry A)
      → (K.get id c).1 ≡ some e
      → e.raw.id ≡ id) where
  length-score_ids :
      (ids : List EntryId) (m : Assoc Handle) (heap : H.Heap)
      → length (score_ids H half D K is_infinite ids m heap).0 ≡ length ids
  unfolding score_ids
  length-score_ids [] m heap = refl
  length-score_ids (id ∷ ids) m heap = ap suc (length-score_ids ids _ _)

  score_ids_keeps :
      (k : EntryId) (ids : List EntryId) (m : Assoc Handle) (heap : H.Heap)
      → (lookup k m ≡ none)
        ⊎ (lookup k (score_ids H half D K is_infinite ids m heap).1 ≡ lookup k m)
  unfolding score_ids
  score_ids_keeps k [] m heap = inr refl
  score_ids_keeps k (id ∷ ids) m heap = elim (Option-cases (lookup id m)) [
    | inl gone ↦
        let m' : Assoc Handle = m ++ (id, (H.new_arm heap).1) ∷ [] in
        rw (gone, score_ids)
          (ground (
            arith,
            lookup-push k id (H.new_arm heap).1 m,
            score_ids_keeps k ids m' (H.calculate_score (H.new_arm heap).1 (H.new_arm heap).0).0,
          ))
    | inr (arm, there) ↦ rw (there, score_ids) (score_ids_keeps k ids m _)
  ]

  sample_arms_lem :
      (n : ℕ) (d : D.Index) (m : Assoc Handle) (c : K.Corpus) (w : World H)
      → (length (sample_arms H half D K n d m c w).0 ≤ n)
        × Credited m (sample_arms H half D K n d m c w).0
  unfolding sample_arms attach_hook Outcome.new
  sample_arms_lem zero d m c w = (omega arith, tt)
  sample_arms_lem (suc n) d m c w =
      let (idx, rng) = D.sample d w.rng in
      let w' : World H = record w { rng = rng } in
      elim (Option-cases (get_elem? m idx)) [
        | inl gone ↦
            let (few, rest) = sample_arms_lem n d m c w' in
            rw (gone, sample_arms) (omega (arith, few), rest)
        | inr ((id, arm), at) ↦
            let (few, rest) = sample_arms_lem n d m (K.get id c).0 w' in
            elim (Option-cases (K.get id c).1) [
              | inl gone ↦ rw (at, sample_arms) (rw (gone, sample_arms) (omega (arith, few), rest))
              | inr (e, found) ↦
                  rw (at, sample_arms)
                    (rw (found, sample_arms)
                      (omega (arith, few), ((idx, arm, rw (own id c e found) at, refl), rest)))
            ]
      ]

  abbrev State : Type 0
  State = AdaptiveWeightedRandomScheduler H half D K

  -- The arms of a mapping are those of another one, where that one has them.
  abbrev Keeps : Assoc Handle → Assoc Handle → Type 0
  Keeps m m' = (id : EntryId) → (lookup id m ≡ none) ⊎ (lookup id m' ≡ lookup id m)

  renewed_lem :
      (s : State) (c : K.Corpus) (w : World H)
      → 0 < length (K.ids c)
      → (d : D.Index) × (distribution H half D
            (score_ids H half D K is_infinite (K.ids c) s.stat_mapping w.heap).0
          ≡ some d)
  renewed_lem s c w h =
      let (d, made, range) =
        distribution_lem H half D even
          (score_ids H half D K is_infinite (K.ids c) s.stat_mapping w.heap).0
          (omega (arith, h, length-score_ids (K.ids c) s.stat_mapping w.heap)) in
      (d, made)

  abbrev with_dist : Assoc Handle → Option D.Index → State
  with_dist m dist = record { stat_mapping = m; dist = dist }

  refresh_total :
      (m : Assoc Handle) (dist : Option D.Index) (c : K.Corpus) (w : World H)
      → 0 < length (K.ids c)
      → (d : D.Index) × (s' : State) × (w' : World H) × (refresh H half D K is_infinite
            (with_dist m dist)
            c
            w
          ≡ some (d, s', w'))
        × Keeps m s'.stat_mapping
  unfolding refresh
  refresh_total m none c w h =
      let (weights, mapping, heap) = score_ids H half D K is_infinite (K.ids c) m w.heap in
      let (d, made) = renewed_lem (with_dist m none) c w h in
      (
        d,
        with_dist mapping (some d),
        record w { heap = heap },
        rw (made, refresh) refl,
        λ id. score_ids_keeps id (K.ids c) m w.heap,
      )
  refresh_total m (some old) c w h =
      let (weights, mapping, heap) = score_ids H half D K is_infinite (K.ids c) m w.heap in
      let (d, made) = renewed_lem (with_dist m (some old)) c w h in
      elim (Bool-cases (H.epoch w.heap % granularity == 0)) [
        | inl due ↦ (
          d,
          with_dist mapping (some d),
          record w { heap = heap },
          rw (due, refresh) (rw (made, refresh) refl),
          λ id. score_ids_keeps id (K.ids c) m w.heap,
        )
        | inr early ↦ (old, with_dist m (some old), w, rw (early, refresh) refl, λ id. inr refl)
      ]

  -- Over a corpus that answers an id with the entry of that id and whose size is that of its list, and
  -- a distribution over even weights that exists where there is one: the batch is drawn without a
  -- panic and is at most as long as wanted; each of its entries reports to one arm, which the mapping
  -- has for its id; and an id that had an arm keeps it.
  pub adaptive_next_batch_credits :
      (size : ℕ) (s : State) (c : K.Corpus) (w : World H)
      → (parents : List (TestableEntry (RawEntry A))) × (s' : State) × (c' : K.Corpus) × (w' : World
          H)
        × (adaptive_next_batch H half D K is_infinite size s c w ≡ some (parents, s', c', w'))
        × (length parents ≤ size)
        × Credited s'.stat_mapping parents
        × ((id : EntryId)
            → (lookup id s.stat_mapping ≡ none)
              ⊎ (lookup id s'.stat_mapping ≡ lookup id s.stat_mapping))
  unfolding adaptive_next_batch
  adaptive_next_batch_credits size s c w = elim (Bool-cases (K.size c == 0)) [
    | inl none_left ↦
        ([], s, c, w, rw (none_left, adaptive_next_batch) refl, omega arith, tt, λ id. inr refl)
    | inr some_left ↦
        let (d, s', w₁, run, keeps) =
          refresh_total s.stat_mapping s.dist c w (ground (arith, some_left, counted c)) in
        let (few, credits) = sample_arms_lem size d s'.stat_mapping c w₁ in
        let drawn = sample_arms H half D K size d s'.stat_mapping c w₁ in
        (
          drawn.0,
          s',
          drawn.1,
          drawn.2,
          rw (some_left, adaptive_next_batch) (rw (run, adaptive_next_batch) refl),
          few,
          credits,
          keeps,
        )
  ]
