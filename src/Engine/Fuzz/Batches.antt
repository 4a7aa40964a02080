-- ===== src/Engine/Fuzz/Batches.antt =====
-- What a batch of children is made of.
use ast_sqlite_test.Common.{
  ℕ, suc, ◌+◌, ◌%◌, ◌≤◌, ◌<◌, ◌≡◌, refl, List, [], ◌∷◌, length, arith, ◌∙◌,
}
use ast_sqlite_test.Core.Entry.{EntryId, RawEntry, u32_mod, next}
use ast_sqlite_test.Core.Entry as Entry
use ast_sqlite_test.Feedback.Outcome.{TestableEntry}
use ast_sqlite_test.Feedback.Outcome as Outcome
use ast_sqlite_test.Engine.Traits.{CorpusHandler, Schedule, CorpusMinimizer, FeedbackHooks}
use ast_sqlite_test.Engine.Fuzz.{
  MutationState, mutated_child, unchanged, Child, Breed, offspring, breed_all, breed_batch,
}

module _ {A Score R : Type 0} (K : CorpusHandler A Score) (S : Schedule A Score R K.Corpus)
    (G : CorpusMinimizer A K.Corpus S.Scheduler) (H : FeedbackHooks) where
  abbrev pub KeepsIds : List (Breed K S G H) → Type 0
  KeepsIds [] = Unit
  KeepsIds (breed ∷ breeds) =
      ((child : Child K S G H) (batch : List (Child K S G H)) (rng : R)
        → (breed child batch rng).0.entry.id ≡ child.entry.id)
      × KeepsIds breeds

  -- Ids from `low` on, each above the one before.
  abbrev pub Ascend : ℕ → List (Child K S G H) → Type 0
  Ascend low [] = Unit
  Ascend low (child ∷ children) = (low ≤ child.entry.id) × Ascend (suc child.entry.id) children

  Ascend-from :
      (low low' : ℕ) (children : List (Child K S G H))
      → low ≤ low'
      → Ascend low' children
      → Ascend low children
  Ascend-from low low' [] h a = a
  Ascend-from low low' (child ∷ children) h a = (omega (arith, h, a.0), a.1)

  bred_id :
      (breeds : List (Breed K S G H)) (batch : List (Child K S G H)) (child : Child K S G H)
      (rng : R) (state : MutationState)
      → KeepsIds breeds
      → (breed_all K S G H breeds batch child rng state).0.entry.id ≡ child.entry.id
  unfolding breed_all
  bred_id [] batch child rng state k = refl
  bred_id (breed ∷ breeds) batch child rng state k =
      bred_id breeds batch _ _ _ k.1 ∙ k.0 child batch rng

  offspring_id :
      (entry : Child K S G H) (c : ℕ)
      → ((offspring K S G H entry c).0.entry.id ≡ c)
        × ((offspring K S G H entry c).1 ≡ (c + 1) % u32_mod)
        × ((offspring K S G H entry c).0.entry.parents ≡ entry.entry.id ∷ [])
        × ((offspring K S G H entry c).0.parent_stats ≡ entry.applied_rule_stats)
        × ((offspring K S G H entry c).0.entry.ast ≡ entry.entry.ast)
  unfolding offspring Entry.new next Outcome.new
  offspring_id entry c = (refl, refl, refl, refl, refl)

  -- As long as strategies leave a child's id alone and the counter of ids does not wrap, a batch
  -- has at most one child for each entry, the children's ids ascend from the counter on, so no
  -- two are the same, and the counter moves on by one for each entry, bred or not.
  pub breed_batch_ids :
      (breeds : List (Breed K S G H)) (batch entries : List (Child K S G H)) (rng : R) (c : ℕ)
      → KeepsIds breeds
      → c + length entries < u32_mod
      → (length (breed_batch K S G H breeds batch entries rng c).0 ≤ length entries)
        × Ascend c (breed_batch K S G H breeds batch entries rng c).0
        × ((breed_batch K S G H breeds batch entries rng c).2 ≡ c + length entries)
  unfolding breed_batch
  breed_batch_ids breeds batch [] rng c k h = (omega arith, tt, omega arith)
  breed_batch_ids breeds batch (entry ∷ entries) rng c k h =
      let o = offspring_id entry c in
      let moved : (offspring K S G H entry c).1 ≡ c + 1 = omega (arith, o.1, h) in
      let bred = breed_all K S G H breeds batch (offspring K S G H entry c).0 rng unchanged in
      let id : bred.0.entry.id ≡ c = bred_id breeds batch _ rng unchanged k ∙ o.0 in
      let c' = (offspring K S G H entry c).1 in
      let rest = breed_batch_ids breeds batch entries bred.1 c' k (omega (arith, h, moved)) in
      state_lem bred.2 bred.0 (breed_batch K S G H breeds batch entries bred.1 c') c' moved id rest
    where
      state_lem :
          (state : MutationState) (child : Child K S G H) (r : List (Child K S G H) × R × ℕ)
          (c' : ℕ)
          → c' ≡ c + 1
          → child.entry.id ≡ c
          → (length r.0 ≤ length entries) × Ascend c' r.0 × (r.2 ≡ c' + length entries)
          → (length (elim state [ mutated_child ↦ child ∷ r.0 | unchanged ↦ r.0 ])
              ≤ suc (length entries))
            × Ascend c (elim state [ mutated_child ↦ child ∷ r.0 | unchanged ↦ r.0 ])
            × (r.2 ≡ c + suc (length entries))
      state_lem mutated_child child r c' m id rest = (
        omega (arith, rest.0),
        (omega (arith, id), Ascend-from (suc child.entry.id) c' r.0 (omega (arith, id, m)) rest.1),
        omega (arith, rest.2, m),
      )
      state_lem unchanged child r c' m id rest = (
        omega (arith, rest.0),
        Ascend-from c c' r.0 (omega (arith, m)) rest.1,
        omega (arith, rest.2, m),
      )
