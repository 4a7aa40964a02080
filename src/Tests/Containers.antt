-- ===== src/Tests/Containers.antt =====
-- An index map and a priority queue as lists without a repeated key.
use ast_sqlite_test.Common.{
  ℕ, ◌≡◌, refl, ap, sym, true, false, [], ◌∷◌, Option, none, some, ◌==◌, if◌then◌else◌, ltb, arith,
  inl, inr, Bool-cases, Option-cases, option_map, is_some, ℕ_discrete,
}
use ast_sqlite_test.Common.Assoc.{
  Assoc, lookup, insert, remove, keys, distinct, mem, lookup-insert, lookup-remove, mem-keys,
}
use ast_sqlite_test.Core.Entry.{EntryId}
use ast_sqlite_test.Corpus.Containers.{IndexMap, ScoreQueue}

abbrev pub DistinctMap : Type 0 → Type 0
DistinctMap V = (m : Assoc V) × (distinct (keys m) ≡ true)

module _ {V : Type 0} where
  mem-insert :
      (k j : ℕ) (v : V) (m : Assoc V)
      → (k == j) ≡ false
      → mem j (keys (insert k v m)) ≡ mem j (keys m)
  mem-insert k j v m ne =
      ground (arith, mem-keys j m, mem-keys j (insert k v m), lookup-insert k j v m)

  distinct-insert :
      (k : ℕ) (v : V) (m : Assoc V)
      → distinct (keys m) ≡ true
      → distinct (keys (insert k v m)) ≡ true
  distinct-insert k v [] d = refl
  distinct-insert k v (e ∷ m) d = elim (ℕ_discrete e.0 k) [
    | yes p ↦ ground (arith, p)
    | no ne ↦
        let f : (e.0 == k) ≡ false = ground arith in
        let g : (k == e.0) ≡ false = ground arith in
        rw f (ground (arith, distinct-insert k v m, mem-insert k e.0 v m g))
  ]

  mem-remove : (k j : ℕ) (m : Assoc V) → mem j (keys m) ≡ false → mem j (keys (remove k m)) ≡ false
  mem-remove k j m h = ground (arith, mem-keys j m, mem-keys j (remove k m), lookup-remove k j m)

  distinct-remove :
      (k : ℕ) (m : Assoc V) → distinct (keys m) ≡ true → distinct (keys (remove k m)) ≡ true
  distinct-remove k [] d = refl
  distinct-remove k (e ∷ m) d = ground (arith, distinct-remove k m, mem-remove k e.0 m)

  abbrev pub shift_first : DistinctMap V → DistinctMap V
  shift_first ([], d) = ([], d)
  shift_first (e ∷ m, d) = (m, ground (arith, d))

  pub index_map : IndexMap V
  index_map = record {
    Map = DistinctMap V;
    entries = λ m. m.0;
    empty = ([], refl);
    insert_entry = λ k v m. (insert k v m.0, distinct-insert k v m.0 m.1);
    shift_remove = λ k m. (remove k m.0, distinct-remove k m.0 m.1);
    shift_remove_first = shift_first;
    distinct_keys = λ m. m.1;
    entries-empty = refl;
    entries-insert_entry = λ k v m. refl;
    entries-shift_remove = λ k m. refl;
    entries-shift_remove_first = first_lem;
  }
    where
      first_lem :
          (k : EntryId) (v : V) (rest : Assoc V) (m : DistinctMap V)
          → m.0 ≡ (k, v) ∷ rest
          → (shift_first m).0 ≡ rest
      first_lem k v rest ([], d) h = absurd (ground (arith, h))
      first_lem k v rest (e ∷ m, d) h = ground (arith, h)

-- The entry with the lowest score.
abbrev lowest : Assoc ℕ → Option (EntryId × ℕ)
lowest [] = none
lowest (e ∷ m) = elim (lowest m) [ none ↦ some e | some r ↦ if ltb r.1 e.1 then some r else some e ]

lowest-none : (m : Assoc ℕ) → lowest m ≡ none → m ≡ []
lowest-none [] h = refl
lowest-none (e ∷ m) h = absurd (elim (Option-cases (lowest m)) [
  | inl n ↦ ground (arith, n, h)
  | inr (r, q) ↦ ground (arith, q, h)
])

lowest_lem :
    (m : Assoc ℕ) (r : EntryId × ℕ)
    → distinct (keys m) ≡ true
    → lowest m ≡ some r
    → (lookup r.0 m ≡ some r.1) × ((j s : ℕ) → lookup j m ≡ some s → ltb s r.1 ≡ false)
lowest_lem [] r d h = absurd (ground (arith, h))
lowest_lem (e ∷ m) r d h = elim (Option-cases (lowest m)) [
  | inl n ↦
      let nil : m ≡ [] = lowest-none m n in
      let same : e ≡ r = ground (arith, n, h) in
      (ground (arith, same), λ j s at. ground (arith, at, nil, same))
  | inr (q, found) ↦
      let (there, least) = lowest_lem m q (ground (arith, d)) found in
      let absent : lookup e.0 m ≡ none = ground (arith, d, mem-keys e.0 m) in
      elim (Bool-cases (ltb q.1 e.1)) [
        | inl lt ↦
            let same : q ≡ r = ground (arith, found, h, lt) in
            (ground (arith, same, there, absent), λ j s at. ground (arith, at, same, lt, least j s))
        | inr ge ↦
            let same : e ≡ r = ground (arith, found, h, ge) in
            (ground (arith, same), λ j s at. ground (arith, at, same, ge, least j s))
      ]
]

abbrev pub DistinctScores : Type 0
DistinctScores = DistinctMap ℕ

abbrev pop_lowest : DistinctScores → Option ((EntryId × ℕ) × DistinctScores)
pop_lowest q = option_map (λ r. (r, (remove r.0 q.0, distinct-remove r.0 q.0 q.1))) (lowest q.0)

abbrev put : EntryId → ℕ → DistinctScores → DistinctScores
put k s q = (insert k s q.0, distinct-insert k s q.0 q.1)

abbrev change : EntryId → ℕ → DistinctScores → DistinctScores
change k s q = if is_some (lookup k q.0) then put k s q else q

abbrev rest_of : Option ((EntryId × ℕ) × DistinctScores) → Assoc ℕ
rest_of none = []
rest_of (some r) = r.1.0

pub score_queue : ScoreQueue ℕ ltb
score_queue = record {
  Queue = DistinctScores;
  score_of = λ k q. lookup k q.0;
  empty = ([], refl);
  push = put;
  change_priority = change;
  push_increase = put;
  pop = pop_lowest;
  score_of-empty = λ j. refl;
  score_of-push = λ k j s q. lookup-insert k j s q.0;
  score_of-change_priority = λ k j s old q h. rw (h, change) (lookup-insert k j s q.0);
  change_priority_absent = λ k s q h. rw (h, change) refl;
  score_of-push_increase = λ k j s q h. lookup-insert k j s q.0;
  pop_none = λ q j h. none_lem q j h;
  pop_some = some_lem;
}
  where
    none_lem : (q : DistinctScores) (j : EntryId) → pop_lowest q ≡ none → lookup j q.0 ≡ none
    none_lem q j h = elim (Option-cases (lowest q.0)) [
      | inl n ↦ rw (lowest-none q.0 n) refl
      | inr (r, found) ↦ absurd (ground (arith, found, h))
    ]

    some_lem :
        (q q' : DistinctScores) (k : EntryId) (s : ℕ)
        → pop_lowest q ≡ some ((k, s), q')
        → (lookup k q.0 ≡ some s)
          × ((j : EntryId) → lookup j q'.0 ≡ (if k == j then none else lookup j q.0))
          × ((j : EntryId) (s' : ℕ) → lookup j q.0 ≡ some s' → ltb s' s ≡ false)
    some_lem q q' k s h = elim (Option-cases (lowest q.0)) [
      | inl n ↦ absurd (ground (arith, n, h))
      | inr (r, found) ↦
          let (there, least) = lowest_lem q.0 r q.1 found in
          let same : r ≡ (k, s) = ground (arith, found, h) in
          let taken : q'.0 ≡ remove r.0 q.0 = sym (ap (λ o. rest_of o) (rw (found) at h)) in
          (
            ground (arith, same, there),
            λ j. rw taken (ground (arith, same, lookup-remove r.0 j q.0)),
            λ j s' at. ground (arith, same, least j s'),
          )
    ]
