-- ===== src/Corpus/Containers.antt =====
-- The containers of other crates that the corpus uses, as what their documentation promises.
use ast_sqlite_test.Common.{
  ◌≡◌, Bool, true, false, [], ◌∷◌, Option, none, some, ◌==◌, if◌then◌else◌,
}
use ast_sqlite_test.Common.Assoc.{Assoc, insert, remove, keys, distinct}
use ast_sqlite_test.Core.Entry.{EntryId}

-- `indexmap::IndexMap<EntryId, V>`: a map in the order of insertion, seen through its entries. An
-- `insert` at a key that is there keeps its place.
pub record IndexMap (V : Type 0) : Type 1 where
  pub Map : Type 0
  pub entries : Map → Assoc V
  pub empty : Map
  pub insert_entry : EntryId → V → Map → Map
  pub shift_remove : EntryId → Map → Map
  pub shift_remove_first : Map → Map
  pub distinct_keys : (m : Map) → distinct (keys (entries m)) ≡ true
  pub entries-empty : entries empty ≡ []
  pub entries-insert_entry :
      (k : EntryId) (v : V) (m : Map) → entries (insert_entry k v m) ≡ insert k v (entries m)
  pub entries-shift_remove :
      (k : EntryId) (m : Map) → entries (shift_remove k m) ≡ remove k (entries m)
  pub entries-shift_remove_first :
      (k : EntryId) (v : V) (rest : Assoc V) (m : Map)
      → entries m ≡ (k, v) ∷ rest
      → entries (shift_remove_first m) ≡ rest

-- `priority_queue::PriorityQueue<EntryId, Reverse<OrderedFloat<f64>>>`, seen through the score that it
-- holds for an id: `pop` takes an id whose score no other is below.
pub record ScoreQueue (Score : Type 0) (below : Score → Score → Bool) : Type 1 where
  pub Queue : Type 0
  pub score_of : EntryId → Queue → Option Score
  pub empty : Queue
  pub push : EntryId → Score → Queue → Queue
  pub change_priority : EntryId → Score → Queue → Queue
  pub push_increase : EntryId → Score → Queue → Queue
  pub pop : Queue → Option ((EntryId × Score) × Queue)
  pub score_of-empty : (j : EntryId) → score_of j empty ≡ none
  pub score_of-push :
      (k j : EntryId) (s : Score) (q : Queue)
      → score_of j (push k s q) ≡ (if k == j then some s else score_of j q)
  pub score_of-change_priority :
      (k j : EntryId) (s old : Score) (q : Queue)
      → score_of k q ≡ some old
      → score_of j (change_priority k s q) ≡ (if k == j then some s else score_of j q)
  pub change_priority_absent :
      (k : EntryId) (s : Score) (q : Queue) → score_of k q ≡ none → change_priority k s q ≡ q
  pub score_of-push_increase :
      (k j : EntryId) (s : Score) (q : Queue)
      → score_of k q ≡ none
      → score_of j (push_increase k s q) ≡ (if k == j then some s else score_of j q)
  pub pop_none : (q : Queue) (j : EntryId) → pop q ≡ none → score_of j q ≡ none
  pub pop_some :
      (q q' : Queue) (k : EntryId) (s : Score)
      → pop q ≡ some ((k, s), q')
      → (score_of k q ≡ some s)
        × ((j : EntryId) → score_of j q' ≡ (if k == j then none else score_of j q))
        × ((j : EntryId) (s' : Score) → score_of j q ≡ some s' → below s' s ≡ false)
