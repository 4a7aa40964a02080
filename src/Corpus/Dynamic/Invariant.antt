-- ===== src/Corpus/Dynamic/Invariant.antt =====
-- The invariant of the corpus, and the map that it stands for: caching and eviction only move a
-- tree between the places where it may be.
use ast_sqlite_test.Common.{
  ◌≤◌, ◌<◌, ◌≡◌, Bool, true, false, Option, none, some, length, option_map, is_some,
}
use ast_sqlite_test.Common.Assoc.{Assoc, lookup}
use ast_sqlite_test.Core.Entry.{EntryId, CorpusEntry}
use ast_sqlite_test.Corpus.Containers.{IndexMap, ScoreQueue}
use ast_sqlite_test.Corpus.Storage.{StorageBackend, IsReliable}
use ast_sqlite_test.Corpus.Dynamic.{
  CacheLocation, in_flight, hot, disk, EntryData, DynamicCorpus, in_flight_cap, cache_cap, entry_of,
}

abbrev pub flies : CacheLocation → Bool
flies (in_flight round) = true
flies hot = false
flies disk = false

abbrev pub nobody : EntryId → Bool
nobody k = false

module _ {A Score : Type 0} {below : Score → Score → Bool} (M : IndexMap A)
    (Q : ScoreQueue Score below) (D : StorageBackend A) (R : IsReliable D) where
  -- The tree of `k`, where an entry with this location is kept.
  abbrev pub tree_in : CacheLocation → EntryId → M.Map → Assoc A → D.Backend → Option A
  tree_in (in_flight round) k flying cache backend = lookup k (M.entries flying)
  tree_in hot k flying cache backend = lookup k cache
  tree_in disk k flying cache backend = R.stored k backend

  abbrev pub tree_at : CacheLocation → EntryId → DynamicCorpus M Q D → Option A
  tree_at place k c = tree_in place k c.flying c.hot c.disk_cache

  abbrev pub view_in :
      Option (EntryData Score) → EntryId → M.Map → Assoc A → D.Backend → Option (CorpusEntry A)
  view_in none k flying cache backend = none
  view_in (some d) k flying cache backend =
      option_map (entry_of M Q D k d) (tree_in d.cached k flying cache backend)

  -- The abstract map.
  abbrev pub view : EntryId → DynamicCorpus M Q D → Option (CorpusEntry A)
  view k c = view_in (lookup k c.index) k c.flying c.hot c.disk_cache

  abbrev pub spot : EntryId → DynamicCorpus M Q D → Option CacheLocation
  spot k c = option_map (λ d. d.cached) (lookup k c.index)

  -- `out` are the ids whose tree is in the hands of an operation.
  pub record IsValidBut (out : EntryId → Bool) (c : DynamicCorpus M Q D) : Type 0 where
    pub room : length c.hot ≤ c.hot_cap
    pub positive : 0 < c.hot_cap
    pub tracked :
        (k : EntryId)
        → is_some (lookup k c.hot) ≡ true
        → is_some (Q.score_of k c.hot_eviction) ≡ true
    pub hot_indexed : (k : EntryId) → is_some (lookup k c.hot) ≡ true → spot k c ≡ some hot
    pub flight_indexed :
        (k : EntryId) (place : CacheLocation)
        → is_some (lookup k (M.entries c.flying)) ≡ true
        → spot k c ≡ some place
        → flies place ≡ true
    pub placed :
        (k : EntryId) (place : CacheLocation)
        → spot k c ≡ some place
        → out k ≡ false
        → is_some (tree_at place k c) ≡ true

  pub record IsValid (c : DynamicCorpus M Q D) : Type 0 where
    pub sound : IsValidBut nobody c
    pub flying_bounded : length (M.entries c.flying) ≤ in_flight_cap
    pub cap_bounded : c.hot_cap ≤ cache_cap
