-- ===== src/Corpus/Dynamic.antt =====
-- crates/lsf-engine/src/dynamic_corpus.rs, `DynamicCorpus`: every entry is in the index, and its
-- tree in one of three places: with the newest entries in flight, in the hot cache, or on disk.
-- `Score` is `f64` with `below` for `<`; a hot entry's queue priority is `Reverse(score)`. The
-- two ratios of `resize` and `protected_ids` are exact, as they are in `f64` for the sizes that
-- fit in memory.
pub mod Invariant
pub mod Evict
pub mod Moves
pub mod Reads
pub mod Labels
pub mod Landing
pub mod Writes
pub mod Flight
pub mod Inserts
pub mod Removal
pub mod Protected
use ast_sqlite_test.Common.{
  ℕ, zero, suc, ◌+◌, ◌-◌, ◌*◌, ◌/◌, ◌%◌, ◌^◌, min, Bool, true, false, not, ◌&&◌, List, [], ◌∷◌,
  ◌++◌, Option, none, some, ltb, leb, ◌==◌, if◌then◌else◌, length, option_map, take,
}
use ast_sqlite_test.Common.Assoc.{Assoc, lookup, insert, remove, modify, keys}
use ast_sqlite_test.Core.Entry.{EntryId, Meta, RawEntry, CorpusEntry, from_components}
use ast_sqlite_test.Corpus.Containers.{IndexMap, ScoreQueue}
use ast_sqlite_test.Corpus.Storage.{StorageBackend}

pub data CacheLocation : Type 0 where
  in_flight : ℕ → CacheLocation
  hot disk : CacheLocation

pub record EntryData (Score : Type 0) : Type 0 where
  pub parents : List EntryId
  pub meta : Meta
  pub score : Score
  pub cached : CacheLocation

abbrev pub cache_cap : ℕ
cache_cap = 2 ^ 17

abbrev pub in_flight_cap : ℕ
in_flight_cap = 2 ^ 11

abbrev pub grace_period : ℕ
grace_period = 1

abbrev pub init_cache_cap : ℕ
init_cache_cap = 2 ^ 14

abbrev pub cache_adjustment_tick : ℕ
cache_adjustment_tick = 500

module _ {A Score : Type 0} {below : Score → Score → Bool} (M : IndexMap A)
    (Q : ScoreQueue Score below) (D : StorageBackend A) where
  pub record DynamicCorpus : Type 0 where
    pub index : Assoc (EntryData Score)
    pub flying : M.Map
    pub hot : Assoc A
    pub hot_eviction : Q.Queue
    pub disk_cache : D.Backend
    pub hot_cap : ℕ
    pub cache_misses : ℕ
    pub requests : ℕ

  unfoldable pub new : D.Backend → DynamicCorpus
  new disk_cache = record {
    index = [];
    flying = M.empty;
    hot = [];
    hot_eviction = Q.empty;
    disk_cache = disk_cache;
    hot_cap = init_cache_cap;
    cache_misses = 0;
    requests = 0;
  }

  unfoldable pub relocate : EntryId → CacheLocation → DynamicCorpus → DynamicCorpus
  relocate id place c = record c { index = modify id (λ d. record d { cached = place }) c.index }

  unfoldable pub move_to_disk : EntryId → A → DynamicCorpus → DynamicCorpus × Bool
  unfolding relocate
  move_to_disk id ast c =
      let written = D.write id ast c.disk_cache in
      let c₁ : DynamicCorpus = record c { disk_cache = written.0 } in
      if written.1 then (relocate id disk c₁, true) else (c₁, false)

  -- What is left of `evict_cached_if` when the queue has given up its lowest id.
  unfoldable pub evict_worst :
      (Score → Bool) → EntryId → Score → DynamicCorpus → DynamicCorpus × Bool
  evict_worst cond worst_id worst_score c =
      let back : DynamicCorpus = record c {
        hot_eviction = Q.push_increase worst_id worst_score c.hot_eviction;
      } in
      if cond worst_score
      then (elim (lookup worst_id c.hot) [
        | none ↦ (back, false)
        | some ast ↦
            ((move_to_disk worst_id ast (record c { hot = remove worst_id c.hot })).0, true)
      ])
      else (back, false)

  unfoldable pub evict_cached_if : (Score → Bool) → DynamicCorpus → DynamicCorpus × Bool
  evict_cached_if cond c =
      if ltb (length c.hot) c.hot_cap then (c, true) else (elim (Q.pop c.hot_eviction) [
        | none ↦ (c, true)
        | some ((worst_id, worst_score), queue) ↦
            evict_worst cond worst_id worst_score (record c { hot_eviction = queue })
      ])

  unfoldable pub place_hot : EntryId → A → DynamicCorpus → DynamicCorpus
  unfolding relocate
  place_hot id ast c =
      let c₁ : DynamicCorpus = record c { hot = insert id ast c.hot } in
      elim (lookup id c.index) [
        | none ↦ c₁
        | some d ↦ relocate id hot (record c₁ { hot_eviction = Q.push id d.score c.hot_eviction })
      ]

  unfoldable pub move_to_cache : EntryId → A → DynamicCorpus → DynamicCorpus
  move_to_cache id ast c =
      place_hot id ast
        (if leb c.hot_cap (length c.hot) then (evict_cached_if (λ _. true) c).0 else c)

  -- The two moves of an entry that is taken out of flight.
  unfoldable pub land : EntryId → A → Score → DynamicCorpus → DynamicCorpus
  land id ast score c =
      let (c₁, room) = evict_cached_if (λ cached. below cached score) c in
      if room then move_to_cache id ast c₁ else (move_to_disk id ast c₁).0

  unfoldable pub evict_in_flight : DynamicCorpus → DynamicCorpus
  evict_in_flight c = elim (M.entries c.flying) [
    | [] ↦ c
    | e ∷ rest ↦
        let c₁ : DynamicCorpus = record c { flying = M.shift_remove_first c.flying } in
        elim (lookup e.0 c.index) [
          | none ↦ (move_to_disk e.0 e.1 c₁).0
          | some d ↦ land e.0 e.1 d.score c₁
        ]
  ]

  abbrev pub entry_of : EntryId → EntryData Score → A → CorpusEntry A
  entry_of id d ast = record {
    raw = record { id = id; parents = d.parents; ast = ast };
    meta = d.meta;
  }

  unfoldable pub get_from_disk :
      EntryId → EntryData Score → DynamicCorpus → DynamicCorpus × Option (CorpusEntry A)
  get_from_disk id d c =
      let (disk_cache, found) = D.retrieve id c.disk_cache in
      let c₁ : DynamicCorpus = record c { disk_cache = disk_cache } in
      elim found [
        | none ↦ (c₁, none)
        | some ast ↦ (
          if ltb (length c.hot) c.hot_cap
              then move_to_cache id ast c₁
              else record c₁ { cache_misses = c.cache_misses + 1 },
          some (entry_of id d ast),
        )
      ]

  unfoldable pub get_at :
      CacheLocation
      → EntryId
      → EntryData Score
      → DynamicCorpus
      → DynamicCorpus × Option (CorpusEntry A)
  get_at (in_flight round) id d c = (c, option_map (entry_of id d) (lookup id (M.entries c.flying)))
  get_at hot id d c = (c, option_map (entry_of id d) (lookup id c.hot))
  get_at disk id d c = get_from_disk id d c

  unfoldable pub get : EntryId → DynamicCorpus → DynamicCorpus × Option (CorpusEntry A)
  get id c = elim (lookup id c.index) [
    | none ↦ (c, none)
    | some d ↦ get_at d.cached id d (record c { requests = c.requests + 1 })
  ]

  -- The branch of `update` for an entry in flight; `round` is a `u8`.
  unfoldable pub update_in_flight : ℕ → EntryId → Score → DynamicCorpus → DynamicCorpus
  unfolding relocate
  update_in_flight round id score c =
      let round' = (round + 1) % 256 in
      let c₁ = relocate id (in_flight round') c in
      if ltb grace_period round'
      then (elim (lookup id (M.entries c.flying)) [
        | none ↦ c₁
        | some ast ↦ land id ast score (record c₁ { flying = M.shift_remove id c.flying })
      ])
      else c₁

  unfoldable pub reprioritise : EntryId → Score → DynamicCorpus → DynamicCorpus
  reprioritise id score c = record c { hot_eviction = Q.change_priority id score c.hot_eviction }

  -- The branch for an entry on disk: a chain of conditions, with the hot branch for its `else`.
  unfoldable pub update_on_disk : EntryId → Score → DynamicCorpus → DynamicCorpus
  unfolding reprioritise
  update_on_disk id score c =
      let (c₁, room) = evict_cached_if (λ cached. below cached score) c in
      let (disk_cache, found) = D.retrieve id c₁.disk_cache in
      let c₂ : DynamicCorpus = record c₁ { disk_cache = disk_cache } in
      if room
      then elim found [ none ↦ reprioritise id score c₂ | some ast ↦ move_to_cache id ast c₂ ]
      else reprioritise id score c₁

  unfoldable pub update_at : CacheLocation → EntryId → Score → DynamicCorpus → DynamicCorpus
  update_at (in_flight round) id score c = update_in_flight round id score c
  update_at disk id score c = update_on_disk id score c
  update_at hot id score c = reprioritise id score c

  unfoldable pub update : EntryId → Score → DynamicCorpus → DynamicCorpus
  update id score c = elim (lookup id c.index) [
    | none ↦ c
    | some d ↦
        update_at d.cached id score
          (record c { index = modify id (λ e. record e { score = score }) c.index })
  ]

  unfoldable pub insert_new : CorpusEntry A → Score → DynamicCorpus → DynamicCorpus
  insert_new e score c =
      let c₁ : DynamicCorpus = record c {
        disk_cache = (D.write e.raw.id e.raw.ast c.disk_cache).0;
      } in
      let c₂ =
        if leb in_flight_cap (length (M.entries c₁.flying)) then evict_in_flight c₁ else c₁ in
      record c₂ {
        flying = M.insert_entry e.raw.id e.raw.ast c₂.flying;
        index =
            insert e.raw.id
              (record {
                parents = e.raw.parents;
                meta = e.meta;
                score = score;
                cached = in_flight 0;
              })
              c₂.index;
      }

  unfoldable pub remove_hot : CacheLocation → EntryId → DynamicCorpus → DynamicCorpus
  remove_hot hot id c = record c { hot = remove id c.hot }
  remove_hot (in_flight round) id c = c
  remove_hot disk id c = c

  unfoldable pub remove_entry : EntryId → DynamicCorpus → DynamicCorpus
  remove_entry id c = elim (lookup id c.index) [
    | none ↦ c
    | some d ↦ remove_hot d.cached id (record c { index = remove id c.index })
  ]

  unfoldable pub resize : DynamicCorpus → DynamicCorpus
  resize c =
      if ltb c.requests cache_adjustment_tick
      then c
      else (let grow = ltb (3 * c.requests) (20 * c.cache_misses) && ltb c.hot_cap cache_cap in
          record c {
            hot_cap = if grow then min (c.hot_cap * 3 / 2) cache_cap else c.hot_cap;
            requests = 0;
            cache_misses = 0;
          })

  -- `hot_eviction` is not touched.
  unfoldable pub clear : DynamicCorpus → DynamicCorpus
  clear c = record c { index = []; flying = M.empty; hot = []; disk_cache = D.clear c.disk_cache }

  unfoldable pub size : DynamicCorpus → ℕ
  size c = length c.index

  unfoldable pub ids : DynamicCorpus → List EntryId
  ids c = keys c.index
