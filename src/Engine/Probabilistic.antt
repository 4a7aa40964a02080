-- ===== src/Engine/Probabilistic.antt =====
-- crates/lsf-engine/src/probabilisitic_mab.rs, `ProbabilisticMABScheduler`: a slot of the sampling
-- table for each entry, and the entry of each slot in an index map. The map is kept by slots, each
-- with the id that its hash was made from, since a key that is overwritten in place keeps its old
-- hash. Which slot the map finds for an id is the parameter `get_full`. The arms are behind the
-- operations of `Arms`. `none` is a panic.
pub mod Slots
use ast_sqlite_test.Common.{
  ℕ, zero, suc, ◌+◌, ◌-◌, ◌*◌, max, Bool, true, false, ◌&&◌, List, [], ◌∷◌, ◌++◌, Option, none,
  some, ◌>>=◌, ltb, leb, ◌==◌, if◌then◌else◌, length, get_elem?, set, option_map,
}
use ast_sqlite_test.Core.Entry.{EntryId, Meta, RawEntry, CorpusEntry}
use ast_sqlite_test.Feedback.Outcome.{TestableEntry, Handle}
use ast_sqlite_test.Feedback.Floats.{Floats}
use ast_sqlite_test.Engine.SumTable.{BlockSumTable, sample}
use ast_sqlite_test.Engine.SumTable as SumTable

-- The body and the arms of the scheduler: `MABArm::new_with_prior`, `calculate_score` as a
-- weight, the body's epoch and its reset.
pub record Arms (F : Floats) : Type 1 where
  pub Heap : Type 0
  pub epoch : Heap → ℕ
  pub new_with_prior : Meta → Heap → Heap × Handle
  pub calculate_score : Handle → Heap → Heap × F.F64
  pub reset : Heap → Heap

pub record SmallScheduledItem : Type 0 where
  pub epoch : ℕ
  pub stats : Handle

pub record Slot : Type 0 where
  pub hashed : EntryId
  pub id : EntryId
  pub item : SmallScheduledItem

-- `get_index_mut2(idx)` and the two writes through it
unfoldable pub overwrite_slot : ℕ → EntryId → SmallScheduledItem → List Slot → List Slot
overwrite_slot idx id item slots = elim (get_elem? slots idx) [
  | none ↦ slots
  | some old ↦ set slots idx (record { hashed = old.hashed; id = id; item = item })
]

abbrev pub default_cap : ℕ
default_cap = 10000

abbrev pub accept_under : ℕ
accept_under = 50

-- `abs_diff`
abbrev pub abs_diff : ℕ → ℕ → ℕ
abs_diff a b = max (a - b) (b - a)

module _ (F : Floats) (B : Arms F) (get_full : EntryId → List Slot → Option ℕ)
    (min_weight max_weight : F.F64) where
  pub record ProbabilisticMabScheduler : Type 0 where
    pub queue : BlockSumTable F
    pub id_mapping : List Slot
    pub mab : B.Heap

  unfoldable pub new : B.Heap → ProbabilisticMabScheduler
  new body = record { queue = SumTable.new F default_cap; id_mapping = []; mab = body }

  -- `insert` of the map
  unfoldable pub insert_slot : EntryId → SmallScheduledItem → List Slot → List Slot
  insert_slot id item slots = elim (get_full id slots) [
    | some idx ↦ set slots idx (record { hashed = id; id = id; item = item })
    | none ↦ slots ++ record { hashed = id; id = id; item = item } ∷ []
  ]

  unfoldable pub on_add :
      {A : Type 0}
      → CorpusEntry A
      → ProbabilisticMabScheduler
      → Option (ProbabilisticMabScheduler × F.F64)
  on_add entry s =
      let (heap, stats) = B.new_with_prior entry.meta s.mab in
      let item : SmallScheduledItem = record { epoch = B.epoch s.mab; stats = stats } in
      let (heap', score) = B.calculate_score stats heap in
      SumTable.insert F min_weight max_weight score s.queue >>= λ r. some (
        record {
          queue = r.0;
          id_mapping =
              if leb (length s.id_mapping) (r.1)
              then insert_slot entry.raw.id item s.id_mapping
              else overwrite_slot (r.1) entry.raw.id item s.id_mapping;
          mab = heap';
        },
        score,
      )

  unfoldable pub on_remove : EntryId → ProbabilisticMabScheduler → Option ProbabilisticMabScheduler
  on_remove id s = elim (get_full id s.id_mapping) [
    | none ↦ some s
    | some idx ↦ SumTable.remove F idx s.queue >>= λ queue. some (record s { queue = queue })
  ]

  unfoldable pub fall_through_rate : BlockSumTable F → F.F64
  fall_through_rate t = F.div (F.of_nat t.fall_through) (F.of_nat t.requests)

  -- `0.1`
  abbrev pub do_resum_over : F.F64
  do_resum_over = F.div (F.of_nat 1) (F.of_nat 10)

  unfoldable pub chore : ProbabilisticMabScheduler → ProbabilisticMabScheduler
  chore s =
      if F.at_least (fall_through_rate s.queue) do_resum_over
      then record s { queue = SumTable.resum F s.queue }
      else s

  unfoldable pub reset : ProbabilisticMabScheduler → ProbabilisticMabScheduler
  reset s = record { queue = SumTable.new F default_cap; id_mapping = []; mab = B.reset s.mab }

  module _ {A C R : Type 0} (get : EntryId → C → C × Option (CorpusEntry A))
      (random_range : F.F64 → R → Option F.F64 × R) where
    pub record Round : Type 0 where
      pub scheduler : ProbabilisticMabScheduler
      pub corpus : C
      pub rng : R
      pub parents : List (TestableEntry (RawEntry A))

    -- What a sampled slot leads to: a stale score is renewed, else the entry is a parent.
    unfoldable pub visit_slot : ℕ → ℕ → Slot → Round → Option Round
    visit_slot current_epoch top slot r =
        let s = r.scheduler in
        if ltb accept_under (abs_diff slot.item.epoch current_epoch)
        then (let (heap, score) = B.calculate_score slot.item.stats s.mab in
            SumTable.update F min_weight max_weight top score s.queue >>= λ queue. some (record r {
              scheduler = record {
                queue = queue;
                id_mapping =
                    set s.id_mapping top
                      (record slot { item = record (slot.item) { epoch = current_epoch } });
                mab = heap;
              };
            }))
        else (let (corpus, found) = get slot.id r.corpus in
            let r₁ : Round = record r { corpus = corpus } in
            some (elim found [
              | none ↦ r₁
              | some entry ↦ record r₁ {
                parents =
                    r.parents
                    ++ record {
                      entry = entry.raw;
                      applied_rule_stats = slot.item.stats ∷ [];
                      parent_stats = slot.item.stats ∷ [];
                    }
                      ∷ [];
              }
            ]))

    -- At most `rounds` rounds of the loop; `none` is a panic.
    unfoldable pub next_batch : ℕ → ℕ → ℕ → Round → Option Round
    next_batch size current_epoch zero r = some r
    next_batch size current_epoch (suc rounds) r =
        if leb size (length r.parents)
        then some r
        else (let (drawn, rng) = random_range r.scheduler.queue.total_sum r.rng in
            elim (sample F (λ total. drawn) r.scheduler.queue) [
              | none ↦ none
              | some (queue, none) ↦ some r
              | some (queue, some top) ↦
                  let r₁ : Round = record r {
                    scheduler = record (r.scheduler) { queue = queue };
                    rng = rng;
                  } in
                  elim (get_elem? r₁.scheduler.id_mapping top) [
                    | none ↦ some r₁
                    | some slot ↦ visit_slot current_epoch top slot r₁
                  ]
                  >>= λ r₂. next_batch size current_epoch rounds r₂
            ])
