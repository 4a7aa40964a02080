-- ===== src/Engine/Heap.antt =====
-- crates/lsf-engine/src/mab_scheduler.rs: the scheduler that hands out the entries with the best
-- scores, each at most once for a batch. The body of its arms is the heap of the world that it is
-- lent; the corpus is behind `get` and `update`.
pub mod Items
pub mod Once
use ast_sqlite_test.Common.{
  ℕ, zero, suc, ◌+◌, ◌*◌, true, false, List, [], ◌∷◌, ◌++◌, Option, none, some, leb, ◌>>=◌, length,
}
use ast_sqlite_test.Core.Entry.{EntryId, Meta, RawEntry, CorpusEntry}
use ast_sqlite_test.Feedback.Outcome.{TestableEntry, Handle, attach_build_hook}
use ast_sqlite_test.Feedback.Outcome as Outcome
use ast_sqlite_test.Mutate.Strategy.{Host, World}
use ast_sqlite_test.Mutate.Queue.{ScheduledItem, pop, is_stale, renew}

abbrev pub accept_under : ℕ
accept_under = 50

abbrev pub Target : Host → Type 0
Target H = ScheduledItem H EntryId

module _ (H : Host) where
  -- What the loop of `next_batch` changes
  pub record Gathered (A C : Type 0) : Type 0 where
    pub queue : List (Target H)
    pub acc : List (Target H)
    pub parents : List (TestableEntry (RawEntry A))
    pub corpus : C
    pub world : World H

  module _ {A C : Type 0} (get : EntryId → C → C × Option (CorpusEntry A))
      (update : EntryId → H.F64 → C → C) where
    -- An entry that is not in the corpus any more leaves the queue.
    unfoldable pub take_parent : Target H → Gathered A C → Gathered A C
    take_parent top g =
        let (corpus, found) = get top.item g.corpus in
        elim found [
          | none ↦ record g { corpus = corpus }
          | some parent ↦ record g {
            acc = g.acc ++ top ∷ [];
            parents = g.parents ++ attach_build_hook top.stats (Outcome.new parent.raw) ∷ [];
            corpus = update top.item top.score corpus;
          }
        ]

    -- `none` where the rounds run out
    unfoldable pub gather : ℕ → ℕ → ℕ → Gathered A C → Option (Gathered A C)
    gather zero size current_epoch g = none
    gather (suc rounds) size current_epoch g = elim (leb size (length g.parents)) [
      | true ↦ some g
      | false ↦ elim (pop H g.queue) [
        | none ↦ some g
        | some (top, rest) ↦ elim (is_stale H accept_under current_epoch top) [
          | true ↦
              let (top', world) = renew H current_epoch top g.world in
              gather rounds size current_epoch (record g { queue = top' ∷ rest; world = world })
          | false ↦ gather rounds size current_epoch (take_parent top (record g { queue = rest }))
        ]
      ]
    ]

    abbrev pub start : List (Target H) → C → World H → Gathered A C
    start queue corpus world = record {
      queue = queue;
      acc = [];
      parents = [];
      corpus = corpus;
      world = world;
    }

    unfoldable pub next_batch :
        ℕ
        → List (Target H)
        → C
        → World H
        → Option (List (TestableEntry (RawEntry A)) × List (Target H) × C × World H)
    next_batch size queue corpus world =
        gather (2 * length queue + 1) size (H.epoch world.heap) (start queue corpus world) >>= λ g.
        some (g.parents, g.queue ++ g.acc, g.corpus, g.world)

  module _ (new_with_prior : Meta → H.Heap → H.Heap × Handle) where
    -- `SchedueldItem::new_with_prior`
    unfoldable pub new_item_with_prior : EntryId → Meta → World H → Target H × World H
    new_item_with_prior id meta w =
        let (heap, stats) = new_with_prior meta w.heap in
        let (heap', score) = H.calculate_score stats heap in
        (
          record { score = score; epoch = H.epoch w.heap; stats = stats; item = id },
          record w { heap = heap' },
        )

    unfoldable pub on_add :
        {A : Type 0} → CorpusEntry A → List (Target H) → World H → List (Target H) × H.F64 × World H
    on_add entry queue w =
        let (item, w') = new_item_with_prior entry.raw.id entry.meta w in
        (item ∷ queue, item.score, w')

  unfoldable pub reset : (H.Heap → H.Heap) → List (Target H) → World H → List (Target H) × World H
  reset reset_body queue w = ([], record w { heap = reset_body w.heap })
