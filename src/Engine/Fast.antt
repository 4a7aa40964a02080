-- ===== src/Engine/Fast.antt =====
-- crates/lsf-engine/src/probabilisitic_mab.rs, `FastProbabilisticMABScheduler`: an entry is drawn,
-- and accepted by the chance that its score is of the greatest one. The index map is the list of its
-- entries.
pub mod Owners
pub mod Rounds
use ast_sqlite_test.Common.{
  ℕ, zero, suc, ◌+◌, Bool, true, false, List, [], ◌∷◌, ◌++◌, Option, none, some, leb, ◌==◌, ◌>>=◌,
  if◌then◌else◌, length, get_elem?, set, option_map,
}
use ast_sqlite_test.Core.Entry.{EntryId, Meta, RawEntry, CorpusEntry}
use ast_sqlite_test.Feedback.Outcome.{TestableEntry, Handle, attach_hook, attach_build_hook}
use ast_sqlite_test.Feedback.Outcome as Outcome
use ast_sqlite_test.Mutate.Strategy.{Host, World, draw, flip}
use ast_sqlite_test.Mutate.Queue.{distance}
use ast_sqlite_test.Engine.Batcher.{swap_remove}

abbrev pub accept_under : ℕ
accept_under = 10

-- An id with its `SmallSchedueldItem<f64>`
pub record Arm (H : Host) : Type 0 where
  pub id : EntryId
  pub epoch : ℕ
  pub stats : Handle
  pub item : H.F64

module _ (H : Host) where
  unfoldable pub index_of : EntryId → List (Arm H) → Option ℕ
  index_of id [] = none
  index_of id (arm ∷ arms) = if arm.id == id then some 0 else option_map suc (index_of id arms)

  unfoldable pub on_remove : EntryId → List (Arm H) → List (Arm H)
  on_remove id arms = elim (index_of id arms) [
    | none ↦ arms
    | some i ↦ elim (get_elem? arms i) [ none ↦ arms | some arm ↦ swap_remove i arm arms ]
  ]

  -- `new_with_prior` makes an arm with what is known of the entry.
  unfoldable pub on_add :
      {A : Type 0}
      → (Meta → H.Heap → H.Heap × Handle)
      → CorpusEntry A
      → List (Arm H)
      → World H
      → List (Arm H) × H.F64 × World H
  on_add new_with_prior entry arms w =
      let (heap, stats) = new_with_prior entry.meta w.heap in
      let (heap', score) = H.calculate_score stats heap in
      let arm : Arm H = record {
        id = entry.raw.id;
        epoch = H.epoch w.heap;
        stats = stats;
        item = score;
      } in
      let arms' : List (Arm H) = elim (index_of entry.raw.id arms) [
        | none ↦ arms ++ arm ∷ []
        | some i ↦ set arms i arm
      ] in
      (arms', score, record w { heap = heap' })

  unfoldable pub reset : (H.Heap → H.Heap) → List (Arm H) → World H → List (Arm H) × World H
  reset reset_body arms w = ([], record w { heap = reset_body w.heap })

  -- A score that is too old is calculated again.
  unfoldable pub freshen : ℕ → Arm H → World H → Arm H × World H
  freshen current_epoch arm w =
      let (heap, score) = H.calculate_score arm.stats w.heap in
      if leb accept_under (distance arm.epoch current_epoch)
      then (record arm { item = score; epoch = current_epoch }, record w { heap = heap })
      else (arm, w)

  module _ {A C : Type 0} (get : EntryId → C → C × Option (CorpusEntry A)) (max_weight : H.F64)
      (is_chance : H.F64 → Bool) where
    pub record Drawn : Type 0 where
      pub arms : List (Arm H)
      pub generation : List (TestableEntry (RawEntry A))
      pub corpus : C
      pub world : World H

    -- The draw of an entry that the corpus has. `random_bool` panics on what is not a chance, a
    -- number from 0 to 1, with `none`.
    unfoldable pub accept : ℕ → ℕ → Arm H → RawEntry A → Drawn → Option Drawn
    accept current_epoch rd_idx arm entry d =
        let (arm', w) = freshen current_epoch arm d.world in
        let chance = H.div arm'.item max_weight in
        let (hit, w') = flip H chance w in
        if is_chance chance
        then some (record d {
          arms = set d.arms rd_idx arm';
          generation =
              if hit
              then d.generation
                ++ attach_build_hook arm.stats (attach_hook arm.stats (Outcome.new entry)) ∷ []
              else d.generation;
          world = w';
        })
        else none

    unfoldable pub draw_at : ℕ → ℕ → Drawn → Option Drawn
    draw_at current_epoch rd_idx d = elim (get_elem? d.arms rd_idx) [
      | none ↦ some d
      | some arm ↦
          let (corpus, found) = get arm.id d.corpus in
          elim found [
            | none ↦ some (record d { corpus = corpus })
            | some entry ↦ accept current_epoch rd_idx arm entry.raw (record d { corpus = corpus })
          ]
    ]

    -- At most `rounds` rounds of the loop; `none` is a panic.
    unfoldable pub next_batch : ℕ → ℕ → ℕ → Drawn → Option Drawn
    next_batch zero size current_epoch d = some d
    next_batch (suc rounds) size current_epoch d =
        if leb size (length d.generation)
        then some d
        else (draw H 0 (length d.arms) d.world >>= λ r.
            draw_at current_epoch r.0 (record d { world = r.1 }) >>= λ d'.
            next_batch rounds size current_epoch d')
