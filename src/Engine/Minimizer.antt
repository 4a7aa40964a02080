-- ===== src/Engine/Minimizer.antt =====
-- crates/lsf-engine/src/minimizer.rs, `GreedyCoverage`: which results enter the corpus, and which
-- entries leave it. `ceil_ln_1p` is that of Cov/ScoredEdges.antt, `hash_feature` that of
-- Engine/Diversity.antt. A hash set is a list of its members in the order of iteration.
pub mod Acceptance
pub mod Culling
use ast_sqlite_test.Common.{
  ℕ, zero, suc, ◌+◌, ◌%◌, Bool, true, false, not, ◌&&◌, List, [], ◌∷◌, ◌++◌, Option, none, some,
  ltb, leb, ◌==◌, if◌then◌else◌, ◌>>=◌, length, map, filter,
}
use ast_sqlite_test.Common.Assoc.{Assoc, mem, lookup, insert, remove}
use ast_sqlite_test.Core.Entry.{EntryId}
use ast_sqlite_test.Cov.EdgeMap.{EdgesFound}
use ast_sqlite_test.Cov.ScoredEdges.{ScoredEdges, ScoredEntry, get_best_entries, update_if_best}
use ast_sqlite_test.Cov.ScoredEdges
use ast_sqlite_test.Engine.Diversity.{DiversityEscape, try_insert}
use ast_sqlite_test.Engine.Diversity
use ast_sqlite_test.Feedback.Outcome.{
  TestOutcome, rejected, accepted, bad, cov_increase, is_diverse,
}

abbrev pub cull_after : ℕ
cull_after = 5

pub record GreedyCoverage : Type 0 where
  pub best_edges : ScoredEdges
  pub diversity : DiversityEscape
  pub gc_rotation : Assoc ℕ

unfoldable pub new : ℕ → GreedyCoverage
new max_edges = record {
  best_edges = ScoredEdges.new max_edges;
  diversity = Diversity.new;
  gc_rotation = [];
}

abbrev pub is_empty {ℓ} : {A : Type ℓ} → List A → Bool
is_empty [] = true
is_empty (x ∷ xs) = false

module _ {Stmt : Type 0} (hash_feature : Stmt → ℕ) (ceil_ln_1p : ℕ → ℕ) where
  -- `none` is a panic of `update_if_best`.
  unfoldable pub on_add :
      GreedyCoverage
      → EntryId
      → List Stmt
      → ℕ
      → ℕ
      → EdgesFound
      → Option (GreedyCoverage × TestOutcome)
  on_add g id ast exec_time new_cov_nodes edges_found =
      let (diversity, is_diverse_entry) = try_insert hash_feature g.diversity id ast in
      let g₁ : GreedyCoverage = record g { diversity = diversity } in
      if not is_diverse_entry && is_empty edges_found.all
      then some (g₁, rejected bad)
      else if is_empty edges_found.all
      then some (g₁, accepted is_diverse)
      else (update_if_best ceil_ln_1p g.best_edges id (length ast) (length edges_found.all)
            exec_time edges_found.all
          >>= λ r.
              let g₂ : GreedyCoverage = record g₁ { best_edges = r.0 } in
              if not r.1 && not is_diverse_entry
              then some (g₂, rejected bad)
              else if ltb 0 new_cov_nodes
              then some (g₂, accepted (cov_increase new_cov_nodes))
              else some (g₂, accepted is_diverse))

-- `gc_rotation.entry(id).and_modify(|n| *n += 1).or_default()`: a `u8`
unfoldable pub rotate : EntryId → Assoc ℕ → ℕ
rotate id rotation = elim (lookup id rotation) [ none ↦ 0 | some n ↦ (n + 1) % 256 ]

-- The corpus and the scheduler are reached through `corpus.remove` and `scheduler.on_remove`.
module _ {C S : Type 0} (corpus_remove : EntryId → C → C) (on_remove : EntryId → S → S) where
  pub record Cull : Type 0 where
    pub rotation : Assoc ℕ
    pub corpus : C
    pub scheduler : S

  unfoldable pub cull_one : EntryId → Cull → Cull
  cull_one id st =
      let n = rotate id st.rotation in
      let rotation = insert id n st.rotation in
      if leb cull_after n
      then record {
        rotation = remove id rotation;
        corpus = corpus_remove id st.corpus;
        scheduler = on_remove id st.scheduler;
      }
      else record st { rotation = rotation }

  unfoldable pub cull_all : List EntryId → Cull → Cull
  cull_all [] st = st
  cull_all (id ∷ ids) st = cull_all ids (cull_one id st)

  -- `ids` and `protected` are `corpus.ids()` and `corpus.protected_ids()`.
  unfoldable pub minimize :
      GreedyCoverage → List EntryId → List EntryId → C → S → GreedyCoverage × C × S
  minimize g ids protected corpus scheduler =
      let best_entries = get_best_entries g.best_edges ++ protected ++ g.diversity.entries in
      let bad_entries = filter (λ id. not (mem id best_entries)) ids in
      let r =
        cull_all bad_entries
          (record { rotation = g.gc_rotation; corpus = corpus; scheduler = scheduler }) in
      (record g { gc_rotation = r.rotation }, r.corpus, r.scheduler)

-- `gc_rotation` is not touched.
unfoldable pub reset : GreedyCoverage → GreedyCoverage
reset g = record g {
  best_edges = record { best_entries = map (λ e. none) g.best_edges.best_entries };
  diversity = record { hashes = []; entries = [] };
}
