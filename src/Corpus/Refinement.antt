-- ===== src/Corpus/Refinement.antt =====
-- crates/lsf-engine/src/corpus.rs, `CorpusHandler`: the requests that the engine makes, and the
-- two corpora that serve them. The plain map in memory is the specification of the other.
use ast_sqlite_test.Common.{
  ◌≡◌, refl, ◌∙◌, sym, ap, Bool, true, List, [], ◌∷◌, Option, none, some, ◌==◌, if◌then◌else◌,
  is_some, arith, not, ◌&&◌, inl, inr, Option-cases,
}
use mathlib.Core.Path.{ap₂}
use ast_sqlite_test.Common.Assoc.{lookup, lookup-insert, lookup-remove}
use ast_sqlite_test.Core.Entry.{EntryId, CorpusEntry}
use ast_sqlite_test.Corpus.Containers.{IndexMap, ScoreQueue}
use ast_sqlite_test.Corpus.Storage.{StorageBackend, IsReliable}
use ast_sqlite_test.Corpus.Memory as Memory
use ast_sqlite_test.Corpus.Dynamic as Dynamic
use ast_sqlite_test.Corpus.Dynamic.{DynamicCorpus}
use ast_sqlite_test.Corpus.Dynamic.Invariant.{view, IsValid}
use ast_sqlite_test.Corpus.Dynamic.Reads.{get-view}
use ast_sqlite_test.Corpus.Dynamic.Writes.{update-view}
use ast_sqlite_test.Corpus.Dynamic.Inserts.{insert-view}
use ast_sqlite_test.Corpus.Dynamic.Removal.{remove-view, clear-view, resize-view, new-IsValid}

pub data Request (A Score : Type 0) : Type 0 where
  insert : CorpusEntry A → Score → Request A Score
  remove get : EntryId → Request A Score
  update : EntryId → Score → Request A Score
  resize clear : Request A Score

module _ {A Score : Type 0} where
  unfoldable pub serve_memory :
      Request A Score
      → Memory.InMemory (CorpusEntry A)
      → Memory.InMemory (CorpusEntry A) × Option (CorpusEntry A)
  unfolding Memory.insert_new Memory.remove_entry Memory.get Memory.update Memory.resize
      Memory.clear
  serve_memory (insert e score) m = (Memory.insert_new e score m, none)
  serve_memory (remove id) m = (Memory.remove_entry id m, none)
  serve_memory (get id) m = (m, Memory.get id m)
  serve_memory (update id score) m = (Memory.update id score m, none)
  serve_memory resize m = (Memory.resize m, none)
  serve_memory clear m = (Memory.clear m, none)

  -- What a corpus answers to a list of requests.
  unfoldable pub run :
      {C : Type 0}
      → (Request A Score → C → C × Option (CorpusEntry A))
      → List (Request A Score)
      → C
      → List (Option (CorpusEntry A))
  run serve [] c = []
  run serve (r ∷ rs) c = (serve r c).1 ∷ run serve rs (serve r c).0

  -- No request inserts an id that the corpus has.
  abbrev pub fresh : Request A Score → Memory.InMemory (CorpusEntry A) → Bool
  fresh (insert e score) m = not (is_some (lookup e.raw.id m.inner))
  fresh (remove id) m = true
  fresh (get id) m = true
  fresh (update id score) m = true
  fresh resize m = true
  fresh clear m = true

  unfoldable pub all_fresh : List (Request A Score) → Memory.InMemory (CorpusEntry A) → Bool
  all_fresh [] m = true
  all_fresh (r ∷ rs) m = fresh r m && all_fresh rs (serve_memory r m).0

module _ {A Score : Type 0} {below : Score → Score → Bool} (M : IndexMap A)
    (Q : ScoreQueue Score below) (D : StorageBackend A) where
  unfoldable pub serve_dynamic :
      Request A Score → DynamicCorpus M Q D → DynamicCorpus M Q D × Option (CorpusEntry A)
  serve_dynamic (insert e score) c = (Dynamic.insert_new M Q D e score c, none)
  serve_dynamic (remove id) c = (Dynamic.remove_entry M Q D id c, none)
  serve_dynamic (get id) c = Dynamic.get M Q D id c
  serve_dynamic (update id score) c = (Dynamic.update M Q D id score c, none)
  serve_dynamic resize c = (Dynamic.resize M Q D c, none)
  serve_dynamic clear c = (Dynamic.clear M Q D c, none)

  module _ (R : IsReliable D) where
    record Stands (c : DynamicCorpus M Q D) (m : Memory.InMemory (CorpusEntry A)) : Type 0 where
      pub valid : IsValid M Q D R c
      pub agree : (k : EntryId) → view M Q D R k c ≡ lookup k m.inner

    unindexed :
        (k : EntryId) (c : DynamicCorpus M Q D)
        → IsValid M Q D R c
        → view M Q D R k c ≡ none
        → lookup k c.index ≡ none
    unindexed k c v gone = elim (Option-cases (lookup k c.index)) [
      | inl e ↦ e
      | inr (d, known) ↦ absurd (
          let there = v.sound.placed k d.cached (rw known refl) refl in
          ground (arith, known, gone, there))
    ]

    serve-Stands :
        (r : Request A Score) (c : DynamicCorpus M Q D) (m : Memory.InMemory (CorpusEntry A))
        → Stands c m
        → fresh r m ≡ true
        → ((serve_dynamic r c).1 ≡ (serve_memory r m).1)
          × Stands (serve_dynamic r c).0 (serve_memory r m).0
    unfolding serve_dynamic serve_memory Memory.insert_new Memory.remove_entry Memory.get
        Memory.update Memory.resize Memory.clear
    serve-Stands (insert e score) c m s f =
        let absent : lookup e.raw.id m.inner ≡ none = ground (arith, f) in
        let (valid, views) =
          insert-view M Q D R e score c s.valid
            (unindexed e.raw.id c s.valid (s.agree e.raw.id ∙ absent)) in
        (
          refl,
          record {
            valid = valid;
            agree = λ k.
                views k
                ∙ ap (λ rest. if e.raw.id == k then some e else rest) (s.agree k)
                ∙ sym (lookup-insert e.raw.id k e m.inner);
          },
        )
    serve-Stands (remove id) c m s f =
        let (valid, views) = remove-view M Q D R id c s.valid in
        (
          refl,
          record {
            valid = valid;
            agree = λ k.
                views k
                ∙ ap (λ rest. if id == k then none else rest) (s.agree k)
                ∙ sym (lookup-remove id k m.inner);
          },
        )
    serve-Stands (get id) c m s f =
        let (read, valid, views) = get-view M Q D R id c s.valid in
        (read ∙ s.agree id, record { valid = valid; agree = λ k. views k ∙ s.agree k })
    serve-Stands (update id score) c m s f =
        let (valid, views) = update-view M Q D R id score c s.valid in
        (refl, record { valid = valid; agree = λ k. views k ∙ s.agree k })
    serve-Stands resize c m s f =
        let (valid, views, grows) = resize-view M Q D R c s.valid in
        (refl, record { valid = valid; agree = λ k. views k ∙ s.agree k })
    serve-Stands clear c m s f =
        let (valid, views) = clear-view M Q D R c s.valid in
        (refl, record { valid = valid; agree = views })

    run-Stands :
        (rs : List (Request A Score)) (c : DynamicCorpus M Q D)
        (m : Memory.InMemory (CorpusEntry A))
        → Stands c m
        → all_fresh rs m ≡ true
        → run serve_dynamic rs c ≡ run serve_memory rs m
    unfolding run all_fresh
    run-Stands [] c m s f = refl
    run-Stands (r ∷ rs) c m s f =
        let (same, next) = serve-Stands r c m s (ground (arith, f)) in
        ap₂ (◌∷◌) same
          (run-Stands rs (serve_dynamic r c).0 (serve_memory r m).0 next (ground (arith, f)))

    -- From the start, on any backend that is reliable, and as long as no request inserts an id
    -- that is there, the corpus with its caches answers a list of inserts, removals, readings,
    -- updates, resizes and clears as the plain map in memory does.
    pub run-refines :
        (backend : D.Backend) (rs : List (Request A Score))
        → all_fresh rs Memory.new ≡ true
        → run serve_dynamic rs (Dynamic.new M Q D backend) ≡ run serve_memory rs Memory.new
    unfolding Memory.new Dynamic.new
    run-refines backend rs f =
        run-Stands rs (Dynamic.new M Q D backend) Memory.new
          (record { valid = new-IsValid M Q D R backend; agree = λ k. refl }) f
