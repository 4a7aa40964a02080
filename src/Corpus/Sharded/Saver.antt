-- ===== src/Corpus/Sharded/Saver.antt =====
-- The saver answers as the backend that it passes everything on to, and logs what is written.
use ast_sqlite_test.Common.{◌≡◌, refl, ◌∙◌, ap, Bool, List, [], ◌∷◌, ◌++◌, Option}
use ast_sqlite_test.Core.Entry.{EntryId}
use ast_sqlite_test.Corpus.Storage.{StorageBackend, IsReliable}
use ast_sqlite_test.Corpus.Sharded.{
  SqlSaver, SqlSaverCommand, write_command, clear_command, replay, saver_retrieve, saver_write,
  saver_clear, sql_saver,
}

-- A saver over a backend that the corpus can rely on is one that it can rely on.
pub sql_saver-IsReliable :
    (A : Type 0) (D : StorageBackend A) → IsReliable D → IsReliable (sql_saver D)
unfolding saver_retrieve saver_write saver_clear
sql_saver-IsReliable A D r = record {
  stored = λ k s. r.stored k s.backend;
  write_ok = λ k a s. r.write_ok k a s.backend;
  stored-write = λ k j a s. r.stored-write k j a s.backend;
  retrieve_stored = λ k s. r.retrieve_stored k s.backend;
  stored-retrieve = λ k j s. r.stored-retrieve k j s.backend;
}

-- What a backend is asked, and what it answers
pub data Request (A : Type 0) : Type 0 where
  ask : EntryId → Request A
  save : EntryId → A → Request A
  wipe : Request A

pub data Answer (A : Type 0) : Type 0 where
  found : Option A → Answer A
  saved : Bool → Answer A
  wiped : Answer A

abbrev pub serve_one :
    {A : Type 0} (D : StorageBackend A) → Request A → D.Backend → D.Backend × Answer A
serve_one D (ask id) b = let (b', a) = D.retrieve id b in (b', found a)
serve_one D (save id ast) b = let (b', done) = D.write id ast b in (b', saved done)
serve_one D wipe b = (D.clear b, wiped)

abbrev pub serve_all :
    {A : Type 0} (D : StorageBackend A) → List (Request A) → D.Backend → D.Backend × List (Answer A)
serve_all D [] b = (b, [])
serve_all D (r ∷ rs) b =
    let (b₁, a) = serve_one D r b in let (b₂, later) = serve_all D rs b₁ in (b₂, a ∷ later)

-- The trees that are written after the last clearing, after those before
abbrev pub written_since : {A : Type 0} → List (Request A) → List A → List A
written_since [] before = before
written_since (ask id ∷ rs) before = written_since rs before
written_since (save id ast ∷ rs) before = written_since rs (before ++ ast ∷ [])
written_since (wipe ∷ rs) before = written_since rs []

replay-append :
    {A : Type 0} (cs ds : List (SqlSaverCommand A)) (file : List A)
    → replay (cs ++ ds) file ≡ replay ds (replay cs file)
unfolding replay
replay-append [] ds file = refl
replay-append (write_command ast ∷ cs) ds file = replay-append cs ds (file ++ ast ∷ [])
replay-append (clear_command ∷ cs) ds file = replay-append cs ds []

-- Over any requests the saver answers as its backend alone would, and leaves it as they would; and
-- the file that its thread makes of what was sent, over an empty one, holds the trees written since
-- the last clearing, in order, whether the backend took them or not, those sent before included.
pub sql_saver_serves :
    {A : Type 0} (D : StorageBackend A) (rs : List (Request A)) (s : SqlSaver D)
    → ((serve_all (sql_saver D) rs s).1 ≡ (serve_all D rs s.backend).1)
      × ((serve_all (sql_saver D) rs s).0.backend ≡ (serve_all D rs s.backend).0)
      × (replay (serve_all (sql_saver D) rs s).0.sent [] ≡ written_since rs (replay s.sent []))
unfolding saver_retrieve saver_write saver_clear replay
sql_saver_serves D [] s = (refl, refl, refl)
sql_saver_serves D (ask id ∷ rs) s =
    let (same, left, file) = sql_saver_serves D rs (saver_retrieve D id s).0 in
    (ap (◌∷◌ (found (D.retrieve id s.backend).1)) same, left, file)
sql_saver_serves D (save id ast ∷ rs) s =
    let (same, left, file) = sql_saver_serves D rs (saver_write D id ast s).0 in
    (
      ap (◌∷◌ (saved (D.write id ast s.backend).1)) same,
      left,
      file ∙ ap (written_since rs) (replay-append s.sent (write_command ast ∷ []) []),
    )
sql_saver_serves D (wipe ∷ rs) s =
    let (same, left, file) = sql_saver_serves D rs (saver_clear D s) in
    (
      ap (◌∷◌ wiped) same,
      left,
      file ∙ ap (written_since rs) (replay-append s.sent (clear_command ∷ []) []),
    )
