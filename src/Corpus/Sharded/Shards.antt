-- ===== src/Corpus/Sharded/Shards.antt =====
-- A tree that is written is read back, until the cache is cleared.
use ast_sqlite_test.Common.{
  ℕ, ◌*◌, ◌/◌, ◌%◌, ◌≡◌, ◌≢◌, ◌<◌, ◌⊎◌, refl, sym, ◌∙◌, ap, true, false, List, Option, none, some,
  ◌==◌, if◌then◌else◌, arith, Bool-cases, Option-cases, inl, inr,
}
use ast_sqlite_test.Common.Assoc.{mem}
use ast_sqlite_test.Core.Entry.{EntryId}
use ast_sqlite_test.Corpus.Sharded.{
  Place, Text, id_to_shards, shard_index, path_from_id, Disk, print, ShardedDiskCache,
  ensure_dir_exists, clear, retrieve, write,
}

-- An index is in range of the bits, and tells the directory.
pub shard_index_lem :
    (id : EntryId)
    → (shard_index id < 1024 * 64)
      × ((j : EntryId) → shard_index j ≡ shard_index id → id_to_shards j ≡ id_to_shards id)
unfolding shard_index id_to_shards
shard_index_lem id =
    let small : (n : ℕ) → n % 256 < 256 = λ n. omega arith in
    (
      omega (arith, small id, small (id / 256)),
      λ j h.
          let first : j % 256 ≡ id % 256 = omega (arith, h, small (j / 256), small (id / 256)) in
          let second : j / 256 % 256 ≡ id / 256 % 256 =
            omega (arith, h, small (j / 256), small (id / 256)) in
          cc (first, second),
    )

module _ (D : Disk) where
  -- A directory whose bit is set is there.
  abbrev pub IsSynced : ShardedDiskCache D → Type 0
  IsSynced c =
      (id : EntryId)
      → mem (shard_index id) c.created_shards ≡ true
      → D.has_shard (id_to_shards id) c.files ≡ true

  ensure_dir_exists-IsSynced :
      (id : EntryId) (c : ShardedDiskCache D) → IsSynced c → IsSynced (ensure_dir_exists D id c).0
  unfolding ensure_dir_exists
  ensure_dir_exists-IsSynced id c v = elim (Bool-cases (mem (shard_index id) c.created_shards)) [
    | inl t ↦ rw (t, ensure_dir_exists) v
    | inr f ↦ elim (Bool-cases (D.create_dir_all (id_to_shards id) c.files).1) [
      | inl made ↦
          rw (f, ensure_dir_exists)
            (rw (made, ensure_dir_exists)
              (λ j m. elim (Bool-cases (shard_index id == shard_index j)) [
                | inl same ↦
                    let dirs = (shard_index_lem id).1 j (ground (arith, same)) in
                    rw dirs (D.dir_made (id_to_shards id) c.files made)
                | inr other ↦
                    D.dirs_kept (id_to_shards id) (id_to_shards j) c.files
                      (v j (ground (arith, m, other)))
              ]))
      | inr failed ↦
          rw (f, ensure_dir_exists)
            (rw (failed, ensure_dir_exists)
              (λ j m. D.dirs_kept (id_to_shards id) (id_to_shards j) c.files (v j m)))
    ]
  ]

  ensure_dir_exists-content :
      (id j : EntryId) (c : ShardedDiskCache D)
      → D.content (path_from_id j) (ensure_dir_exists D id c).0.files
        ≡ D.content (path_from_id j) c.files
  unfolding ensure_dir_exists
  ensure_dir_exists-content id j c = elim (Bool-cases (mem (shard_index id) c.created_shards)) [
    | inl t ↦ rw (t, ensure_dir_exists) refl
    | inr f ↦ elim (Bool-cases (D.create_dir_all (id_to_shards id) c.files).1) [
      | inl made ↦
          rw (f, ensure_dir_exists)
            (rw (made, ensure_dir_exists) (D.files_kept (id_to_shards id) (path_from_id j) c.files))
      | inr failed ↦
          rw (f, ensure_dir_exists)
            (rw (failed, ensure_dir_exists)
              (D.files_kept (id_to_shards id) (path_from_id j) c.files))
    ]
  ]

  module _ {Statement : Type 0} (display : Statement → Text)
      (parse_sql : Text → Option (List Statement)) where
    write-IsSynced :
        (id : EntryId) (ast : List Statement) (c : ShardedDiskCache D)
        → IsSynced c
        → IsSynced (write D display parse_sql id ast c).0
    unfolding write
    write-IsSynced id ast c v =
        let c₁ = (ensure_dir_exists D id c).0 in
        let v₁ = ensure_dir_exists-IsSynced id c v in
        elim (Bool-cases (ensure_dir_exists D id c).1) [
          | inl t ↦
              rw (t, write)
                (λ j m.
                  rw (D.new_dirs (path_from_id id) (print display ast) (id_to_shards j) c₁.files)
                    (v₁ j m))
          | inr f ↦ rw (f, write) v₁
        ]

    -- A write that succeeds created the file
    write_created :
        (id : EntryId) (ast : List Statement) (c : ShardedDiskCache D)
        → (write D display parse_sql id ast c).1 ≡ true
        → (D.content (path_from_id id) c.files ≡ none)
          × ((j : EntryId)
              → D.content (path_from_id j) (write D display parse_sql id ast c).0.files ≡ (
                  if id == j then some (print display ast) else D.content (path_from_id j) c.files))
    unfolding write path_from_id
    write_created id ast c h = elim (Bool-cases (ensure_dir_exists D id c).1) [
      | inr f ↦ absurd (ground (arith, h, f))
      | inl t ↦
          let c₁ = (ensure_dir_exists D id c).0 in
          let written : (D.create_new (path_from_id id) (print display ast) c₁.files).1 ≡ true =
            ground (arith, h, t) in
          (
            sym (ensure_dir_exists-content id id c)
                ∙ (D.new_only (path_from_id id) (print display ast) c₁.files written).1,
            λ j.
                rw (t, write)
                  (D.new_content (path_from_id id) (path_from_id j) (print display ast) c₁.files
                      written
                    ∙ ap (λ o. if id == j then some (print display ast) else o)
                        (ensure_dir_exists-content id j c)),
          )
    ]

    module _ (dirs : (s : ℕ × ℕ) (f : D.Files) → (D.create_dir_all s f).1 ≡ true)
        (room : (p : Place) (t : Text) (f : D.Files)
          → D.has_shard p.0 f ≡ true
          → D.content p f ≡ none
          → (D.create_new p t f).1 ≡ true) where
      ensure_dir_exists_marks :
          (id : EntryId) (c : ShardedDiskCache D)
          → ((ensure_dir_exists D id c).1 ≡ true)
            × (mem (shard_index id) (ensure_dir_exists D id c).0.created_shards ≡ true)
      unfolding ensure_dir_exists
      ensure_dir_exists_marks id c = elim (Bool-cases (mem (shard_index id) c.created_shards)) [
        | inl t ↦ rw (t, ensure_dir_exists) (refl, t)
        | inr f ↦
            rw (f, ensure_dir_exists)
              (rw (dirs (id_to_shards id) c.files, ensure_dir_exists) (refl, ground arith))
      ]

      write_goes :
          (id : EntryId) (ast : List Statement) (c : ShardedDiskCache D)
          → IsSynced c
          → D.content (path_from_id id) c.files ≡ none
          → (write D display parse_sql id ast c).1 ≡ true
      unfolding write path_from_id
      write_goes id ast c v free =
          let c₁ = (ensure_dir_exists D id c).0 in
          let (ensured, marked) = ensure_dir_exists_marks id c in
          rw (ensured, write)
            (room (path_from_id id) (print display ast) c₁.files
              (ensure_dir_exists-IsSynced id c v id marked)
              (ensure_dir_exists-content id id c ∙ free))

      -- On a file system that makes directories, and files where there is room for them, for a tree that
      -- is read back from its text and a cache whose set bits stand for directories that are there: the
      -- cache stays one; where the id has no file yet, the write succeeds, the tree is read back, what
      -- is read at other ids is what was, and to write a tree at the same id again fails; where the id
      -- has a file, the write fails.
      pub write_lasts :
          (id : EntryId) (ast ast' : List Statement) (c : ShardedDiskCache D)
          → parse_sql (print display ast) ≡ some ast
          → IsSynced c
          → IsSynced (write D display parse_sql id ast c).0
            × (((D.content (path_from_id id) c.files ≡ none)
                  × ((write D display parse_sql id ast c).1 ≡ true)
                  × ((j : EntryId)
                      → retrieve D display parse_sql j (write D display parse_sql id ast c).0
                        ≡ (if id == j then some ast else retrieve D display parse_sql j c))
                  × ((write D display parse_sql id ast' (write D display parse_sql id ast c).0).1
                      ≡ false))
                ⊎ ((D.content (path_from_id id) c.files ≢ none)
                    × ((write D display parse_sql id ast c).1 ≡ false)))
      unfolding retrieve
      write_lasts id ast ast' c parses v = (
        write-IsSynced id ast c v,
        elim (Option-cases (D.content (path_from_id id) c.files)) [
          | inr (t, old) ↦ inr (
            (λ gone. absurd (ground (arith, old, gone))),
            elim (Bool-cases (write D display parse_sql id ast c).1) [
              | inr failed ↦ failed
              | inl done ↦ absurd (ground (arith, old, (write_created id ast c done).0))
            ],
          )
          | inl free ↦
              let done = write_goes id ast c v free in
              let (was_new, now) = write_created id ast c done in
              inl (
                free,
                done,
                (λ j. elim (Bool-cases (id == j)) [
                  | inl same ↦ ground (arith, now j, same, parses)
                  | inr other ↦ ground (arith, now j, other)
                ]),
                elim (Bool-cases
                    (write D display parse_sql id ast' (write D display parse_sql id ast c).0).1) [
                      | inr failed ↦ failed
                      | inl again ↦ absurd (
                          ground (
                            arith,
                            now id,
                            (write_created id ast' (write D display parse_sql id ast c).0 again).0,
                          ))
                    ],
              )
        ],
      )

    -- After a clear that goes through, a write to a directory that was made before fails: its bit is still set, so it is
    -- not made again.
    pub write_cleared :
        (id : EntryId) (ast : List Statement) (c c' : ShardedDiskCache D)
        → mem (shard_index id) c.created_shards ≡ true
        → clear D c ≡ some c'
        → (write D display parse_sql id ast c').1 ≡ false
    unfolding write ensure_dir_exists clear path_from_id
    write_cleared id ast c c' made h = elim (Bool-cases (D.remove_dir_all c.files).1) [
      | inr f ↦ absurd (ground (arith, h, f))
      | inl t ↦
          let files = (D.remove_dir_all c.files).0 in
          let cleared : c' ≡ record c { files = files } = ground (arith, h, t) in
          rw cleared (
            rw (made, write)
              (elim (Bool-cases (D.create_new (path_from_id id) (print display ast) files).1) [
                | inr failed ↦ failed
                | inl done ↦ absurd (
                    ground (
                      arith,
                      D.removed (id_to_shards id) c.files t,
                      D.new_only (path_from_id id) (print display ast) files done,
                    ))
              ]))
    ]
