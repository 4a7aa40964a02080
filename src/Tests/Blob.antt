-- ===== src/Tests/Blob.antt =====
-- A blob with one tree; a tree is a number, in one byte.
use ast_sqlite_test.Common.{
  ℕ, ◌≡◌, refl, Bool, true, not, ◌&&◌, List, [], ◌∷◌, ◌++◌, Option, none, some, ◌==◌, if◌then◌else◌,
  is_some, arith,
}
use ast_sqlite_test.Common.Assoc.{lookup}
use ast_sqlite_test.Core.Entry.{EntryId}
use ast_sqlite_test.Corpus.Blob.{BinaryBlob, retrieve, write}
use ast_sqlite_test.Corpus.Blob.RoundTrip.{IsValid, write_reads}

abbrev to_byte : ℕ → Option (List ℕ)
to_byte a = some (a ∷ [])

abbrev from_byte : List ℕ → Option ℕ
from_byte [] = none
from_byte (b ∷ bs) = some b

abbrev append_bytes : List ℕ → List ℕ → List ℕ × Bool
append_bytes file bytes = (file ++ bytes, true)

byte_codec : (a : ℕ) (bytes : List ℕ) → to_byte a ≡ some bytes → from_byte bytes ≡ some a
byte_codec a [] h = absurd (ground (arith, h))
byte_codec a (b ∷ bs) h = ground (arith, h)

abbrev one_tree : BinaryBlob
one_tree = record {
  index = (4, record { offset = 0; size = 1 }) ∷ [];
  file = 17 ∷ [];
  current_offset = 1;
}

one_tree-IsValid : IsValid one_tree
one_tree-IsValid = record { at_end = refl; inside = λ k slot h. ground (arith, h) }

write_reads_example :
    ((write to_byte from_byte append_bytes 9 55 one_tree).1 ≡ true)
    × IsValid (write to_byte from_byte append_bytes 9 55 one_tree).0
    × ((j : EntryId)
        → retrieve to_byte from_byte append_bytes j
            (write to_byte from_byte append_bytes 9 55 one_tree).0
          ≡ (if 9 == j && not (is_some (lookup 9 one_tree.index))
              then some 55
              else retrieve to_byte from_byte append_bytes j one_tree))
write_reads_example =
    write_reads to_byte from_byte append_bytes (λ file bytes. refl) byte_codec 9 55 (55 ∷ [])
      one_tree one_tree-IsValid refl
