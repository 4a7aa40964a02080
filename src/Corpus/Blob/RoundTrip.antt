-- ===== src/Corpus/Blob/RoundTrip.antt =====
-- What is written to the blob is read back.
use ast_sqlite_test.Common.{
  ℕ, zero, suc, ◌+◌, ◌≤◌, ◌≡◌, refl, Bool, true, List, [], ◌∷◌, ◌++◌, Option, none, some, leb, ◌==◌,
  if◌then◌else◌, length, take, drop, arith, length-append, Option-cases, Bool-cases, inl, inr,
  is_some, not, ◌&&◌, ap, ◌∙◌, sym,
}
use ast_sqlite_test.Common.Assoc.{lookup, insert, lookup-insert}
use ast_sqlite_test.Core.Entry.{EntryId}
use ast_sqlite_test.Corpus.Blob.{FileSlot, BinaryBlob, read_exact_at, retrieve, append, write}

pub record IsValid (b : BinaryBlob) : Type 0 where
  pub at_end : b.current_offset ≡ length b.file
  pub inside :
      (k : EntryId) (slot : FileSlot)
      → lookup k b.index ≡ some slot
      → slot.offset + slot.size ≤ length b.file

take-drop_before :
    (m n : ℕ) (xs ys : List ℕ) → m + n ≤ length xs → take n (drop m (xs ++ ys)) ≡ take n (drop m xs)
take-drop_before zero zero xs ys h = refl
take-drop_before zero (suc n) [] ys h = absurd (omega arith)
take-drop_before zero (suc n) (x ∷ xs) ys h =
    ap (◌∷◌ x) (take-drop_before zero n xs ys (omega arith))
take-drop_before (suc m) n [] ys h = absurd (omega arith)
take-drop_before (suc m) n (x ∷ xs) ys h = take-drop_before m n xs ys (omega arith)

take_whole : (xs : List ℕ) → take (length xs) xs ≡ xs
take_whole [] = refl
take_whole (x ∷ xs) = ap (◌∷◌ x) (take_whole xs)

take-drop_after : (xs ys : List ℕ) → take (length ys) (drop (length xs) (xs ++ ys)) ≡ ys
take-drop_after [] ys = take_whole ys
take-drop_after (x ∷ xs) ys = take-drop_after xs ys

module _ {A : Type 0} (to_allocvec : A → Option (List ℕ)) (from_bytes : List ℕ → Option A)
    (write_all : List ℕ → List ℕ → List ℕ × Bool)
    (appends : (file bytes : List ℕ) → write_all file bytes ≡ (file ++ bytes, true))
    (codec : (a : A) (bytes : List ℕ)
      → to_allocvec a ≡ some bytes
      → from_bytes bytes ≡ some a) where
  retrieve_found :
      (j : EntryId) (b : BinaryBlob) (slot : FileSlot) (read : List ℕ)
      → lookup j b.index ≡ some slot
      → slot.offset + slot.size ≤ length b.file
      → take slot.size (drop slot.offset b.file) ≡ read
      → retrieve to_allocvec from_bytes write_all j b ≡ from_bytes read
  unfolding retrieve read_exact_at
  retrieve_found j b slot read found low same =
      let fits : leb (slot.offset + slot.size) (length b.file) ≡ true = ground (arith, low) in
      rw (found, retrieve) (rw fits (ap from_bytes same))

  retrieve_gone :
      (j : EntryId) (b : BinaryBlob)
      → lookup j b.index ≡ none
      → retrieve to_allocvec from_bytes write_all j b ≡ none
  unfolding retrieve
  retrieve_gone j b gone = rw (gone, retrieve) refl

  module _ (id : EntryId) (bytes : List ℕ) (b : BinaryBlob) (v : IsValid b) where
    abbrev longer : BinaryBlob
    longer = record {
      index = insert id (record { offset = b.current_offset; size = length bytes }) b.index;
      file = b.file ++ bytes;
      current_offset = b.current_offset + length bytes;
    }

    append_lem : append to_allocvec from_bytes write_all id bytes b ≡ (longer, true)
    unfolding append
    append_lem = rw (appends b.file bytes) refl

    longer_slot :
        (k : EntryId)
        → lookup k longer.index ≡ (
            if id == k
            then some (record { offset = b.current_offset; size = length bytes })
            else lookup k b.index)
    longer_slot k = lookup-insert id k _ b.index

    longer-IsValid : IsValid longer
    longer-IsValid = record {
      at_end = omega (arith, v.at_end, length-append b.file bytes);
      inside = λ k slot h. elim (Bool-cases (id == k)) [
        | inl e ↦
            let same : record { offset = b.current_offset; size = length bytes } ≡ slot =
              ground (arith, longer_slot k, h, e) in
            rw (← same) (omega (arith, v.at_end, length-append b.file bytes))
        | inr ne ↦
            let low = v.inside k slot (ground (arith, longer_slot k, h, ne)) in
            omega (arith, low, length-append b.file bytes)
      ];
    }

    longer_reads :
        (j : EntryId)
        → retrieve to_allocvec from_bytes write_all j longer
          ≡ (if id == j then from_bytes bytes else retrieve to_allocvec from_bytes write_all j b)
    longer_reads j = elim (Bool-cases (id == j)) [
      | inl e ↦
          let here : lookup j longer.index
              ≡ some (record { offset = b.current_offset; size = length bytes }) =
            ground (arith, longer_slot j, e) in
          retrieve_found j longer (record { offset = b.current_offset; size = length bytes }) bytes
            here (longer-IsValid.inside j _ here) (rw v.at_end (take-drop_after b.file bytes))
          ∙ rw e refl
      | inr ne ↦ elim (Option-cases (lookup j b.index)) [
        | inl gone ↦
            retrieve_gone j longer (ground (arith, longer_slot j, ne, gone))
            ∙ rw ne (sym (retrieve_gone j b gone))
        | inr (slot, found) ↦
            let low = v.inside j slot found in
            let here : lookup j longer.index ≡ some slot =
              ground (arith, longer_slot j, ne, found) in
            retrieve_found j longer slot _ here (longer-IsValid.inside j slot here)
              (take-drop_before slot.offset slot.size b.file bytes low)
            ∙ rw ne (sym (retrieve_found j b slot _ found low refl))
      ]
    ]

  -- On a valid blob, with a codec that reads what it writes and a file that takes what is
  -- appended: a write of a tree that the codec can write goes through and leaves a valid blob; a
  -- new id then reads back as the tree, an id that was there keeps the tree that it had, and
  -- every other id reads as before.
  pub write_reads :
      (id : EntryId) (a : A) (bytes : List ℕ) (b : BinaryBlob)
      → IsValid b
      → to_allocvec a ≡ some bytes
      → ((write to_allocvec from_bytes write_all id a b).1 ≡ true)
        × IsValid (write to_allocvec from_bytes write_all id a b).0
        × ((j : EntryId)
            → retrieve to_allocvec from_bytes write_all j
                (write to_allocvec from_bytes write_all id a b).0
              ≡ (if id == j && not (is_some (lookup id b.index))
                  then some a
                  else retrieve to_allocvec from_bytes write_all j b))
  unfolding write
  write_reads id a bytes b v h = elim (Option-cases (lookup id b.index)) [
    | inr (slot, found) ↦ rw (found, write) (refl, v, λ j. ground arith)
    | inl gone ↦
        rw (gone, write)
          (rw h (
            rw (append_lem id bytes b v) (
              refl,
              longer-IsValid id bytes b v,
              λ j. longer_reads id bytes b v j ∙ rw (codec a bytes h) (ground arith),
            )))
  ]
