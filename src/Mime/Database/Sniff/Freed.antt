-- ===== src/Mime/Database/Sniff/Freed.antt =====
-- Files in src/mime/xdgmime.c that no name pattern and no rule on contents knows.
use libxdg.Base.{
  ℕ, zero, suc, ◌≡◌, refl, ap, inl, inr, not, Bool, true, false, Option, none, some, List, [], ◌∷◌,
  All, take, drop, length, ltb, some_of, get_elem?, if◌then◌else◌, length-drop, Bool-cases, arith,
}
use libxdg.Base.Text.{Bytes}
use libxdg.Mime.Unicode.{get_base_name, is_control, text_fallback}
use libxdg.Mime.Glob.Tree.{MimeWeight}
use libxdg.Mime.Glob.Hash.{lookup_file_name}
use libxdg.Mime.Magic.{
  MagicMatch, match_compare_to_data, strike, last_type, lookup_matches, lookup_data,
}
use libxdg.Mime.Table.{Entry, mime_type_equal}
use libxdg.Mime.Database.{Database}
use libxdg.Mime.Database.Sniff.{
  File, Block, new_block, fallback_loop, block_fallback, mime_type_textplain, mime_type_unknown,
  sniff, type_of_data, get_mime_type_for_data, get_mime_type_for_file, binary_or_text_fallback,
}

lookup_matches-none :
    (equal : Bytes → Bytes → Bool) (ms : List MagicMatch) (bytes : Bytes)
    → All (λ m. match_compare_to_data m bytes ≡ false) ms
    → lookup_matches equal ms bytes [] ≡ record { prio = 0; mime_type = none }
unfolding lookup_matches strike last_type
lookup_matches-none equal [] bytes h = refl
lookup_matches-none equal (m ∷ ms) bytes h = rw h.0 (lookup_matches-none equal ms bytes h.1)

drop-cons :
    (i : ℕ) (bytes : Bytes) (c : ℕ) (more : Bytes)
    → drop i bytes ≡ c ∷ more
    → (get_elem? bytes i ≡ some c) × (drop (suc i) bytes ≡ more)
drop-cons zero [] c more e = absurd (cc)
drop-cons zero (b ∷ bytes) c more e = (cc, cc)
drop-cons (suc i) [] c more e = absurd (cc)
drop-cons (suc i) (b ∷ bytes) c more e = drop-cons i bytes c more e

fallback_loop-new_block :
    (n i : ℕ) (bytes rest : Bytes)
    → drop i bytes ≡ rest
    → fallback_loop n i (new_block bytes) (length bytes)
      ≡ some (
          if not (some_of is_control (take n rest)) then mime_type_textplain else mime_type_unknown)
unfolding fallback_loop
fallback_loop-new_block zero i bytes rest e = refl
fallback_loop-new_block (suc n) i bytes [] e =
    let end : ltb i (length bytes) ≡ false = ground (arith, length-drop i bytes, ap length e) in
    rw (end, fallback_loop) refl
fallback_loop-new_block (suc n) i bytes (c ∷ more) e =
    let (here, next) = drop-cons i bytes c more e in
    let inside : ltb i (length bytes) ≡ true = ground (arith, length-drop i bytes, ap length e) in
    elim (Bool-cases (is_control c)) [
      | inl control ↦ rw (inside, fallback_loop, here, control) refl
      | inr plain ↦
          rw (inside, fallback_loop, here, plain)
            (fallback_loop-new_block n (suc i) bytes more next)
    ]

fallback_loop-freed :
    (n : ℕ) (block : Block) (len : ℕ)
    → block.is_freed ≡ true
    → fallback_loop (suc n) 0 block (suc len) ≡ none
unfolding fallback_loop
fallback_loop-freed n block len freed =
    let inside : ltb 0 (suc len) ≡ true = ground arith in rw (inside, fallback_loop, freed) refl

module _ (qsort : List MimeWeight → List MimeWeight) (fnmatch : Bytes → Bytes → Bool)
    (bsearch : Bytes → List Entry → Option Entry) (db : Database) where
  -- Where no rule matches some data that is not empty, its type is that of the fallback, with priority
  -- 0, and the loop of the fallback finds the same type in a block that holds the data. But the lookup
  -- of a regular file is a fault if no name pattern matches it and the first `max_extent` bytes that
  -- are read from it are the data, since the block is freed before the loop reads it.
  pub get_mime_type_for_file-freed :
      (file_name : Bytes) (c : ℕ) (bytes rest : Bytes) (file : File)
      → All (λ m. match_compare_to_data m (c ∷ bytes) ≡ false) db.global_magic.match_list
      → lookup_file_name qsort fnmatch db.global_hash (get_base_name file_name) 5 ≡ some []
      → file.is_regular ≡ true
      → file.reading ≡ some (some rest)
      → take db.global_magic.max_extent rest ≡ c ∷ bytes
      → (get_mime_type_for_data qsort fnmatch bsearch db (c ∷ bytes)
          ≡ (binary_or_text_fallback (c ∷ bytes), 0))
        × (block_fallback (new_block (c ∷ bytes)) (length (c ∷ bytes))
            ≡ some (binary_or_text_fallback (c ∷ bytes)))
        × (get_mime_type_for_file qsort fnmatch bsearch db file_name (some file) ≡ none)
  unfolding get_mime_type_for_data get_mime_type_for_file sniff type_of_data block_fallback
      fallback_loop lookup_data binary_or_text_fallback text_fallback
  get_mime_type_for_file-freed file_name c bytes rest file no_match no_name regular reading short =
      let found =
        lookup_matches-none (mime_type_equal bsearch db.alias_list) db.global_magic.match_list
          (c ∷ bytes) no_match in
      (
        rw (found, get_mime_type_for_data)
            (ap (λ s. (binary_or_text_fallback (c ∷ bytes), s.prio)) found),
        fallback_loop-new_block 32 0 (c ∷ bytes) (c ∷ bytes) refl,
        rw (no_name, get_mime_type_for_file, regular, reading, short, type_of_data, found)
            (fallback_loop-freed 31 (record { contents = c ∷ bytes; is_freed = true })
              (length bytes) refl),
      )
