-- ===== src/Tests/Globs.antt =====
-- The table of patterns of src/mime/xdgmimeglob.c with a few patterns.
use mathlib.Core.List.{reverse}
use libxdg.Base.{
  ℕ, ◌+◌, ◌≡◌, ◌≢◌, refl, Bool, true, false, none, some, List, [], ◌∷◌, ◌++◌, leb, All, arith,
}
use libxdg.Base.Int.{pos, pos_part, neg_part}
use libxdg.Base.Sort.{IsQsort, insertion_sort, insertion_sort-IsQsort}
use libxdg.Base.Text.{Bytes, codes}
use libxdg.Mime.Unicode.{
  utf8_skip, convert_to_ucs4, ucs4_from, utf8_to_ucs4, reverse_ucs4, reverse_loop, swap_ends,
}
use libxdg.Mime.Unicode.Decode.{encode_all}
use libxdg.Mime.Glob.Tree.{
  GlobEntry, HashNode, nil, node, blank, label_of, MimeWeight, insert_ucs4, insert_char, set_end,
  lookup_node,
}
use libxdg.Mime.Glob.Tree.Stored.{stored, add_entry}
use libxdg.Mime.Glob.Tree.Ordered.{IsTree}
use libxdg.Mime.Glob.Tree.Entries.{insert_ucs4-stored}
use libxdg.Mime.Glob.Tree.Lookup.{longest_hits, search_keys, lookup_node-longest}
use libxdg.Mime.Glob.Hash.{
  GlobItem, GlobHash, empty_hash, star, determine_type, type_loop, append_glob, append_as,
  insert_text, lookup_file_name,
}
use libxdg.Mime.Glob.Hash.Kinds.{glob_kind, determine_type-glob_kind}
use libxdg.Mime.Glob.Hash.Search.{
  Heavier, types_of_name, lookup_file_name-types, lookup_file_name-overflow,
}
use libxdg.Mime.Glob.Hash.Append.{append_glob-simple}
use libxdg.Mime.Glob.Hash.Found.{append_glob-lookup}

abbrev entry : GlobEntry
entry = record { mime_type = codes "a/b"; weight = pos 50; case_sensitive = false }

abbrev other : GlobEntry
other = record { mime_type = codes "c/d"; weight = pos 60; case_sensitive = false }

abbrev item : GlobItem
item = record { text = codes "x?"; entry = entry }

abbrev heavier_first : MimeWeight → MimeWeight → Bool
heavier_first a b =
    leb (pos_part b.weight + neg_part a.weight) (pos_part a.weight + neg_part b.weight)

abbrev qsort : List MimeWeight → List MimeWeight
qsort = insertion_sort heavier_first

qsort-IsQsort : IsQsort Heavier qsort
qsort-IsQsort =
    insertion_sort-IsQsort heavier_first Heavier (λ x y z h k. omega arith) (λ x y h. ground arith)
      (λ x y h. ground arith)

-- A match for every pattern and name.
abbrev every : Bytes → Bytes → Bool
every p n = true

-- The tree of the pattern "*.c".
abbrev dot_c : HashNode
dot_c = node b'c' blank nil (node b'.' (label_of entry) nil nil)

abbrev table : GlobHash
table = record { literal_list = []; simple_node = dot_c; full_list = item ∷ [] }

insert_ucs4-stored_example :
    (n' : HashNode) × (insert_ucs4 (codes "c.") other dot_c ≡ some n')
    × IsTree n'
    × (stored n' (codes "c.") ≡ add_entry other (stored dot_c (codes "c.")))
    × ((key : List ℕ) → All (λ x. x ≢ 0) key → codes "c." ≢ key → stored n' key ≡ stored dot_c key)
insert_ucs4-stored_example =
    insert_ucs4-stored (codes "c.") other dot_c (ground arith) (ground arith)

lookup_node-longest_example :
    lookup_node dot_c (codes "c.a") true
    ≡ some (longest_hits dot_c true (search_keys (codes "c.a")))
lookup_node-longest_example =
    lookup_node-longest dot_c b'c' (codes ".a") true (ground arith) (ground arith)

determine_type-glob_kind_example :
    determine_type (encode_all (codes "*.tar")) ≡ some (glob_kind (codes "*.tar"))
determine_type-glob_kind_example = determine_type-glob_kind (codes "*.tar") (ground arith)

lookup_file_name-types_example :
    lookup_file_name qsort every table (codes "A.C") 2
    ≡ some (types_of_name qsort every table (codes "A.C") 2)
lookup_file_name-types_example =
    lookup_file_name-types qsort every table (codes "A.C") 2 (ground arith) (ground arith)
      (λ e. ground arith) (omega arith) (omega arith)

-- Eleven patterns, and a caller with room for eleven types.
abbrev many : List GlobItem
many = item ∷ item ∷ item ∷ item ∷ item ∷ item ∷ item ∷ item ∷ item ∷ item ∷ item ∷ []

lookup_file_name-overflow_example :
    lookup_file_name qsort every
      (record { literal_list = []; simple_node = nil; full_list = many })
      (codes "xy")
      11
    ≡ none
lookup_file_name-overflow_example =
    lookup_file_name-overflow qsort every many (codes "xy") 11 (omega arith) (omega arith)

append_glob-simple_example :
    (n : HashNode) × (append_glob table (encode_all (star ∷ codes ".h")) other
      ≡ some (record table { simple_node = n }))
    × IsTree n
    × (stored n (reverse (codes ".h")) ≡ add_entry other (stored dot_c (reverse (codes ".h"))))
    × ((key : List ℕ)
        → All (λ x. x ≢ 0) key
        → reverse (codes ".h") ≢ key
        → stored n key ≡ stored dot_c key)
append_glob-simple_example =
    append_glob-simple table (codes ".h") other (ground arith) (λ e. ground arith) (ground arith)
      refl

added :
    append_glob empty_hash (encode_all (star ∷ codes ".c")) entry
    ≡ some (record empty_hash { simple_node = dot_c })
unfolding append_glob append_as insert_text insert_ucs4 insert_char set_end determine_type type_loop
    utf8_skip convert_to_ucs4 ucs4_from utf8_to_ucs4 reverse_ucs4 reverse_loop swap_ends
added = refl

append_glob-lookup_example :
    (t : Bytes) × (ts : List Bytes) × (lookup_file_name qsort every
        (record empty_hash { simple_node = dot_c })
        (codes "a" ++ codes ".c")
        1
      ≡ some (t ∷ ts))
append_glob-lookup_example =
    append_glob-lookup qsort every empty_hash (record empty_hash { simple_node = dot_c })
      (codes "a") (codes ".c") entry 1 qsort-IsQsort tt (λ e. ground arith) (ground arith)
      (ground arith) refl (omega arith) (omega arith) added
