-- ===== src/Tests/Tables.antt =====
-- The tables of src/mime/xdgmimealias.c and src/mime/xdgmimeicon.c with an insertion sort and a
-- linear search in the places of `qsort` and `bsearch`.
use libxdg.Base.{◌≡◌, Option, some, List, [], ◌∷◌, ◌++◌, All, arith}
use libxdg.Base.Sort.{insertion_sort}
use libxdg.Base.Search.{not_behind, not_behind-IsQsort, linear_search, linear_search-IsBsearch}
use libxdg.Base.Text.{Bytes, codes, str_eq, strcmp}
use libxdg.Mime.Table.Lines.{IsRow, rows, file_of}
use libxdg.Mime.Table.{Entry, alias_read_from_file, alias_list_lookup}
use libxdg.Mime.Table.Lookup.{Answers, alias_list_lookup-read}
use libxdg.Mime.Parents.{MimeParents, parent_read_from_file, parent_list_lookup}
use libxdg.Mime.Parents.Lookup.{IsUnique, or_empty, parent_list_lookup-read}

abbrev qsort : List Entry → List Entry
qsort = insertion_sort (not_behind (λ e. e.key))

abbrev bsearch : Bytes → List Entry → Option Entry
bsearch = linear_search (λ e. e.key)

abbrev entries : List Entry
entries = (record { key = codes "x"; value = codes "y" }) ∷ []

-- Two lines.
abbrev aliases : List Entry
aliases =
    (record { key = codes "b"; value = codes "c" })
    ∷ (record { key = codes "a"; value = codes "b" })
    ∷ []

aliases-IsRow : All (IsRow b' ') aliases
aliases-IsRow = ground arith

alias_list_lookup-read_example : Answers (entries ++ aliases) (codes "b") (
    alias_list_lookup bsearch
      (alias_read_from_file qsort entries (some (file_of (rows b' ' aliases))))
      (codes "b"))
alias_list_lookup-read_example =
    alias_list_lookup-read qsort bsearch entries aliases (codes "b") aliases-IsRow
      (not_behind-IsQsort (λ e. e.key)) (linear_search-IsBsearch (λ e. e.key))

abbrev qsort_parents : List MimeParents → List MimeParents
qsort_parents = insertion_sort (not_behind (λ p. p.mime))

abbrev bsearch_parents : Bytes → List MimeParents → Option MimeParents
bsearch_parents = linear_search (λ p. p.mime)

-- Two parents of one type, one of another.
abbrev parent_rows : List Entry
parent_rows =
    (record { key = codes "b"; value = codes "c" })
    ∷ (record { key = codes "a"; value = codes "d" })
    ∷ (record { key = codes "b"; value = codes "e" })
    ∷ []

parent_rows-IsRow : All (IsRow b' ') parent_rows
parent_rows-IsRow = ground arith

abbrev parents : List MimeParents
parents = (record { mime = codes "b"; parents = codes "f" ∷ [] }) ∷ []

parent_list_lookup-read_example :
    IsUnique (parent_read_from_file qsort_parents parents (some (file_of (rows b' ' parent_rows))))
    × (or_empty (
          parent_list_lookup bsearch_parents
            (parent_read_from_file qsort_parents parents (some (file_of (rows b' ' parent_rows))))
            (codes "b"))
        ≡ codes "f" ∷ codes "c" ∷ codes "e" ∷ [])
unfolding str_eq strcmp
parent_list_lookup-read_example =
    parent_list_lookup-read qsort_parents bsearch_parents (not_behind-IsQsort (λ p. p.mime))
      (linear_search-IsBsearch (λ p. p.mime)) parents parent_rows (codes "b") parent_rows-IsRow
      (tt, tt)
