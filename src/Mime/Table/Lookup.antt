-- ===== src/Mime/Table/Lookup.antt =====
-- What the tables of src/mime/xdgmimealias.c and src/mime/xdgmimeicon.c find after reading a file.
use libxdg.Base.{
  ℕ, suc, ◌≡◌, ◌≢◌, ap, ◌∙◌, subst, inl, inr, true, Option, none, some, List, [], ◌∷◌, ◌++◌, ltb,
  length, All, Any, arith, Bool-cases, Option-cases, ltb_false→le,
}
use libxdg.Base.Sort.{IsSorted, IsSorted-short, IsQsort, All-Permᴰ, Any-Permᴰ}
use libxdg.Base.Search.{IsBsearch}
use libxdg.Base.Text.{Bytes}
use libxdg.Mime.Table.Lines.{IsRow, rows, file_of, lines_entries-file_of}
use libxdg.Mime.Table.{
  Entry, Before, fgets_lines, lines_entries, read_from_file, alias_read_from_file,
  icon_read_from_file, value_of, alias_list_lookup, icon_list_lookup,
}

-- The answer for a key: a value that some entry has under it, or none, and no entry has the key.
abbrev pub Answers : List Entry → Bytes → Option Bytes → Type 0
Answers entries k (some v) = Any (λ e. (e.key ≡ k) × (e.value ≡ v)) entries
Answers entries k none = All (λ e. e.key ≢ k) entries

Any-map : (P Q : Entry → Type 0) (xs : List Entry) → ((x : Entry) → P x → Q x) → Any P xs → Any Q xs
Any-map P Q [] h a = a
Any-map P Q (x ∷ xs) h (inl p) = inl (h x p)
Any-map P Q (x ∷ xs) h (inr a) = inr (Any-map P Q xs h a)

module _ (qsort : List Entry → List Entry) (bsearch : Bytes → List Entry → Option Entry) where
  search-Answers :
      (xs : List Entry) (k : Bytes)
      → IsBsearch (λ e. e.key) bsearch
      → IsSorted Before xs
      → Answers xs k (value_of (bsearch k xs))
  search-Answers xs k b s = elim (Option-cases (bsearch k xs)) [
    | inl e ↦ rw e (b.missing k xs s e)
    | inr (x, e) ↦
        let (named, inside) = b.found k xs x s e in
        rw e (
          Any-map (λ y. y ≡ x) _ xs (λ y p. (ap (λ z. z.key) p ∙ named, ap (λ z. z.value) p))
            inside)
  ]

  alias_list_lookup-Answers :
      (xs : List Entry) (k : Bytes)
      → IsBsearch (λ e. e.key) bsearch
      → IsSorted Before xs
      → Answers xs k (alias_list_lookup bsearch xs k)
  unfolding alias_list_lookup
  alias_list_lookup-Answers [] k b s = tt
  alias_list_lookup-Answers (x ∷ xs) k b s =
      let some_there : ltb 0 (suc (length xs)) ≡ true = ground arith in
      rw some_there (search-Answers (x ∷ xs) k b s)

  Answers-sorted :
      (xs : List Entry) (k : Bytes) (o : Option Bytes)
      → IsQsort Before qsort
      → Answers (qsort xs) k o
      → Answers xs k o
  Answers-sorted xs k (some v) q a = Any-Permᴰ _ (q.permutes xs) a
  Answers-sorted xs k none q a = All-Permᴰ _ (q.permutes xs) a

  read-Answers :
      (sep : ℕ) (list : List Entry) (s k : Bytes)
      → IsQsort Before qsort
      → IsBsearch (λ e. e.key) bsearch
      → Answers
          (list ++ lines_entries sep (fgets_lines s))
          k
          (alias_list_lookup bsearch (read_from_file qsort sep list (some s)) k)
  unfolding read_from_file
  read-Answers sep list s k q b =
      let entries = list ++ lines_entries sep (fgets_lines s) in
      elim (Bool-cases (ltb 1 (length entries))) [
        | inl e ↦ rw e (
            Answers-sorted entries k (alias_list_lookup bsearch (qsort entries) k) q
              (alias_list_lookup-Answers (qsort entries) k b (q.sorts entries)))
        | inr e ↦ rw e (
            alias_list_lookup-Answers entries k b
              (IsSorted-short Before entries (ltb_false→le 1 (length entries) e)))
      ]

  read-rows :
      (sep : ℕ) (list es : List Entry) (k : Bytes)
      → All (IsRow sep) es
      → IsQsort Before qsort
      → IsBsearch (λ e. e.key) bsearch
      → Answers (list ++ es) k (
          alias_list_lookup bsearch
            (read_from_file qsort sep list (some (file_of (rows sep es))))
            k)
  read-rows sep list es k h q b =
      subst
        (λ l. Answers (list ++ l) k (
          alias_list_lookup bsearch (read_from_file qsort sep list (some (file_of (rows sep es))))
            k))
        (lines_entries-file_of sep es h) (read-Answers sep list (file_of (rows sep es)) k q b)

  -- After a file is read whose lines hold pairs of an alias without a blank and a MIME type, a blank
  -- between them, each line of at most 253 bytes with its end behind it, without NUL and not begun by
  -- a '#', the lookup of an alias answers with a type that one of these pairs or an entry from before
  -- gives it, and with none only if there is no such pair or entry; for a `qsort` and a `bsearch` as
  -- documented.
  pub alias_list_lookup-read :
      (list es : List Entry) (alias : Bytes)
      → All (IsRow b' ') es
      → IsQsort Before qsort
      → IsBsearch (λ e. e.key) bsearch
      → Answers (list ++ es) alias (
          alias_list_lookup bsearch
            (alias_read_from_file qsort list (some (file_of (rows b' ' es))))
            alias)
  unfolding alias_read_from_file
  alias_list_lookup-read list es alias h q b = read-rows b' ' list es alias h q b

  -- The same for an icons file, with colons between MIME types and icons.
  icon_list_lookup-read :
      (list es : List Entry) (mime_type : Bytes)
      → All (IsRow b':') es
      → IsQsort Before qsort
      → IsBsearch (λ e. e.key) bsearch
      → Answers (list ++ es) mime_type (
          icon_list_lookup bsearch
            (icon_read_from_file qsort list (some (file_of (rows b':' es))))
            mime_type)
  unfolding icon_read_from_file icon_list_lookup alias_list_lookup
  icon_list_lookup-read list es mime_type h q b = read-rows b':' list es mime_type h q b
