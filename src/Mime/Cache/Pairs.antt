-- ===== src/Mime/Cache/Pairs.antt =====
-- The tables of aliases and icons in the caches of src/mime/xdgmimecache.c, as lists of pairs.
use Prim.Native.Nat.{Ordering}
use libxdg.Base.{
  ℕ, zero, suc, ◌+◌, ◌^◌, ◌≤◌, ◌<◌, ◌≡◌, ◌≢◌, refl, sym, ap, ◌∙◌, subst, inl, inr, true, false,
  Option, none, some, List, [], ◌∷◌, ◌++◌, leb, le→leb, length, get_or, if◌then◌else◌, Option-cases,
  arith,
}
use libxdg.Base.Faults.{◌>>=◌}
use libxdg.Base.Text.{Bytes, strcmp, strcmp_refl, strcmp_eq, str_eq, str_eq_refl, str_eq-ne}
use libxdg.Mime.Cache.{
  rounds, SearchResult, hit, miss, fault, unfinished, get_uint32, text_at, entry_offset, u32,
  above_max, compare_entry, binary_search, search_entries, settled, pair_value_at, lookup_pair,
  first_answer, cache_alias_lookup, cache_lookup_icon, cache_unalias_mime_type,
}
use libxdg.Mime.Cache.Search.{Locates, binary_search-Locates}

abbrev pub Pair : Type 0
Pair = Bytes × Bytes

abbrev pub blank_pair : Pair
blank_pair = ([], [])

abbrev pub key_of : List Pair → ℕ → Bytes
key_of es i = (get_or es i blank_pair).0

-- The keys stand in the strict order of `strcmp`.
abbrev pub Ascends : List Pair → Type 0
Ascends es = (i j : ℕ) → i < j → j < length es → strcmp (key_of es i) (key_of es j) ≡ Ordering.lt

-- A cache holds these pairs, in the order of their keys, as the list at a header.
pub record IsTable (header : ℕ) (buffer : Bytes) (es : List Pair) : Type 0 where
  pub list_offset : ℕ
  pub header_read : get_uint32 buffer header ≡ some list_offset
  pub size_read : get_uint32 buffer list_offset ≡ some (length es)
  pub keys :
      (i : ℕ) → i < length es → text_at buffer (entry_offset list_offset 8 i) ≡ some (key_of es i)
  pub values :
      (i : ℕ)
      → i < length es
      → text_at buffer (u32 (entry_offset list_offset 8 i + 4)) ≡ some (get_or es i blank_pair).1
  pub ascends : Ascends es
  pub small : length es ≤ 2 ^ 30

-- The value of the first pair with a key.
abbrev pub find_value : Bytes → List Pair → Option Bytes
find_value k [] = none
find_value k (e ∷ es) = let rest = find_value k es in if str_eq e.0 k then some e.1 else rest

strcmp_above :
    (a b k : Bytes) → strcmp a b ≡ Ordering.lt → strcmp a k ≢ Ordering.lt → strcmp b k ≡ Ordering.gt
unfolding strcmp
strcmp_above [] [] k h n = absurd (cc)
strcmp_above [] (y ∷ b) [] h n = refl
strcmp_above [] (y ∷ b) (z ∷ k) h n = absurd (n refl)
strcmp_above (x ∷ a) [] k h n = absurd (cc)
strcmp_above (x ∷ a) (y ∷ b) [] h n = refl
strcmp_above (x ∷ a) (y ∷ b) (z ∷ k) h n = ground (arith, strcmp_above a b k)

Ascends-tail : (e : Pair) (es : List Pair) → Ascends (e ∷ es) → Ascends es
Ascends-tail e es a i j p q = a (suc i) (suc j) (omega arith) (omega arith)

find_value-hit :
    (es : List Pair) (i : ℕ)
    → Ascends es
    → i < length es
    → find_value (key_of es i) es ≡ some (get_or es i blank_pair).1
find_value-hit [] i a h = absurd (omega arith)
find_value-hit (e ∷ es) zero a h = rw (str_eq_refl e.0) refl
find_value-hit (e ∷ es) (suc i) a h =
    let less : strcmp e.0 (key_of es i) ≡ Ordering.lt = a zero (suc i) (omega arith) h in
    let apart : str_eq e.0 (key_of es i) ≡ false = str_eq-ne e.0 (key_of es i) (λ same. absurd (
      lt-ne (
        sym (strcmp_refl (key_of es i))
        ∙ subst (λ x. strcmp x (key_of es i) ≡ Ordering.lt) same less))) in
    rw apart (find_value-hit es i (Ascends-tail e es a) (omega arith))
  where
    lt-ne : Ordering.eq ≢ Ordering.lt
    lt-ne h = absurd (cc)

find_value-miss :
    (es : List Pair) (k : Bytes)
    → ((i : ℕ) → i < length es → strcmp (key_of es i) k ≢ Ordering.eq)
    → find_value k es ≡ none
find_value-miss [] k h = refl
find_value-miss (e ∷ es) k h =
    let apart : str_eq e.0 k ≡ false = unfold str_eq in ground (arith, h zero (omega arith)) in
    rw apart (find_value-miss es k (λ i p. h (suc i) (omega arith)))

above_max_small : (n : ℕ) → n ≤ 2 ^ 30 → above_max n ≡ n
above_max_small n h =
    let fits : leb n (2 ^ 31) ≡ true = le→leb n (2 ^ 31) (omega arith) in rw fits refl

module _ (header : ℕ) (buffer : Bytes) (es : List Pair) (table : IsTable header buffer es)
    (k : Bytes) where
  cmp : ℕ → Ordering
  cmp i = strcmp (key_of es i) k

  located :
      Locates cmp
        (length es)
        (binary_search rounds (compare_entry buffer table.list_offset 8 k) 0 (length es))
  unfolding cmp compare_entry
  located =
      subst
        (λ f.
          Locates cmp (length es)
            (binary_search f (compare_entry buffer table.list_offset 8 k) 0 (length es)))
        (sym rounds_33)
        (binary_search-Locates (compare_entry buffer table.list_offset 8 k) cmp (length es)
          table.small (λ i p. rw (table.keys i p) refl)
          (λ i j p q n. strcmp_above (key_of es i) (key_of es j) k (table.ascends i j p q) n) 32 0
          (length es)
          (
            omega (arith, table.small),
            omega arith,
            (λ i p. absurd (omega arith)),
            (λ i p q. absurd (omega arith)),
          ))
    where
      rounds_33 : rounds ≡ 33
      rounds_33 = unfold rounds in refl

  settled-find :
      (o : SearchResult)
      → Locates cmp (length es) o
      → (settled o >>= pair_value_at buffer table.list_offset 8) ≡ some (find_value k es)
  unfolding cmp
  settled-find (hit i) (p, e) =
      let same : key_of es i ≡ k = strcmp_eq (key_of es i) k e in
      rw (table.values i p)
        (ap some (sym (find_value-hit es i table.ascends p) ∙ ap (λ x. find_value x es) same))
  settled-find miss absent = ap some (sym (find_value-miss es k absent))
  settled-find fault x = elim x [ ]
  settled-find unfinished x = elim x [ ]

  search_entries-Locates :
      search_entries buffer table.list_offset 8 (length es) k
      ≡ settled (binary_search rounds (compare_entry buffer table.list_offset 8 k) 0 (length es))
  unfolding search_entries
  search_entries-Locates =
      ap (λ n. settled (binary_search rounds (compare_entry buffer table.list_offset 8 k) 0 n))
        (above_max_small (length es) table.small)

  lookup_pair-find : lookup_pair header k buffer ≡ some (find_value k es)
  unfolding lookup_pair
  lookup_pair-find =
      rw (table.header_read, table.size_read)
        (ap (λ o. o >>= pair_value_at buffer table.list_offset 8) search_entries-Locates
          ∙ settled-find
              (binary_search rounds (compare_entry buffer table.list_offset 8 k) 0 (length es))
              located)

-- The caches hold these tables, in this order.
abbrev pub AreTables : ℕ → List Bytes → List (List Pair) → Type 0
AreTables header [] [] = Unit
AreTables header [] (es ∷ tables) = ⊥
AreTables header (buffer ∷ buffers) [] = ⊥
AreTables header (buffer ∷ buffers) (es ∷ tables) =
    IsTable header buffer es × AreTables header buffers tables

-- All pairs, the first cache's first.
abbrev pub all_pairs : List (List Pair) → List Pair
all_pairs [] = []
all_pairs (es ∷ tables) = es ++ all_pairs tables

find_value-append_some :
    (k v : Bytes) (es fs : List Pair) → find_value k es ≡ some v → find_value k (es ++ fs) ≡ some v
find_value-append_some k v [] fs h = absurd (cc)
find_value-append_some k v (e ∷ es) fs h = ground (arith, find_value-append_some k v es fs)

find_value-append_none :
    (k : Bytes) (es fs : List Pair)
    → find_value k es ≡ none
    → find_value k (es ++ fs) ≡ find_value k fs
find_value-append_none k [] fs h = refl
find_value-append_none k (e ∷ es) fs h = ground (arith, find_value-append_none k es fs)

first_answer-find :
    (header : ℕ) (k : Bytes) (caches : List Bytes) (tables : List (List Pair))
    → AreTables header caches tables
    → first_answer (lookup_pair header k) caches ≡ some (find_value k (all_pairs tables))
unfolding first_answer
first_answer-find header k [] [] h = refl
first_answer-find header k [] (es ∷ tables) h = elim h [ ]
first_answer-find header k (buffer ∷ buffers) [] h = elim h [ ]
first_answer-find header k (buffer ∷ buffers) (es ∷ tables) (table, h) =
    let here = lookup_pair-find header buffer es table k in
    elim (Option-cases (find_value k es)) [
      | inl e ↦
          rw (here ∙ ap some e, first_answer)
            (first_answer-find header k buffers tables h
              ∙ ap some (sym (find_value-append_none k es (all_pairs tables) e)))
      | inr (v, e) ↦
          rw (here ∙ ap some e, first_answer)
            (ap some (sym (find_value-append_some k v es (all_pairs tables) e)))
    ]

abbrev pub or_itself : Bytes → Option Bytes → Bytes
or_itself mime none = mime
or_itself mime (some v) = v

-- On caches that hold tables of at most 2 ^ 30 pairs in the strict order of their keys, the binary
-- searches have no fault and find what a search through all pairs of all caches in turn finds first:
-- for an icon the value, and for an unaliased type the value or, without one, the type itself.
pub cache_lookups-find :
    (header : ℕ) (k : Bytes) (caches : List Bytes) (aliases icons : List (List Pair))
    → AreTables 4 caches aliases
    → AreTables header caches icons
    → (cache_unalias_mime_type caches k ≡ some (or_itself k (find_value k (all_pairs aliases))))
      × (cache_lookup_icon caches k header ≡ some (find_value k (all_pairs icons)))
unfolding cache_unalias_mime_type cache_alias_lookup cache_lookup_icon
cache_lookups-find header k caches aliases icons h g = (
  rw (first_answer-find 4 k caches aliases h, cache_unalias_mime_type)
      (ap some (or_same (find_value k (all_pairs aliases)))),
  first_answer-find header k caches icons g,
)
  where
    or_same : (o : Option Bytes) → (elim o [ none ↦ k | some alias ↦ alias ]) ≡ or_itself k o
    or_same none = refl
    or_same (some v) = refl
