-- ===== src/Mime/Glob/Hash/Search.antt =====
-- `_xdg_glob_hash_lookup_file_name` of src/mime/xdgmimeglob.c: its searches, its result and its
-- array.
use mathlib.Core.List.{reverse, reverse-cons}
use libxdg.Base.{
  ℕ, zero, suc, ◌+◌, ◌≤◌, ◌<◌, ◌≡◌, ◌≢◌, refl, sym, ap, ap₂, subst, ◌∙◌, Bool, true, false, inl,
  inr, Option, none, some, List, [], ◌∷◌, ◌++◌, ◌==◌, ltb, if◌then◌else◌, length, arith, Bool-cases,
  ==-ne, take, select, map, List-cases, length-reverse, lt→ltb,
}
use libxdg.Base.Int.{◌≤ℤ◌}
use libxdg.Base.Text.{Bytes, IsText}
use libxdg.Mime.Glob.Tree.{HashNode, nil, node, MimeWeight, lookup_node}
use libxdg.Mime.Glob.Tree.Ordered.{IsTree}
use libxdg.Mime.Glob.Tree.Lookup.{first_full, longest_hits, search_keys, lookup_node-longest}
use libxdg.Mime.Glob.Hash.{
  GlobItem, GlobHash, ascii_tolower, literal_type, exact_test, lower_test, mimes_size, weigh,
  full_types, or_else, answer, or_literal, pattern_types, lookup_file_name,
}

-- The greater weight first: what `compare_mime_weight` says of two elements in order.
abbrev pub Heavier : MimeWeight → MimeWeight → Type 0
Heavier a b = b.weight ≤ℤ a.weight

-- The types of the full patterns that match, in their order.
abbrev pub matching : (GlobItem → Bool) → List GlobItem → List MimeWeight
matching test items = map weigh (select test items)

-- The loop collects the first matches, while they fit.
full_types-take :
    (test : GlobItem → Bool) (k n limit : ℕ) (items : List GlobItem)
    → limit ≡ k + n
    → limit ≤ mimes_size
    → full_types test limit n items ≡ some (take k (matching test items))
unfolding full_types
full_types-take test zero n limit [] e h = refl
full_types-take test (suc k) n limit [] e h = refl
full_types-take test zero n limit (i ∷ items) e h =
    let stop : ltb n limit ≡ false = ground arith in rw stop
full_types-take test (suc k) n limit (i ∷ items) e h =
    let room : ltb n limit ≡ true = lt→ltb n limit (omega arith) in
    let fits : ltb n mimes_size ≡ true = lt→ltb n mimes_size (omega arith) in
    rw (room, fits)
      (elim (Bool-cases (test i)) [
        | inl t ↦ rw (t, full_types-take test k (suc n) limit items (omega arith) h)
        | inr t ↦ rw (t, full_types-take test (suc k) n limit items e h)
      ])

-- More matches than the array has places, and a limit above its size: the eleventh is written
-- behind the array.
full_types-overflow :
    (test : GlobItem → Bool) (k n limit : ℕ) (items : List GlobItem)
    → k + n ≡ mimes_size
    → mimes_size < limit
    → k < length (matching test items)
    → full_types test limit n items ≡ none
unfolding full_types
full_types-overflow test k n limit [] e h m = absurd (omega arith)
full_types-overflow test zero n limit (i ∷ items) e h m =
    let room : ltb n limit ≡ true = lt→ltb n limit (omega arith) in
    let stop : ltb n mimes_size ≡ false = ground arith in
    rw (room, stop)
      (elim (Bool-cases (test i)) [
        | inl t ↦ rw t
        | inr t ↦ rw t (full_types-overflow test zero n limit items e h (rw t at m))
      ])
full_types-overflow test (suc k) n limit (i ∷ items) e h m =
    let room : ltb n limit ≡ true = lt→ltb n limit (omega arith) in
    let fits : ltb n mimes_size ≡ true = lt→ltb n mimes_size (omega arith) in
    rw (room, fits)
      (elim (Bool-cases (test i)) [
        | inl t ↦
            let m' : suc k < suc (length (matching test items)) = rw t at m in
            rw (t, full_types-overflow test k (suc n) limit items (omega arith) h (omega arith))
        | inr t ↦ rw t (full_types-overflow test (suc k) n limit items e h (rw t at m))
      ])

All-append : (xs ys : Bytes) → IsText xs → IsText ys → IsText (xs ++ ys)
All-append [] ys h k = k
All-append (x ∷ xs) ys h k = (h.0, All-append xs ys h.1 k)

IsText-reverse : (s : Bytes) → IsText s → IsText (reverse s)
IsText-reverse [] h = tt
IsText-reverse (c ∷ s) h =
    subst IsText (sym (reverse-cons c s))
      (All-append (reverse s) (c ∷ []) (IsText-reverse s h.1) (h.0, tt))

reverse-ne-nil : (s : Bytes) → s ≢ [] → reverse s ≢ []
reverse-ne-nil [] h e = h refl
reverse-ne-nil (c ∷ s) h e =
    let l : length (reverse (c ∷ s)) ≡ 0 = ap length e in
    absurd (omega (arith, length-reverse {0} (c ∷ s)))

-- The search in the tree by a name given backwards.
lookup_node-reverse :
    (n : HashNode) (name : Bytes) (check : Bool)
    → IsTree n
    → IsText name
    → name ≢ []
    → lookup_node n (reverse name) check ≡ some (longest_hits n check (search_keys (reverse name)))
lookup_node-reverse n name check t x ne = elim (List-cases (reverse name)) [
  | inl e ↦ absurd (reverse-ne-nil name ne e)
  | inr (b, cs, e) ↦
      subst (λ r. lookup_node n r check ≡ some (longest_hits n check (search_keys r))) (sym e)
        (lookup_node-longest n b cs check t (subst IsText e (IsText-reverse name x)))
]

ascii_tolower-IsText : (s : Bytes) → IsText s → IsText (ascii_tolower s)
ascii_tolower-IsText [] h = tt
ascii_tolower-IsText (c ∷ s) h = (ground arith, ascii_tolower-IsText s h.1)

ascii_tolower-ne-nil : (s : Bytes) → s ≢ [] → ascii_tolower s ≢ []
ascii_tolower-ne-nil [] h e = h refl
ascii_tolower-ne-nil (c ∷ s) h e = ground arith

or_else-first_full :
    (xs ys : List MimeWeight) → or_else (some xs) (some ys) ≡ some (first_full xs ys)
or_else-first_full [] ys = refl
or_else-first_full (x ∷ xs) ys = refl

-- What the searches by pattern find: the longest ending of the name in lower case among the
-- patterns for either case, else the longest ending of the name itself, else the full patterns.
abbrev pub pattern_matches : (Bytes → Bytes → Bool) → GlobHash → Bytes → ℕ → List MimeWeight
pattern_matches fnmatch hash name limit =
    first_full (longest_hits hash.simple_node false (search_keys (reverse (ascii_tolower name)))) (
      first_full (longest_hits hash.simple_node true (search_keys (reverse name)))
        (take limit (matching (λ i. fnmatch i.text name) hash.full_list)))

-- The types of a name: those of a literal name alone, in its own letters before lower case; else
-- those of the patterns, in the order that `qsort` gives them.
abbrev pub types_of_name :
    (List MimeWeight → List MimeWeight) → (Bytes → Bytes → Bool) → GlobHash → Bytes → ℕ → List Bytes
types_of_name qsort fnmatch hash name limit =
    elim (literal_type (exact_test name) hash.literal_list) [
      | some m ↦ m ∷ []
      | none ↦ elim (literal_type (lower_test (ascii_tolower name)) hash.literal_list) [
        | some m ↦ m ∷ []
        | none ↦ map (λ m. m.mime) (take limit (qsort (pattern_matches fnmatch hash name limit)))
      ]
    ]

module _ (qsort : List MimeWeight → List MimeWeight) (fnmatch : Bytes → Bytes → Bool) where
  pattern_types-matches :
      (hash : GlobHash) (name : Bytes) (limit : ℕ)
      → IsTree hash.simple_node
      → IsText name
      → name ≢ []
      → limit ≤ mimes_size
      → pattern_types qsort fnmatch hash name limit ≡ some (pattern_matches fnmatch hash name limit)
  unfolding pattern_types
  pattern_types-matches hash name limit t x ne h =
      let lower =
        longest_hits hash.simple_node false (search_keys (reverse (ascii_tolower name))) in
      let exact = longest_hits hash.simple_node true (search_keys (reverse name)) in
      let others = take limit (matching (λ i. fnmatch i.text name) hash.full_list) in
      ap₂ or_else
        (lookup_node-reverse hash.simple_node (ascii_tolower name) false t
          (ascii_tolower-IsText name x) (ascii_tolower-ne-nil name ne))
        (ap₂ or_else (lookup_node-reverse hash.simple_node name true t x ne) (
            full_types-take (λ i. fnmatch i.text name) limit 0 limit hash.full_list (omega arith) h)
          ∙ or_else-first_full exact others)
      ∙ or_else-first_full lower (first_full exact others)

  -- With an ordered tree, a name that is not empty and room for one to ten types, the lookup has
  -- no fault and returns the types of the name: a literal name decides alone, in its own letters
  -- and then in lower case; then the longest ending in the tree, in lower case and then as it is;
  -- then the full patterns.
  pub lookup_file_name-types :
      (hash : GlobHash) (name : Bytes) (limit : ℕ)
      → IsTree hash.simple_node
      → IsText name
      → name ≢ []
      → 0 < limit
      → limit ≤ mimes_size
      → lookup_file_name qsort fnmatch hash name limit
        ≡ some (types_of_name qsort fnmatch hash name limit)
  unfolding lookup_file_name
  lookup_file_name-types hash name limit t x ne p h = rw (==-ne limit 0 (omega arith)) (
      literal_cases (literal_type (exact_test name) hash.literal_list)
        (literal_type (lower_test (ascii_tolower name)) hash.literal_list)
        (pattern_types qsort fnmatch hash name limit) (pattern_matches fnmatch hash name limit)
        (pattern_types-matches hash name limit t x ne h))
    where
      literal_cases :
          (exact lower : Option Bytes) (r : Option (List MimeWeight)) (ms : List MimeWeight)
          → r ≡ some ms
          → or_literal exact (or_literal lower (answer qsort limit r))
            ≡ some (elim exact as (λ _. List Bytes) [
              | some m ↦ m ∷ []
              | none ↦ elim lower [
                | some m ↦ m ∷ []
                | none ↦ map (λ m. m.mime) (take limit (qsort ms))
              ]
            ])
      literal_cases (some m) lower r ms e = refl
      literal_cases none (some m) r ms e = refl
      literal_cases none none r ms e = rw e refl

-- In a table with full patterns only, that is without literal names and with an empty tree, a limit
-- above ten makes the lookup write behind its array of ten, for every name that more than ten of the
-- patterns match.
pub lookup_file_name-overflow :
    (qsort : List MimeWeight → List MimeWeight) (fnmatch : Bytes → Bytes → Bool)
    (items : List GlobItem) (name : Bytes) (limit : ℕ)
    → mimes_size < limit
    → mimes_size < length (matching (λ i. fnmatch i.text name) items)
    → lookup_file_name qsort fnmatch
        (record { literal_list = []; simple_node = nil; full_list = items })
        name
        limit
      ≡ none
unfolding lookup_file_name pattern_types lookup_node
lookup_file_name-overflow qsort fnmatch items name limit h m = rw (
  ==-ne limit 0 (omega arith),
  full_types-overflow (λ i. fnmatch i.text name) 10 0 limit items refl h m,
)

lookup_node_empty : (n : HashNode) (check : Bool) → n ≢ nil → lookup_node n [] check ≡ none
unfolding lookup_node
lookup_node_empty nil check ne = absurd (ne refl)
lookup_node_empty (node d l next child) check ne = refl

-- With an empty name, some pattern in the tree and no literal names, the lookup reads the byte
-- before the name.
lookup_file_name-empty :
    (qsort : List MimeWeight → List MimeWeight) (fnmatch : Bytes → Bytes → Bool) (hash : GlobHash)
    (limit : ℕ)
    → hash.literal_list ≡ []
    → hash.simple_node ≢ nil
    → lookup_file_name qsort fnmatch hash [] limit ≡ none
unfolding lookup_file_name pattern_types
lookup_file_name-empty qsort fnmatch hash limit e ne =
    rw (lookup_node_empty hash.simple_node false ne, e) (either (limit == 0))
  where
    either : (b : Bool) → ◌≡◌ {A = Option (List Bytes)} (if b then none else none) none
    either true = refl
    either false = refl
