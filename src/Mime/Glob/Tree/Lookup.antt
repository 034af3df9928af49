-- ===== src/Mime/Glob/Tree/Lookup.antt =====
-- `_xdg_glob_hash_node_lookup_file_name` of src/mime/xdgmimeglob.c and the endings of a name under
-- which a tree offers types.
use libxdg.Base.{
  ℕ, zero, suc, ◌<◌, ◌≡◌, ◌≢◌, refl, sym, ap, ap₂, ◌∙◌, Bool, true, false, not, ◌||◌, inl, inr,
  none, some, List, [], ◌∷◌, ◌++◌, ltb, ◌==◌, arith, All, Bool-cases, ltb→lt, ==-ne, take, select,
  map,
}
use libxdg.Base.Text.{Bytes}
use libxdg.Mime.Unicode.{char_to_ucs4}
use libxdg.Mime.Glob.Tree.{
  GlobEntry, Label, HashNode, nil, node, MimeWeight, offered, push, room_behind, zero_types,
  types_here, n_mimes, or_here, lookup_node,
}
use libxdg.Mime.Glob.Tree.Stored.{
  find, child_of, labelled, zero_entries, entries_here, stored, hits,
}
use libxdg.Mime.Glob.Tree.Ordered.{IsTree, find_below}

-- The second list where the first one is empty.
abbrev pub first_full {ℓ} : {A : Type ℓ} → List A → List A → List A
first_full [] ys = ys
first_full (x ∷ xs) ys = x ∷ xs

-- The value of a function at the longest front of a list at which it is not empty. The empty front
-- does not count.
abbrev pub at_longest {ℓ} : {A : Type ℓ} → (List ℕ → List A) → List ℕ → List A
at_longest f [] = []
at_longest f (c ∷ cs) = first_full (at_longest (λ p. f (c ∷ p)) cs) (f (c ∷ []))

at_longest-empty {ℓ} :
    {A : Type ℓ} (f : List ℕ → List A) (cs : List ℕ)
    → ((p : List ℕ) → f p ≡ [])
    → at_longest f cs ≡ []
at_longest-empty f [] h = refl
at_longest-empty f (c ∷ cs) h =
    rw (at_longest-empty (λ p. f (c ∷ p)) cs (λ p. h (c ∷ p)), h (c ∷ []))

-- Only the values at fronts that are not empty count.
at_longest-ext {ℓ} :
    {A : Type ℓ} (f g : List ℕ → List A) (cs : List ℕ)
    → ((c : ℕ) (p : List ℕ) → f (c ∷ p) ≡ g (c ∷ p))
    → at_longest f cs ≡ at_longest g cs
at_longest-ext f g [] h = refl
at_longest-ext f g (c ∷ cs) h =
    ap₂ first_full (at_longest-ext (λ p. f (c ∷ p)) (λ p. g (c ∷ p)) cs (λ d p. h c (d ∷ p)))
      (h c [])

at_longest-ext_head {ℓ} :
    {A : Type ℓ} (f g : List ℕ → List A) (c : ℕ) (cs : List ℕ)
    → ((p : List ℕ) → f (c ∷ p) ≡ g (c ∷ p))
    → at_longest f (c ∷ cs) ≡ at_longest g (c ∷ cs)
at_longest-ext_head f g c cs h =
    ap₂ first_full (at_longest-ext (λ p. f (c ∷ p)) (λ p. g (c ∷ p)) cs (λ d p. h (d ∷ p))) (h [])

-- The array takes the types of the entries that are offered, up to its size.
abbrev to_types : Bool → ℕ → List GlobEntry → List MimeWeight
to_types check room es = take room (
    map (λ e. record { mime = e.mime_type; weight = e.weight })
      (select (λ e. check || not e.case_sensitive) es))

push-offered :
    (check : Bool) (room : ℕ) (l : Label) (es : List GlobEntry)
    → push (offered check l) (to_types check (room_behind (offered check l) (suc room)) es)
      ≡ to_types check (suc room) (labelled l ++ es)
push-offered check room l es = ground arith

zero_types-to_types :
    (check : Bool) (room : ℕ) (n : HashNode)
    → zero_types check room n ≡ to_types check room (zero_entries n)
unfolding zero_types
zero_types-to_types check zero nil = refl
zero_types-to_types check (suc room) nil = refl
zero_types-to_types check zero (node c l next child) = refl
zero_types-to_types check (suc room) (node c l next child) = elim (Bool-cases (c == 0)) [
  | inl e ↦
      rw
        (
          ==-ne (suc room) 0 (omega arith),
          e,
          zero_types-to_types check (room_behind (offered check l) (suc room)) next,
        )
        (push-offered check room l (zero_entries next))
  | inr e ↦ rw (==-ne (suc room) 0 (omega arith), e)
]

-- The types of a node and of its children with character 0.
types_here-hits :
    (check : Bool) (l : Label) (child : HashNode)
    → types_here check l child ≡ hits check (labelled l ++ zero_entries child)
types_here-hits check l child =
    ap (push (offered check l))
      (zero_types-to_types check (room_behind (offered check l) n_mimes) child)
    ∙ push-offered check 9 l (zero_entries child)

-- The keys that a search meets: the bytes of the name, widened as in the source.
abbrev pub search_keys : Bytes → List ℕ
search_keys name = map char_to_ucs4 name

-- What a search finds: the types under the longest front of the key.
abbrev pub longest_hits : HashNode → Bool → List ℕ → List MimeWeight
longest_hits n check key = at_longest (λ p. hits check (stored n p)) key

or_here-first_full :
    (found here : List MimeWeight) → or_here (some found) here ≡ some (first_full found here)
or_here-first_full [] here = refl
or_here-first_full (m ∷ found) here = refl

stored-nil : (d : ℕ) (p : List ℕ) → stored nil (d ∷ p) ≡ []
stored-nil d [] = refl
stored-nil d (x ∷ p) = stored-nil x p

stored-nothing : (c : ℕ) (n : HashNode) (p : List ℕ) → find c n ≡ none → stored n (c ∷ p) ≡ []
stored-nothing c n [] h = rw h
stored-nothing c n (d ∷ p) h = rw h (stored-nil d p)

longest_hits-nothing :
    (n : HashNode) (check : Bool) (c : ℕ) (key : List ℕ)
    → find c n ≡ none
    → longest_hits n check (c ∷ key) ≡ []
longest_hits-nothing n check c key h =
    ap₂ first_full
      (at_longest-empty (λ p. hits check (stored n (c ∷ p))) key
        (λ p. ap (hits check) (stored-nothing c n p h)))
      (ap (λ f. hits check (entries_here f)) h)

-- A node that is not the one searched for.
longest_hits-next :
    (c d : ℕ) (l : Label) (next child : HashNode) (check : Bool) (key : List ℕ)
    → (c == d) ≡ false
    → longest_hits (node d l next child) check (c ∷ key) ≡ longest_hits next check (c ∷ key)
longest_hits-next c d l next child check key h =
    at_longest-ext_head (λ p. hits check (stored (node d l next child) p))
      (λ p. hits check (stored next p)) c key same
  where
    same :
        (p : List ℕ)
        → hits check (stored (node d l next child) (c ∷ p)) ≡ hits check (stored next (c ∷ p))
    same [] = rw h
    same (x ∷ p) = rw h

-- The node that is searched for.
longest_hits-child :
    (c d a : ℕ) (l : Label) (next child : HashNode) (check : Bool) (key : List ℕ)
    → (c == d) ≡ true
    → longest_hits (node d l next child) check (c ∷ a ∷ key)
      ≡ first_full
          (longest_hits child check (a ∷ key))
          (hits check (labelled l ++ zero_entries child))
longest_hits-child c d a l next child check key h =
    let found : find c (node d l next child) ≡ some (l, child) = rw h in
    ap₂ first_full
      (at_longest-ext_head (λ p. hits check (stored (node d l next child) (c ∷ p)))
        (λ p. hits check (stored child p)) a key
        (λ p. ap (λ f. hits check (stored (child_of f) (a ∷ p))) found))
      (ap (λ f. hits check (entries_here f)) found)

longest_hits_last :
    (c d : ℕ) (l : Label) (next child : HashNode) (check : Bool)
    → (c == d) ≡ true
    → longest_hits (node d l next child) check (c ∷ [])
      ≡ hits check (labelled l ++ zero_entries child)
longest_hits_last c d l next child check h = rw h

char_to_ucs4-ne_zero : (b : ℕ) → 0 < b → char_to_ucs4 b ≢ 0
unfolding char_to_ucs4
char_to_ucs4-ne_zero b h = ground arith

module _ (d : ℕ) (l : Label) (next child : HashNode) (b : ℕ) (name : Bytes) (check : Bool) where
  -- The three outcomes of the comparison of a character with a node's.
  lookup_node_below :
      ltb (char_to_ucs4 b) d ≡ true → lookup_node (node d l next child) (b ∷ name) check ≡ some []
  lookup_node_below e = below name
    where
      below : (cs : Bytes) → lookup_node (node d l next child) (b ∷ cs) check ≡ some []
      below [] = unfold lookup_node in rw e
      below (a ∷ cs) = unfold lookup_node in rw e

  lookup_node_above :
      ltb (char_to_ucs4 b) d ≡ false
      → (char_to_ucs4 b == d) ≡ false
      → lookup_node (node d l next child) (b ∷ name) check ≡ lookup_node next (b ∷ name) check
  lookup_node_above e f = above name
    where
      above :
          (cs : Bytes)
          → lookup_node (node d l next child) (b ∷ cs) check ≡ lookup_node next (b ∷ cs) check
      above [] = unfold lookup_node in rw (e, f)
      above (a ∷ cs) = unfold lookup_node in rw (e, f)

  lookup_node_last :
      ltb (char_to_ucs4 b) d ≡ false
      → (char_to_ucs4 b == d) ≡ true
      → lookup_node (node d l next child) (b ∷ []) check ≡ some (types_here check l child)
  unfolding lookup_node
  lookup_node_last e f = rw (e, f)

  lookup_node-child :
      (a : ℕ)
      → ltb (char_to_ucs4 b) d ≡ false
      → (char_to_ucs4 b == d) ≡ true
      → lookup_node (node d l next child) (b ∷ a ∷ name) check
        ≡ or_here (lookup_node child (a ∷ name) check) (types_here check l child)
  unfolding lookup_node
  lookup_node-child a e f = rw (e, f)

lookup_node-here :
    (d : ℕ) (l : Label) (next child : HashNode) (b : ℕ) (name : Bytes) (check : Bool)
    → ltb (char_to_ucs4 b) d ≡ false
    → (char_to_ucs4 b == d) ≡ true
    → All (λ x. 0 < x) name
    → ((a : ℕ) (cs : Bytes)
        → All (λ x. 0 < x) (a ∷ cs)
        → lookup_node child (a ∷ cs) check ≡ some (longest_hits child check (search_keys (a ∷ cs))))
    → lookup_node (node d l next child) (b ∷ name) check
      ≡ some (longest_hits (node d l next child) check (search_keys (b ∷ name)))
lookup_node-here d l next child b [] check e f h deeper =
    lookup_node_last d l next child b [] check e f
    ∙ ap some (
        types_here-hits check l child
        ∙ sym (longest_hits_last (char_to_ucs4 b) d l next child check f))
lookup_node-here d l next child b (a ∷ name) check e f h deeper =
    let found = longest_hits child check (search_keys (a ∷ name)) in
    lookup_node-child d l next child b name check a e f
    ∙ ap₂ or_here (deeper a name h) (types_here-hits check l child)
    ∙ or_here-first_full found (hits check (labelled l ++ zero_entries child))
    ∙ ap some (
        sym (
          longest_hits-child (char_to_ucs4 b) d (char_to_ucs4 a) l next child check
            (search_keys name) f))

-- On an ordered tree and a name that is not empty, the search reads nothing out of bounds and
-- returns the types, at most ten, under the longest ending of the name at which the tree offers
-- any; none if there is no such ending.
pub lookup_node-longest :
    (n : HashNode) (b : ℕ) (name : Bytes) (check : Bool)
    → IsTree n
    → All (λ x. 0 < x) (b ∷ name)
    → lookup_node n (b ∷ name) check ≡ some (longest_hits n check (search_keys (b ∷ name)))
lookup_node-longest nil b name check t h =
    unfold lookup_node in
    ap some (sym (longest_hits-nothing nil check (char_to_ucs4 b) (search_keys name) refl))
lookup_node-longest (node d l next child) b name check t h =
    elim (Bool-cases (ltb (char_to_ucs4 b) d)) [
      | inl e ↦
          let found =
            find_below (char_to_ucs4 b) d l next child t (ltb→lt (char_to_ucs4 b) d e)
              (char_to_ucs4-ne_zero b h.0) in
          lookup_node_below d l next child b name check e
          ∙ ap some (
              sym (
                longest_hits-nothing (node d l next child) check (char_to_ucs4 b) (search_keys name)
                  found))
      | inr e ↦ elim (Bool-cases (char_to_ucs4 b == d)) [
        | inl f ↦
            lookup_node-here d l next child b name check e f h.1
              (λ a cs w. lookup_node-longest child a cs check t.3 w)
        | inr f ↦
            lookup_node_above d l next child b name check e f
            ∙ lookup_node-longest next b name check t.2 h
            ∙ ap some
                (sym (longest_hits-next (char_to_ucs4 b) d l next child check (search_keys name) f))
      ]
    ]
