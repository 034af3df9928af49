-- ===== src/Mime/Glob/Hash/Found.antt =====
-- From `_xdg_glob_hash_append_glob` of src/mime/xdgmimeglob.c to the lookup.
use mathlib.Core.List.{reverse, reverse-cons, reverse-append, map-append}
use mathlib.Core.Option.{some-injective}
use libxdg.Base.{
  ℕ, zero, suc, ◌≤◌, ◌<◌, ◌≡◌, ◌≢◌, refl, sym, ap, ap₂, ◌∙◌, subst, Bool, true, false, inl, inr,
  Option, none, some, List, [], ◌∷◌, ◌++◌, length, some_of, All, arith, List-cases, take, map,
  lt→ltb,
}
use libxdg.Base.Sort.{IsQsort, length-Permᴰ}
use libxdg.Base.Text.{Bytes, IsText}
use libxdg.Mime.Unicode.{char_to_ucs4}
use libxdg.Mime.Unicode.Decode.{encode_all, IsCodePoint}
use libxdg.Mime.Glob.Tree.{GlobEntry, MimeWeight}
use libxdg.Mime.Glob.Tree.Stored.{stored, add_entry, hits}
use libxdg.Mime.Glob.Tree.Ordered.{IsTree}
use libxdg.Mime.Glob.Tree.Lookup.{first_full, at_longest, longest_hits, search_keys}
use libxdg.Mime.Glob.Hash.{
  GlobHash, star, is_special, mimes_size, ascii_tolower, append_glob, literal_type, exact_test,
  lower_test, lookup_file_name,
}
use libxdg.Mime.Glob.Hash.Append.{append_glob-simple}
use libxdg.Mime.Glob.Hash.Search.{
  Heavier, pattern_matches, types_of_name, lookup_file_name-types, matching,
}

-- Characters of ASCII other than NUL.
abbrev pub IsAscii : Bytes → Type 0
IsAscii = All (λ b. (0 < b) × (b < 128))

module _ {ℓ} {A : Type ℓ} where
  first_full-left : (xs ys : List A) → xs ≢ [] → first_full xs ys ≢ []
  first_full-left [] ys h e = h refl
  first_full-left (x ∷ xs) ys h e = h e

  first_full-right : (xs ys : List A) → ys ≢ [] → first_full xs ys ≢ []
  first_full-right [] ys h e = h e
  first_full-right (x ∷ xs) ys h e = absurd (cc)

  at_longest-full :
      (f : List ℕ → List A) (p q : List ℕ) → p ≢ [] → f p ≢ [] → at_longest f (p ++ q) ≢ []
  at_longest-full f [] q n h e = n refl
  at_longest-full f (c ∷ []) q n h e =
      first_full-right (at_longest (λ r. f (c ∷ r)) q) (f (c ∷ [])) h e
  at_longest-full f (c ∷ d ∷ p) q n h e =
      first_full-left (at_longest (λ r. f (c ∷ r)) (d ∷ (p ++ q))) (f (c ∷ []))
        (at_longest-full (λ r. f (c ∷ r)) (d ∷ p) q (λ w. absurd (cc)) h) e

hits-full : (es : List GlobEntry) → es ≢ [] → hits true es ≢ []
hits-full [] n e = n refl
hits-full (x ∷ es) n e = absurd (cc)

add_entry-full : (e : GlobEntry) (es : List GlobEntry) → add_entry e es ≢ []
add_entry-full e [] h = absurd (cc)
add_entry-full e (f ∷ es) h = absurd (ground arith)

search_keys-ascii : (s : Bytes) → IsAscii s → search_keys s ≡ s
unfolding char_to_ucs4
search_keys-ascii [] h = refl
search_keys-ascii (c ∷ s) h = ap₂ ◌∷◌ (rw (lt→ltb c 128 h.0.1)) (search_keys-ascii s h.1)

IsAscii-append : (a b : Bytes) → IsAscii a → IsAscii b → IsAscii (a ++ b)
IsAscii-append [] b h k = k
IsAscii-append (x ∷ a) b h k = (h.0, IsAscii-append a b h.1 k)

IsAscii-IsCodePoint : (us : Bytes) → IsAscii us → All IsCodePoint us
IsAscii-IsCodePoint [] h = tt
IsAscii-IsCodePoint (u ∷ us) h = ((omega arith, omega arith), IsAscii-IsCodePoint us h.1)

-- The types that a name gets, from how many there are before the cut.
take-full {ℓ} : {A : Type ℓ} (n : ℕ) (xs : List A) → 0 < n → xs ≢ [] → take n xs ≢ []
take-full zero xs h n e = absurd (omega arith)
take-full (suc k) [] h n e = n refl
take-full (suc k) (x ∷ xs) h n e = absurd (cc)

map-full {ℓ κ} : {A : Type ℓ} {B : Type κ} (f : A → B) (xs : List A) → xs ≢ [] → map f xs ≢ []
map-full f [] n e = n refl
map-full f (x ∷ xs) n e = absurd (cc)

sort-full :
    (qsort : List MimeWeight → List MimeWeight) (xs : List MimeWeight)
    → IsQsort Heavier qsort
    → xs ≢ []
    → qsort xs ≢ []
sort-full qsort [] q n e = n refl
sort-full qsort (x ∷ xs) q n e =
    let l = length-Permᴰ (q.permutes (x ∷ xs)) in
    let z : length (qsort (x ∷ xs)) ≡ 0 = ap length e in absurd (omega arith)

types_of_name-full :
    (qsort : List MimeWeight → List MimeWeight) (fnmatch : Bytes → Bytes → Bool) (hash : GlobHash)
    (name : Bytes) (limit : ℕ)
    → IsQsort Heavier qsort
    → 0 < limit
    → pattern_matches fnmatch hash name limit ≢ []
    → types_of_name qsort fnmatch hash name limit ≢ []
types_of_name-full qsort fnmatch hash name limit q p n =
    either (literal_type (exact_test name) hash.literal_list)
      (literal_type (lower_test (ascii_tolower name)) hash.literal_list)
  where
    found : List Bytes
    found = map (λ m. m.mime) (take limit (qsort (pattern_matches fnmatch hash name limit)))

    found_full : found ≢ []
    found_full =
        map-full (λ m. m.mime) (take limit (qsort (pattern_matches fnmatch hash name limit)))
          (take-full limit (qsort (pattern_matches fnmatch hash name limit)) p
            (sort-full qsort (pattern_matches fnmatch hash name limit) q n))

    either :
        (exact lower : Option Bytes)
        → (elim exact as (λ _. List Bytes) [
          | some m ↦ m ∷ []
          | none ↦ elim lower [ some m ↦ m ∷ [] | none ↦ found ]
        ])
          ≢ []
    either (some m) lower e = absurd (cc)
    either none (some m) e = absurd (cc)
    either none none e = found_full e

IsAscii-IsText : (s : Bytes) → IsAscii s → IsText s
IsAscii-IsText [] h = tt
IsAscii-IsText (c ∷ s) h = (h.0.0, IsAscii-IsText s h.1)

IsAscii-reverse : (s : Bytes) → IsAscii s → IsAscii (reverse s)
IsAscii-reverse [] h = tt
IsAscii-reverse (c ∷ s) h =
    subst IsAscii (sym (reverse-cons c s))
      (IsAscii-append (reverse s) (c ∷ []) (IsAscii-reverse s h.1) (h.0, tt))

append-ne-nil : (a b : Bytes) → b ≢ [] → a ++ b ≢ []
append-ne-nil [] b h e = h e
append-ne-nil (x ∷ a) b h e = absurd (cc)

reverse-ne-nil : (s : Bytes) → s ≢ [] → reverse s ≢ []
reverse-ne-nil [] h e = h refl
reverse-ne-nil (c ∷ s) h e =
    append-ne-nil (reverse s) (c ∷ []) (λ w. absurd (cc)) (sym (reverse-cons c s) ∙ e)

-- An ending under which the tree has an entry is found with the letters as they are.
pattern_matches-full :
    (fnmatch : Bytes → Bytes → Bool) (hash : GlobHash) (stem us : Bytes) (limit : ℕ)
    → IsAscii us
    → us ≢ []
    → stored hash.simple_node (reverse us) ≢ []
    → pattern_matches fnmatch hash (stem ++ us) limit ≢ []
pattern_matches-full fnmatch hash stem us limit h ne s =
    first_full-right
      (longest_hits hash.simple_node false (search_keys (reverse (ascii_tolower (stem ++ us)))))
      (first_full exact others) (first_full-left exact others exact_full)
  where
    exact : List MimeWeight
    exact = longest_hits hash.simple_node true (search_keys (reverse (stem ++ us)))

    others : List MimeWeight
    others = take limit (matching (λ i. fnmatch i.text (stem ++ us)) hash.full_list)

    keys : search_keys (reverse (stem ++ us)) ≡ reverse us ++ search_keys (reverse stem)
    keys =
        ap search_keys (reverse-append stem us)
        ∙ map-append char_to_ucs4 (reverse us) (reverse stem)
        ∙ ap (λ k. k ++ search_keys (reverse stem))
            (search_keys-ascii (reverse us) (IsAscii-reverse us h))

    exact_full : exact ≢ []
    exact_full =
        subst (λ k. longest_hits hash.simple_node true k ≢ []) (sym keys)
          (at_longest-full (λ p. hits true (stored hash.simple_node p)) (reverse us)
            (search_keys (reverse stem)) (reverse-ne-nil us ne) (hits-full _ s))

-- Once a pattern of a star and further ASCII characters, none of them special, is added to a table
-- with an ordered tree, every ASCII name that ends in these characters gets at least one type, with
-- room for one to ten and whatever `fnmatch` does.
pub append_glob-lookup :
    (qsort : List MimeWeight → List MimeWeight) (fnmatch : Bytes → Bytes → Bool)
    (hash hash' : GlobHash) (stem us : Bytes) (e : GlobEntry) (limit : ℕ)
    → IsQsort Heavier qsort
    → IsTree hash.simple_node
    → us ≢ []
    → IsAscii us
    → IsAscii stem
    → some_of is_special us ≡ false
    → 0 < limit
    → limit ≤ mimes_size
    → append_glob hash (encode_all (star ∷ us)) e ≡ some hash'
    → (t : Bytes) × (ts : List Bytes) × (lookup_file_name qsort fnmatch hash' (stem ++ us) limit
        ≡ some (t ∷ ts))
append_glob-lookup qsort fnmatch hash hash' stem us e limit q t ne h k s p m made =
    let (n, appended, tree, here, _) =
      append_glob-simple hash us e t ne (IsAscii-IsCodePoint us h) s in
    let new : GlobHash = record hash { simple_node = n } in
    let same : new ≡ hash' = some-injective new hash' (sym appended ∙ made) in
    let stored_full : stored n (reverse us) ≢ [] =
      λ w. add_entry-full e (stored hash.simple_node (reverse us)) (sym here ∙ w) in
    let full =
      types_of_name-full qsort fnmatch new (stem ++ us) limit q p
        (pattern_matches-full fnmatch new stem us limit h ne stored_full) in
    let found =
      lookup_file_name-types qsort fnmatch new (stem ++ us) limit tree
        (IsAscii-IsText (stem ++ us) (IsAscii-append stem us k h)) (append-ne-nil stem us ne) p m in
    subst
      (λ x.
        (t : Bytes) × (ts : List Bytes) × (lookup_file_name qsort fnmatch x (stem ++ us) limit
          ≡ some (t ∷ ts)))
      same
      (elim (List-cases (types_of_name qsort fnmatch new (stem ++ us) limit)) [
        | inl z ↦ absurd (full z)
        | inr (x, xs, z) ↦ (x, xs, found ∙ ap some z)
      ])
