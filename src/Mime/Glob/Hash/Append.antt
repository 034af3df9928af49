-- ===== src/Mime/Glob/Hash/Append.antt =====
-- `_xdg_glob_hash_append_glob` and `_xdg_glob_list_append` of src/mime/xdgmimeglob.c: what a
-- pattern adds to the table.
use mathlib.Core.List.{reverse, reverse-cons, append-nil}
use libxdg.Base.{
  ℕ, ◌≤◌, ◌≡◌, ◌≢◌, refl, sym, ap, ◌∙◌, subst, true, false, inl, inr, none, some, List, [], ◌∷◌,
  ◌++◌, length, some_of, All, arith, Bool-cases, length-reverse,
}
use libxdg.Base.Text.{Bytes, codes, str_eq, str_eq_iff, str_eq_refl}
use libxdg.Mime.Unicode.Decode.{encode_all, IsCodePoint, convert_to_ucs4-encode}
use libxdg.Mime.Unicode.Reverse.{reverse_ucs4-reverse}
use libxdg.Mime.Glob.Tree.{GlobEntry, HashNode, insert_ucs4}
use libxdg.Mime.Glob.Tree.Stored.{stored, add_entry}
use libxdg.Mime.Glob.Tree.Ordered.{IsTree}
use libxdg.Mime.Glob.Tree.Insert.{IsKey}
use libxdg.Mime.Glob.Tree.Entries.{insert_ucs4-stored}
use libxdg.Mime.Glob.Hash.{
  GlobItem, GlobHash, GlobType, simple, star, is_special, same_item, glob_list_append, insert_text,
  with_tree, append_as, determine_type, append_glob,
}
use libxdg.Mime.Glob.Hash.Kinds.{determine_type-glob_kind}

str_eq_comm : (a b : Bytes) → str_eq a b ≡ true → str_eq b a ≡ true
str_eq_comm a b h = (str_eq_iff b a).1 (sym ((str_eq_iff a b).0 h))

same_item_comm : (a b : GlobItem) → same_item a b ≡ true → same_item b a ≡ true
same_item_comm a b h =
    ground (arith, str_eq_comm b.text a.text, str_eq_comm b.entry.mime_type a.entry.mime_type)

-- No two items have both the text and the type in common.
abbrev pub IsUnique : List GlobItem → Type 0
IsUnique [] = Unit
IsUnique (i ∷ items) = (some_of (same_item i) items ≡ false) × IsUnique items

some_of-append :
    (new i : GlobItem) (items : List GlobItem)
    → some_of (same_item i) items ≡ false
    → same_item new i ≡ false
    → some_of (same_item i) (items ++ (new ∷ [])) ≡ false
some_of-append new i [] h k = ground (arith, same_item_comm i new)
some_of-append new i (j ∷ items) h k = ground (arith, some_of-append new i items)

IsUnique-append :
    (new : GlobItem) (items : List GlobItem)
    → IsUnique items
    → some_of (same_item new) items ≡ false
    → IsUnique (items ++ (new ∷ []))
IsUnique-append new [] u h = (refl, tt)
IsUnique-append new (i ∷ items) u h =
    (some_of-append new i items u.0 (ground arith), IsUnique-append new items u.1 (ground arith))

same_item_refl : (i : GlobItem) → same_item i i ≡ true
same_item_refl i = rw (str_eq_refl i.text, str_eq_refl i.entry.mime_type)

some_of_last :
    (new : GlobItem) (items : List GlobItem) → some_of (same_item new) (items ++ (new ∷ [])) ≡ true
some_of_last new [] = rw (same_item_refl new)
some_of_last new (i ∷ items) = ground (arith, some_of_last new items)

-- After an append the list has an item with the new text and type, still no two items have both in
-- common, and it is the old list with at most one item behind it.
glob_list_append-IsUnique :
    (items : List GlobItem) (new : GlobItem)
    → IsUnique items
    → IsUnique (glob_list_append items new)
      × (some_of (same_item new) (glob_list_append items new) ≡ true)
      × ((more : List GlobItem) × (glob_list_append items new ≡ items ++ more) × (length more ≤ 1))
unfolding glob_list_append
glob_list_append-IsUnique items new u = elim (Bool-cases (some_of (same_item new) items)) [
  | inl e ↦ rw (e, glob_list_append) (u, e, ([], sym (append-nil items), omega arith))
  | inr e ↦
      rw (e, glob_list_append)
        (IsUnique-append new items u e, some_of_last new items, (new ∷ [], refl, omega arith))
]

-- The pattern of a star alone is inserted as an empty text: the read behind its NUL is out of
-- bounds, whatever the table holds.
append_glob_star : (hash : GlobHash) (e : GlobEntry) → append_glob hash (codes "*") e ≡ none
unfolding append_glob
append_glob_star hash e = refl

All-reverse : (P : ℕ → Type 0) (us : List ℕ) → All P us → All P (reverse us)
All-reverse P [] h = tt
All-reverse P (u ∷ us) h =
    subst (All P) (sym (reverse-cons u us)) (last (reverse us) (All-reverse P us h.1))
  where
    last : (xs : List ℕ) → All P xs → All P (xs ++ (u ∷ []))
    last [] k = (h.0, tt)
    last (x ∷ xs) k = (k.0, last xs k.1)

IsKey-of_All : (key : List ℕ) → key ≢ [] → All (λ x. x ≢ 0) key → IsKey key
IsKey-of_All [] ne h = ne refl
IsKey-of_All (c ∷ key) ne h = h

reverse-IsKey : (us : List ℕ) → us ≢ [] → All IsCodePoint us → IsKey (reverse us)
reverse-IsKey us ne h =
    IsKey-of_All (reverse us) full_reverse (All-reverse (λ x. x ≢ 0) us (not_zero us h))
  where
    not_zero : (vs : List ℕ) → All IsCodePoint vs → All (λ x. x ≢ 0) vs
    not_zero [] k = tt
    not_zero (v ∷ vs) k = (λ z. omega arith, not_zero vs k.1)

    full_reverse : reverse us ≢ []
    full_reverse e = ne (length_zero us (sym (length-reverse us) ∙ ap length e))
      where
        length_zero : (vs : List ℕ) → length vs ≡ 0 → vs ≡ []
        length_zero [] k = refl
        length_zero (v ∷ vs) k = absurd (omega arith)

insert_text-reverse :
    (n : HashNode) (us : List ℕ) (e : GlobEntry)
    → All IsCodePoint us
    → insert_text n (encode_all us) e ≡ insert_ucs4 (reverse us) e n
unfolding insert_text
insert_text-reverse n us e h =
    rw (convert_to_ucs4-encode us h, insert_text, reverse_ucs4-reverse us)

append_glob-as :
    (hash : GlobHash) (glob : Bytes) (e : GlobEntry) (t : GlobType)
    → determine_type glob ≡ some t
    → append_glob hash glob e ≡ append_as hash glob e (some t)
unfolding append_glob
append_glob-as hash glob e t h = ap (append_as hash glob e) h

-- A star in front of some characters, none of them special, adds its entry to the tree under these
-- characters read backwards; it does so without a fault, and keeps the tree ordered, the entries
-- under every other key without 0, and both lists.
pub append_glob-simple :
    (hash : GlobHash) (us : List ℕ) (e : GlobEntry)
    → IsTree hash.simple_node
    → us ≢ []
    → All IsCodePoint us
    → some_of is_special us ≡ false
    → (n : HashNode) × (append_glob hash (encode_all (star ∷ us)) e
        ≡ some (record hash { simple_node = n }))
      × IsTree n
      × (stored n (reverse us) ≡ add_entry e (stored hash.simple_node (reverse us)))
      × ((key : List ℕ)
          → All (λ x. x ≢ 0) key
          → reverse us ≢ key
          → stored n key ≡ stored hash.simple_node key)
append_glob-simple hash us e t ne h s =
    let (n, made, tree, here, others) =
      insert_ucs4-stored (reverse us) e hash.simple_node (reverse-IsKey us ne h) t in
    let kind : determine_type (encode_all (star ∷ us)) ≡ some simple =
      determine_type-glob_kind (star ∷ us) ((omega arith, omega arith), h) ∙ rw s in
    (
      n,
      append_glob-as hash (encode_all (star ∷ us)) e simple kind
          ∙ unfold append_as in
            ap (with_tree hash) (insert_text-reverse hash.simple_node us e h ∙ made),
      tree,
      here,
      others,
    )
