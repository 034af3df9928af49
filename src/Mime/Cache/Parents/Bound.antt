-- ===== src/Mime/Cache/Parents/Bound.antt =====
-- The list of parents of a type in src/mime/xdgmimecache.c and its array of 128.
use libxdg.Base.{
  ◌≤◌, ◌≡◌, ◌≢◌, refl, sym, inl, inr, false, some, List, [], ◌∷◌, ◌++◌, leb, leb_false→lt, length,
  length-append, some_of, Any, All, Bool-cases, arith,
}
use libxdg.Base.Text.{Bytes, str_eq, str_eq-false}
use libxdg.Mime.Cache.{cache_unalias_mime_type}
use libxdg.Mime.Cache.Pairs.{Pair, AreTables, all_pairs, find_value, or_itself, cache_lookups-find}
use libxdg.Mime.Cache.Parents.{most_parents, add_new, cache_list_mime_parents}
use libxdg.Mime.Cache.Parents.Table.{
  Family, AreFamilies, family_of, take_new, take_families, add_cache_parents-take_families,
}

-- No text stands twice.
abbrev pub IsDistinct : List Bytes → Type 0
IsDistinct [] = Unit
IsDistinct (p ∷ ps) = All (λ q. p ≢ q) ps × IsDistinct ps

All-snoc :
    (P : Bytes → Type 0) (ps : List Bytes) (q : Bytes) → All P ps → P q → All P (ps ++ (q ∷ []))
All-snoc P [] q a h = (h, tt)
All-snoc P (p ∷ ps) q a h = (a.0, All-snoc P ps q a.1 h)

IsDistinct-snoc :
    (ps : List Bytes) (q : Bytes)
    → IsDistinct ps
    → some_of (str_eq q) ps ≡ false
    → IsDistinct (ps ++ (q ∷ []))
IsDistinct-snoc [] q d h = (tt, tt)
IsDistinct-snoc (p ∷ ps) q (a, d) h =
    let apart : str_eq q p ≡ false = ground arith in
    (
      All-snoc (λ x. p ≢ x) ps q a (λ e. str_eq-false q p apart (sym e)),
      IsDistinct-snoc ps q d (ground arith),
    )

-- What every addition keeps, for the texts that a test allows.
abbrev Keeps : (Bytes → Type 0) → List Bytes → Type 0
Keeps P ps = (length ps ≤ most_parents) × IsDistinct ps × All P ps

take_new-Keeps :
    (P : Bytes → Type 0) (ps qs : List Bytes) → Keeps P ps → All P qs → Keeps P (take_new ps qs)
take_new-Keeps P ps [] k a = k
take_new-Keeps P ps (q ∷ qs) k a = elim (Bool-cases (leb most_parents (length ps))) [
  | inl e ↦ rw e k
  | inr e ↦ rw e (take_new-Keeps P (add_new ps q) qs (added e) a.1)
]
  where
    added : leb most_parents (length ps) ≡ false → Keeps P (add_new ps q)
    added room = elim (Bool-cases (some_of (str_eq q) ps)) [
      | inl e ↦ rw e k
      | inr e ↦ rw e (
        omega (arith, length-append ps (q ∷ []), leb_false→lt most_parents (length ps) room),
        IsDistinct-snoc ps q k.1 e,
        All-snoc P ps q k.2 a.0,
      )
    ]

-- A parent that a table gives a type.
abbrev pub IsParent : Bytes → List (List Family) → Bytes → Type 0
IsParent mime tables p = Any (λ es. Any (λ q. q ≡ p) (family_of mime es)) tables

All-members :
    (Q : Bytes → Type 0) (ps : List Bytes) → ((p : Bytes) → Any (λ q. q ≡ p) ps → Q p) → All Q ps
All-members Q [] h = tt
All-members Q (p ∷ ps) h = (h p (inl refl), All-members Q ps (λ q a. h q (inr a)))

All-parents :
    (Q : Bytes → Type 0) (mime : Bytes) (tables : List (List Family))
    → ((p : Bytes) → IsParent mime tables p → Q p)
    → All (λ es. All Q (family_of mime es)) tables
All-parents Q mime [] h = tt
All-parents Q mime (es ∷ tables) h = (
  All-members Q (family_of mime es) (λ p a. h p (inl a)),
  All-parents Q mime tables (λ p a. h p (inr a)),
)

take_families-Keeps :
    (P : Bytes → Type 0) (mime : Bytes) (tables : List (List Family)) (ps : List Bytes)
    → All (λ es. All P (family_of mime es)) tables
    → Keeps P ps
    → Keeps P (take_families mime tables ps)
take_families-Keeps P mime [] ps a k = k
take_families-Keeps P mime (es ∷ tables) ps (a, more) k =
    take_families-Keeps P mime tables (take_new ps (family_of mime es)) more
      (take_new-Keeps P ps (family_of mime es) k a)

parents_of-bounded :
    (caches : List Bytes) (tables : List (List Family)) (mime umime : Bytes)
    → AreFamilies caches tables
    → cache_unalias_mime_type caches mime ≡ some umime
    → (ps : List Bytes) × (cache_list_mime_parents caches mime ≡ some ps)
      × (length ps ≤ most_parents)
      × IsDistinct ps
      × All (IsParent umime tables) ps
unfolding cache_list_mime_parents
parents_of-bounded caches tables mime umime h e =
    let (short, distinct, parents) =
      take_families-Keeps (IsParent umime tables) umime tables []
        (All-parents (IsParent umime tables) umime tables (λ p x. x)) (omega arith, tt, tt) in
    (
      take_families umime tables [],
      rw (e, cache_list_mime_parents) (add_cache_parents-take_families caches tables umime [] h),
      short,
      distinct,
      parents,
    )

-- On caches that hold tables of aliases, as for the lookup of aliases, and tables of types with their
-- parents, the list of parents of a type has no fault, holds at most 127 texts, none twice, and only
-- parents that the tables give the type that the first alias stands for or, without one, the type
-- itself.
pub cache_list_mime_parents-bounded :
    (caches : List Bytes) (aliases : List (List Pair)) (tables : List (List Family)) (mime : Bytes)
    → AreTables 4 caches aliases
    → AreFamilies caches tables
    → (ps : List Bytes) × (cache_list_mime_parents caches mime ≡ some ps)
      × (length ps ≤ most_parents)
      × IsDistinct ps
      × All (IsParent (or_itself mime (find_value mime (all_pairs aliases))) tables) ps
cache_list_mime_parents-bounded caches aliases tables mime a h =
    parents_of-bounded caches tables mime (or_itself mime (find_value mime (all_pairs aliases))) h
      (cache_lookups-find 4 mime caches aliases aliases a a).0
