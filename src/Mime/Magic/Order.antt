-- ===== src/Mime/Magic/Order.antt =====
-- `_xdg_mime_magic_insert_match` and `_xdg_mime_magic_matchlet_mirror` of src/mime/xdgmimemagic.c:
-- the order of the matches, and of the matchlets of one match.
use mathlib.Core.List.{reverse, reverse-cons, append_assoc, append-nil}
use libxdg.Base.{
  ℕ, ◌≤◌, ◌≡◌, refl, sym, ap, ◌∙◌, Bool, inl, inr, List, [], ◌∷◌, ◌++◌, ltb, leb, All, take_while,
  drop_while, arith, Bool-cases, ltb→lt, ltb_false→le,
}
use libxdg.Base.Sort.{IsSorted}
use libxdg.Mime.Magic.{Matchlet, MagicMatch, insert_match, mirror_onto, matchlet_mirror}

-- The greater priority first.
abbrev pub Before : MagicMatch → MagicMatch → Type 0
Before a b = b.priority ≤ a.priority

-- Of at least a priority.
abbrev pub at_least : ℕ → MagicMatch → Bool
at_least p m = leb p m.priority

insert_match-All :
    (P : MagicMatch → Type 0) (ms : List MagicMatch) (new : MagicMatch)
    → All P ms
    → P new
    → All P (insert_match ms new)
unfolding insert_match
insert_match-All P [] new h p = (p, tt)
insert_match-All P (m ∷ ms) new h p = elim (Bool-cases (ltb m.priority new.priority)) [
  | inl e ↦ rw e (p, h)
  | inr e ↦ rw e (h.0, insert_match-All P ms new h.1 p)
]

All-Before :
    (ms : List MagicMatch) (a b : MagicMatch)
    → a.priority ≤ b.priority
    → All (Before a) ms
    → All (Before b) ms
All-Before [] a b h k = tt
All-Before (m ∷ ms) a b h k = (omega arith, All-Before ms a b h k.1)

insert_match-IsSorted_lem :
    (ms : List MagicMatch) (new : MagicMatch)
    → IsSorted Before ms
    → IsSorted Before (insert_match ms new)
unfolding insert_match
insert_match-IsSorted_lem [] new s = (tt, tt)
insert_match-IsSorted_lem (m ∷ ms) new s = elim (Bool-cases (ltb m.priority new.priority)) [
  | inl e ↦ rw e (
    (
      omega (arith, ltb→lt m.priority new.priority e),
      All-Before ms m new (omega (arith, ltb→lt m.priority new.priority e)) s.0,
    ),
    s,
  )
  | inr e ↦ rw e (
    insert_match-All (Before m) ms new s.0 (ltb_false→le m.priority new.priority e),
    insert_match-IsSorted_lem ms new s.1,
  )
]

insert_match-splits :
    (ms : List MagicMatch) (new : MagicMatch)
    → insert_match ms new
      ≡ take_while (at_least new.priority) ms ++ (new ∷ drop_while (at_least new.priority) ms)
unfolding insert_match
insert_match-splits [] new = refl
insert_match-splits (m ∷ ms) new = ground (arith, insert_match-splits ms new)

-- Inserting a match into a list in the order of priorities keeps that order, and puts the match
-- behind all those of at least its priority, which with the rest stay as they were.
pub insert_match-IsSorted :
    (ms : List MagicMatch) (new : MagicMatch)
    → IsSorted Before ms
    → IsSorted Before (insert_match ms new)
      × (insert_match ms new
          ≡ take_while (at_least new.priority) ms ++ (new ∷ drop_while (at_least new.priority) ms))
insert_match-IsSorted ms new s = (insert_match-IsSorted_lem ms new s, insert_match-splits ms new)

mirror_onto-reverse : (acc ms : List Matchlet) → mirror_onto acc ms ≡ reverse ms ++ acc
unfolding mirror_onto
mirror_onto-reverse acc [] = refl
mirror_onto-reverse acc (m ∷ ms) =
    mirror_onto-reverse (m ∷ acc) ms
    ∙ sym (append_assoc (reverse ms) (m ∷ []) acc)
    ∙ ap (λ l. l ++ acc) (sym (reverse-cons m ms))

-- The mirror of a list of matchlets is its reversal.
matchlet_mirror-reverse : (ms : List Matchlet) → matchlet_mirror ms ≡ reverse ms
unfolding matchlet_mirror
matchlet_mirror-reverse [] = refl
matchlet_mirror-reverse (m ∷ []) = refl
matchlet_mirror-reverse (m ∷ n ∷ ms) =
    mirror_onto-reverse [] (m ∷ n ∷ ms) ∙ append-nil (reverse (m ∷ n ∷ ms))
