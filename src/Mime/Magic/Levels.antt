-- ===== src/Mime/Magic/Levels.antt =====
-- `_xdg_mime_magic_matchlet_compare_level` of src/mime/xdgmimemagic.c and forests of matchlets,
-- written as one list with indents.
use mathlib.Core.List.{append-nil, append_assoc}
use native.Mathlib.Numerals.{add-one}
use libxdg.Base.{
  ℕ, zero, suc, ◌+◌, ◌<◌, ◌≡◌, refl, sym, ap, ◌∙◌, Bool, true, false, ◌&&◌, ◌||◌, List, [], ◌∷◌,
  ◌++◌, ltb, if◌then◌else◌, arith, lt→ltb, le→leb, ==-ne, ==_iff,
}
use libxdg.Base.Text.{Bytes}
use libxdg.Mime.Magic.{
  Matchlet, MagicMatch, match_at, compare_from, matchlet_compare_to_data, is_leaf, compare_level,
  match_compare_to_data,
}

-- Matchlets with those below them: the first one, its children, and its later siblings.
pub data Forest : Type 0 where
  none : Forest
  rule : Matchlet → Forest → Forest → Forest

-- The list that a magic file writes, each matchlet with the depth at which it stands.
abbrev pub flatten : ℕ → Forest → List Matchlet
flatten d none = []
flatten d (rule m children siblings) =
    (record m { indent = d }) ∷ (flatten (suc d) children ++ flatten d siblings)

abbrev pub is_none : Forest → Bool
is_none none = true
is_none (rule m children siblings) = false

-- A matchlet accepts if it matches and, where it has children, one of them accepts; a forest
-- accepts if one of its matchlets does.
abbrev pub accepts : Bytes → Forest → Bool
accepts bytes none = false
accepts bytes (rule m children siblings) =
    matchlet_compare_to_data m bytes && (is_none children || accepts bytes children)
    || accepts bytes siblings

-- Whatever stands behind a forest at depth `d` does not belong to it.
abbrev EndsAbove : ℕ → List Matchlet → Type 0
EndsAbove d [] = Unit
EndsAbove d (m ∷ ms) = m.indent < d

EndsAbove-flatten :
    (d : ℕ) (f : Forest) (tail : List Matchlet)
    → EndsAbove d tail
    → EndsAbove (suc d) (flatten d f ++ tail)
EndsAbove-flatten d none [] h = tt
EndsAbove-flatten d none (m ∷ ms) h = omega arith
EndsAbove-flatten d (rule m children siblings) tail h = omega arith

is_leaf-flatten :
    (d : ℕ) (f : Forest) (tail : List Matchlet)
    → EndsAbove (suc d) tail
    → is_leaf d (flatten (suc d) f ++ tail) ≡ is_none f
is_leaf-flatten d none [] h = refl
is_leaf-flatten d none (m ∷ ms) h = le→leb m.indent d (omega arith)
is_leaf-flatten d (rule m children siblings) tail h = ground arith

compare_level_over :
    (bytes : Bytes) (d : ℕ) (m : Matchlet) (ms : List Matchlet)
    → d < m.indent
    → compare_level true bytes d (m ∷ ms) ≡ compare_level true bytes d ms
unfolding compare_level
compare_level_over bytes d m ms h = rw (lt→ltb d m.indent h)

-- The inner loop passes over deeper matchlets.
compare_level_pass :
    (bytes : Bytes) (d e : ℕ) (f : Forest) (tail : List Matchlet)
    → d < e
    → compare_level true bytes d (flatten e f ++ tail) ≡ compare_level true bytes d tail
compare_level_pass bytes d e none tail h = refl
compare_level_pass bytes d e (rule m children siblings) tail h =
    compare_level_over bytes d (record m { indent = e })
      ((flatten (suc e) children ++ flatten e siblings) ++ tail) h
    ∙ ap (compare_level true bytes d)
        (append_assoc (flatten (suc e) children) (flatten e siblings) tail)
    ∙ compare_level_pass bytes d (suc e) children (flatten e siblings ++ tail) (omega arith)
    ∙ compare_level_pass bytes d e siblings tail h

-- At a matchlet that is not deeper the inner loop has ended.
compare_level_end :
    (bytes : Bytes) (d : ℕ) (ms : List Matchlet)
    → EndsAbove (suc d) ms
    → compare_level true bytes d ms ≡ compare_level false bytes d ms
unfolding compare_level
compare_level_end bytes d [] h = refl
compare_level_end bytes d (m ∷ ms) h = let stop : ltb d m.indent ≡ false = ground arith in rw stop

-- What the loop returns at a matchlet of its own depth, from whether it matches.
abbrev here_value : Bool → Bytes → ℕ → List Matchlet → Bool
here_value matches bytes d ms =
    if matches && (is_leaf d ms || compare_level false bytes (suc d) ms)
    then true
    else compare_level true bytes d ms

compare_level_here :
    (bytes : Bytes) (d : ℕ) (m : Matchlet) (ms : List Matchlet)
    → m.indent ≡ d
    → compare_level false bytes d (m ∷ ms)
      ≡ here_value (matchlet_compare_to_data m bytes) bytes d ms
unfolding compare_level
compare_level_here bytes d m ms e = rw ((==_iff m.indent d).1 e, add-one)

here_parts :
    (matches : Bool) (bytes : Bytes) (d : ℕ) (ms : List Matchlet) (leaf below later : Bool)
    → is_leaf d ms ≡ leaf
    → compare_level false bytes (suc d) ms ≡ below
    → compare_level true bytes d ms ≡ later
    → here_value matches bytes d ms ≡ (matches && (leaf || below) || later)
here_parts matches bytes d ms leaf below later e f g = rw (e, f, g) (shape matches leaf below later)
  where
    shape : (a b c r : Bool) → (if a && (b || c) then true else r) ≡ (a && (b || c) || r)
    shape a b c r = ground arith

compare_from_indent :
    (rounds i d : ℕ) (m : Matchlet) (bytes : Bytes)
    → compare_from rounds i (record m { indent = d }) bytes ≡ compare_from rounds i m bytes
unfolding compare_from match_at
compare_from_indent zero i d m bytes = refl
compare_from_indent (suc rounds) i d m bytes = rw (compare_from_indent rounds (i + 1) d m bytes)

matchlet_compare_to_data_indent :
    (d : ℕ) (m : Matchlet) (bytes : Bytes)
    → matchlet_compare_to_data (record m { indent = d }) bytes ≡ matchlet_compare_to_data m bytes
unfolding matchlet_compare_to_data
matchlet_compare_to_data_indent d m bytes = compare_from_indent m.range_length m.offset d m bytes

compare_level-flatten :
    (bytes : Bytes) (d : ℕ) (f : Forest) (tail : List Matchlet)
    → EndsAbove d tail
    → compare_level false bytes d (flatten d f ++ tail) ≡ accepts bytes f
compare_level-flatten bytes d none [] h = unfold compare_level in refl
compare_level-flatten bytes d none (m ∷ ms) h =
    unfold compare_level in rw (==-ne m.indent d (omega arith))
compare_level-flatten bytes d (rule m children siblings) tail h =
    let after = flatten d siblings ++ tail in
    let ends = EndsAbove-flatten d siblings tail h in
    compare_level_here bytes d (record m { indent = d })
      ((flatten (suc d) children ++ flatten d siblings) ++ tail) refl
    ∙ ap (λ b. here_value b bytes d ((flatten (suc d) children ++ flatten d siblings) ++ tail))
        (matchlet_compare_to_data_indent d m bytes)
    ∙ ap (here_value (matchlet_compare_to_data m bytes) bytes d)
        (append_assoc (flatten (suc d) children) (flatten d siblings) tail)
    ∙ here_parts (matchlet_compare_to_data m bytes) bytes d (flatten (suc d) children ++ after)
        (is_none children) (accepts bytes children) (accepts bytes siblings)
        (is_leaf-flatten d children after ends)
        (compare_level-flatten bytes (suc d) children after ends)
        (compare_level_pass bytes d (suc d) children after (omega arith)
          ∙ compare_level_end bytes d after ends
          ∙ compare_level-flatten bytes d siblings tail h)

-- A section whose matchlets are written with the depths of a forest matches the data exactly if
-- the forest accepts them.
pub match_compare_to_data-accepts :
    (m : MagicMatch) (f : Forest) (bytes : Bytes)
    → m.matchlets ≡ flatten 0 f
    → match_compare_to_data m bytes ≡ accepts bytes f
unfolding match_compare_to_data
match_compare_to_data-accepts m f bytes e =
    ap (compare_level false bytes 0) (e ∙ sym (append-nil (flatten 0 f)))
    ∙ compare_level-flatten bytes 0 f [] tt
