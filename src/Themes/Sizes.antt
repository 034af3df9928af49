-- ===== src/Themes/Sizes.antt =====
-- The directories of a theme that fit a size, in src/themes/xdgtheme.c. `atoi` of the C library is
-- an argument; the sums of sizes wrap as those of an `int` do on usual processors.
use libxdg.Base.{
  ℕ, zero, suc, Bool, true, false, ◌&&◌, Option, none, some, List, [], ◌∷◌, ltb, ◌+◌, if◌then◌else◌,
  not,
}
use libxdg.Base.Int.{ℤ, pos, pos_part, neg_part, ◌+ℤ◌, ◌-ℤ◌, absℤ}
use libxdg.Base.Text.{Bytes, codes, str_eq}
use libxdg.Base.Words.{wrapped}
use libxdg.Themes.{Group, search_map}

abbrev pub ltℤ : ℤ → ℤ → Bool
ltℤ a b = ltb (pos_part a + neg_part b) (pos_part b + neg_part a)

-- `*minimal_size` and `*closestDirName`.
pub record Closest : Type 0 where
  pub minimal_size : ℤ
  pub closest_name : Option Bytes

-- `if ((tmp_size = …) < (*minimal_size))`
abbrev pub closer : ℤ → Bytes → Closest → Closest
closer tmp_size directory c =
    if ltℤ tmp_size c.minimal_size
    then record { minimal_size = tmp_size; closest_name = some directory }
    else c

abbrev pub exact : Bytes → Closest
exact directory = record { minimal_size = pos 0; closest_name = some directory }

abbrev pub head_value : Option (List Bytes) → Option Bytes
head_value none = none
head_value (some []) = none
head_value (some (v ∷ vs)) = some v

-- The first value of an entry, if there is one.
abbrev pub first_value : Bytes → Group → Option Bytes
first_value key group = head_value (search_map key group)

module _ (atoi : Bytes → ℤ) where
  abbrev pub number_or : ℤ → Option Bytes → ℤ
  number_or initial none = initial
  number_or initial (some v) = atoi v

  abbrev pub number_at : Bytes → ℤ → Group → ℤ
  number_at key initial group = number_or initial (first_value key group)

  abbrev pub matches_threshold : Group → ℤ → ℤ → ℤ → Bytes → Closest → Bool × Closest
  matches_threshold group size dir_size threshold directory c =
      if not (ltℤ size (wrapped (dir_size -ℤ threshold)))
        && not (ltℤ (wrapped (dir_size +ℤ threshold)) size)
      then (true, c)
      else if ltℤ size (wrapped (dir_size -ℤ threshold))
      then (
        false,
        closer (wrapped (number_at (codes "MinSize") dir_size group -ℤ size)) directory c,
      )
      else if ltℤ (wrapped (dir_size +ℤ threshold)) size
      then (
        false,
        closer (wrapped (size -ℤ number_at (codes "MaxSize") dir_size group)) directory c,
      )
      else (false, exact directory)

  abbrev pub matches_fixed : ℤ → ℤ → Bytes → Closest → Bool × Closest
  matches_fixed size dir_size directory c =
      if not (ltℤ size dir_size) && not (ltℤ dir_size size)
      then (true, c)
      else (false, closer (wrapped (absℤ (wrapped (dir_size -ℤ size)))) directory c)

  abbrev pub matches_scaled : ℤ → ℤ → ℤ → Bytes → Closest → Bool × Closest
  matches_scaled size min_size max_size directory c =
      if not (ltℤ size min_size) && not (ltℤ max_size size)
      then (true, c)
      else if ltℤ size min_size
      then (false, closer (wrapped (min_size -ℤ size)) directory c)
      else if ltℤ max_size size
      then (false, closer (wrapped (size -ℤ max_size)) directory c)
      else (false, exact directory)

  -- The branches on the type.
  abbrev pub matches_type : Group → ℤ → Bytes → ℤ → Bytes → Closest → Bool × Closest
  matches_type group size type dir_size directory c =
      if str_eq type (codes "Threshold")
      then matches_threshold group size dir_size (number_at (codes "Threshold") (pos 2) group)
          directory c
      else if str_eq type (codes "Fixed")
      then matches_fixed size dir_size directory c
      else if str_eq type (codes "Scaled")
      then matches_scaled size (number_at (codes "MinSize") dir_size group)
          (number_at (codes "MaxSize") dir_size group) directory c
      else (false, c)

  abbrev pub matches_values :
      Group → ℤ → Option Bytes → Option Bytes → Bytes → Closest → Bool × Closest
  matches_values group size none dir_size directory c = (false, c)
  matches_values group size (some type) none directory c = (false, c)
  matches_values group size (some type) (some dir_size) directory c =
      matches_type group size type (atoi dir_size) directory c

  -- `_xdg_mime_directory_matches_size`
  unfoldable pub directory_matches_size : Group → ℤ → Bytes → Closest → Bool × Closest
  unfolding search_map str_eq
  directory_matches_size group size directory c =
      matches_values group size (first_value (codes "Type") group)
        (first_value (codes "Size") group) directory c

  abbrev pub in_context : Bytes → Option Bytes → Bool
  in_context context none = false
  in_context context (some v) = str_eq v context

  -- `_xdg_mime_directory_matches_size_and_context`; the context is its text in `contextes`.
  unfoldable pub directory_matches_size_and_context :
      Group → ℤ → Bytes → Bytes → Closest → Bool × Closest
  unfolding directory_matches_size
  directory_matches_size_and_context group size context directory c =
      if in_context context (first_value (codes "Context") group)
      then directory_matches_size group size directory c
      else (false, c)

-- `contextes`, by the index of the type `Context`; none is an index behind it.
abbrev pub context_at : List Bytes → ℕ → Option Bytes
context_at [] i = none
context_at (c ∷ cs) zero = some c
context_at (c ∷ cs) (suc i) = context_at cs i

abbrev pub contextes : List Bytes
contextes =
    codes "Actions"
    ∷ codes "Animations"
    ∷ codes "Applications"
    ∷ codes "Categories"
    ∷ codes "Devices"
    ∷ codes "Emblems"
    ∷ codes "Emotes"
    ∷ codes "FileSystems"
    ∷ codes "International"
    ∷ codes "MimeTypes"
    ∷ codes "Places"
    ∷ codes "Status"
    ∷ codes "Stock"
    ∷ []
