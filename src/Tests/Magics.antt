-- ===== src/Tests/Magics.antt =====
-- The rules of src/mime/xdgmimemagic.c: two matches, one of which has a matchlet below another.
use libxdg.Base.{◌≡◌, refl, ◌↔◌, true, none, some, [], ◌∷◌, take, arith}
use libxdg.Base.Text.{codes, str_eq}
use mathlib.Core.Option.{none-ne-some}
use libxdg.Mime.Magic.{
  Matchlet, MagicMatch, matchlet_compare_to_data, match_compare_to_data, update_extents,
  lookup_data,
}
use libxdg.Mime.Magic.Compare.{OccursWithin, matchlet_compare_to_data_iff}
use libxdg.Mime.Magic.Levels.{Forest, none, rule, accepts, match_compare_to_data-accepts}
use libxdg.Mime.Magic.Extent.{AllSmall, lookup_data-take}

abbrev outer : Matchlet
outer = record {
  indent = 0;
  offset = 1;
  value = codes "PK";
  mask = none;
  range_length = 3;
  word_size = 1;
}

abbrev inner : Matchlet
inner = record {
  indent = 1;
  offset = 4;
  value = codes "z";
  mask = some (255 ∷ []);
  range_length = 1;
  word_size = 1;
}

abbrev forest : Forest
forest = rule outer (rule inner Forest.none Forest.none) Forest.none

abbrev zip : MagicMatch
zip = record { mime_type = codes "a/zip"; priority = 50; matchlets = outer ∷ inner ∷ [] }

abbrev pack : MagicMatch
pack = record { mime_type = codes "a/pack"; priority = 80; matchlets = inner ∷ [] }

abbrev low : MagicMatch
low = record { mime_type = codes "a/low"; priority = 10; matchlets = [] }

matchlet_compare_to_data_iff_example :
    (matchlet_compare_to_data outer (codes "xxPK") ≡ true) ↔ OccursWithin 3 1 outer (codes "xxPK")
matchlet_compare_to_data_iff_example =
    matchlet_compare_to_data_iff outer (codes "xxPK") (λ mask e. absurd (none-ne-some mask e))

match_compare_to_data-accepts_example :
    match_compare_to_data zip (codes "xPK.z") ≡ accepts (codes "xPK.z") forest
match_compare_to_data-accepts_example =
    match_compare_to_data-accepts zip forest (codes "xPK.z") refl

pack-zip-AllSmall : AllSmall (pack ∷ zip ∷ [])
pack-zip-AllSmall = ground arith

lookup_data-take_example :
    lookup_data str_eq
      (update_extents (pack ∷ zip ∷ []))
      (take (update_extents (pack ∷ zip ∷ [])).max_extent (codes "xPK.z and more"))
      (some (codes "a/zip") ∷ [])
    ≡ lookup_data str_eq
        (update_extents (pack ∷ zip ∷ []))
        (codes "xPK.z and more")
        (some (codes "a/zip") ∷ [])
lookup_data-take_example =
    lookup_data-take str_eq (pack ∷ zip ∷ []) (codes "xPK.z and more") (some (codes "a/zip") ∷ [])
      pack-zip-AllSmall
