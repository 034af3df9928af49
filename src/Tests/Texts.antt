-- ===== src/Tests/Texts.antt =====
-- The functions of src/mime/xdgmimeint.c on short texts.
use libxdg.Base.{◌≡◌, some, List, [], ◌∷◌, arith, ℕ}
use libxdg.Mime.Unicode.{convert_to_ucs4}
use libxdg.Mime.Unicode.Decode.{encode_all, convert_to_ucs4-encode}

-- One code point for each number of bytes from one to four.
abbrev points : List ℕ
points = 65 ∷ 0xE9 ∷ 0x20AC ∷ 0x1F600 ∷ []

convert_to_ucs4-encode_example : convert_to_ucs4 (encode_all points) ≡ some points
convert_to_ucs4-encode_example = convert_to_ucs4-encode points (ground arith)
