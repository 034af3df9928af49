-- ===== src/Mime/Magic/Parse.antt =====
-- The headers and the lines of a magic file: `_xdg_mime_magic_parse_header`,
-- `_xdg_mime_magic_parse_magic_line` and `_xdg_mime_magic_parse_error` of src/mime/xdgmimemagic.c.
pub mod Shorter
use libxdg.Base.{
  ℕ, zero, suc, ◌+◌, ◌-◌, ◌*◌, ◌%◌, ◌^◌, Bool, true, false, not, ◌&&◌, ◌||◌, Option, none, some,
  List, [], ◌∷◌, ◌++◌, ltb, leb, ◌==◌, if◌then◌else◌, length, take, drop,
}
use libxdg.Base.Text.{Bytes, codes, strchr}
use libxdg.Mime.Magic.{
  Matchlet, MagicMatch, MimeMagic, insert_match, matchlet_mirror, update_extents,
}
use libxdg.Mime.Magic.Reader.{
  Out, got, at_eof, wrong, fault, Reader, on_got, ◌>>=◌, ◌>>◌, give, error_unless, newline, getc,
  fread, is_digit, push_byte, read_to_newline, read_a_number,
}
use libxdg.Mime.Magic.Swap.{swap_loop}

abbrev pub named : ℕ → Option (Bytes × Bytes) → Reader MagicMatch
named priority none s = wrong s
named priority (some (mime_type, behind)) s =
    got (record { mime_type = mime_type; priority = priority; matchlets = [] }) s

-- `_xdg_mime_magic_parse_header`. The text up to the newline has no NUL and no newline, so that
-- the loop over it looks for the bracket alone.
unfoldable pub parse_header : Reader MagicMatch
unfolding read_a_number read_to_newline
parse_header = do
  c ← getc
  error_unless (c == b'[')
  priority ← read_a_number
  d ← getc
  error_unless (d == b':')
  buffer ← read_to_newline
  named priority (strchr b']' buffer)

-- `_xdg_mime_magic_parse_error`
unfoldable pub parse_error : Reader (Unit {0})
parse_error [] = at_eof
parse_error (c ∷ s) = let rest = parse_error s in if c == newline then got tt s else rest

abbrev pub with_value : Matchlet → Option (Bytes × Option Bytes) → Reader Matchlet
with_value m none s = fault
with_value m (some (value, mask)) s = got (record m { value = value; mask = mask }) s

-- The clean-up of a matchlet at the end of its line.
unfoldable pub clean_up : Matchlet → Reader Matchlet
unfolding swap_loop
clean_up m =
    if ltb 1 m.word_size
    then (do
      error_unless (length m.value % m.word_size == 0)
      with_value m (swap_loop (length m.value) m.word_size 0 m.value m.mask))
    else give m

abbrev pub is_word_size : ℕ → Bool
is_word_size n = n == 0 || n == 1 || n == 2 || n == 4

-- The optional parts of a line, from the byte `c` on; each returns the byte behind it. A byte EOF
-- passes all tests and gives XDG_MIME_MAGIC_EOF at the end.
unfoldable pub read_mask : ℕ → ℕ → Reader (Option Bytes × ℕ)
read_mask value_length c =
    if c == b'&'
    then (do mask ← fread value_length; d ← getc; give (some mask, d))
    else give (none, c)

unfoldable pub read_word_size : ℕ → Reader (ℕ × ℕ)
unfolding read_a_number
read_word_size c =
    if c == b'~'
    then (do n ← read_a_number; error_unless (is_word_size n); d ← getc; give (n, d))
    else give (1, c)

unfoldable pub read_range : ℕ → Reader (ℕ × ℕ)
unfolding read_a_number
read_range c = if c == b'+' then (do n ← read_a_number; d ← getc; give (n, d)) else give (1, c)

-- A matchlet from the start offset on.
unfoldable pub read_matchlet : ℕ → Reader Matchlet
unfolding read_a_number read_mask read_word_size read_range clean_up
read_matchlet indent = do
  offset ← read_a_number
  c ← getc
  error_unless (c == b'=')
  high ← getc
  low ← getc
  value ← fread (high * 256 + low)
  d ← getc
  (mask, e) ← read_mask (high * 256 + low) d
  (word_size, f) ← read_word_size e
  (range_length, g) ← read_range f
  error_unless (g == newline)
  clean_up (record {
    indent = indent;
    offset = offset;
    value = value;
    mask = mask;
    range_length = range_length;
    word_size = word_size;
  })

-- The states of the reader that go on: XDG_MIME_MAGIC_SECTION and XDG_MIME_MAGIC_MAGIC, the latter
-- with the match that is built.
pub data Line : Type 0 where
  to_section : Line
  to_magic : MagicMatch → Line

-- The part of the line from the byte `c` on that must be a '>'.
unfoldable pub read_rule : MagicMatch → ℕ → ℕ → Reader Line
unfolding read_matchlet
read_rule m indent c = do
  error_unless (c == b'>')
  matchlet ← read_matchlet indent
  give (to_magic (record m { matchlets = matchlet ∷ m.matchlets }))

unfoldable pub read_indented : MagicMatch → Reader Line
unfolding read_a_number read_rule
read_indented m = do indent ← read_a_number; c ← getc; read_rule m indent c

-- `_xdg_mime_magic_parse_magic_line`. The bytes before `ungetc` are read again.
unfoldable pub parse_magic_line : MagicMatch → Reader Line
unfolding read_rule read_indented
parse_magic_line m [] = at_eof
parse_magic_line m (c ∷ s) =
    if c == b'['
    then got to_section (c ∷ s)
    else if c == newline
    then got (to_magic m) s
    else if is_digit c
    then read_indented m (c ∷ s)
    else read_rule m 0 c s
