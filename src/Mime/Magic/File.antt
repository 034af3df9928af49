-- ===== src/Mime/Magic/File.antt =====
-- `_xdg_mime_magic_read_magic_file` of src/mime/xdgmimemagic.c: the state machine over the lines.
pub mod Total
use libxdg.Base.{
  ℕ, zero, suc, ◌+◌, ◌-◌, ◌*◌, ◌%◌, ◌^◌, Bool, true, false, not, ◌&&◌, ◌||◌, Option, none, some,
  List, [], ◌∷◌, ◌++◌, ltb, leb, ◌==◌, if◌then◌else◌, length, take, drop,
}
use libxdg.Base.Text.{Bytes, codes, strchr}
use libxdg.Mime.Magic.{
  Matchlet, MagicMatch, MimeMagic, bytes_match, insert_match, matchlet_mirror, update_extents,
}
use libxdg.Mime.Magic.Reader.{
  Out, got, at_eof, wrong, fault, Reader, on_got, ◌>>=◌, ◌>>◌, give, error_unless, newline, getc,
  fread, is_digit, push_byte, read_to_newline, read_a_number,
}
use libxdg.Mime.Magic.Parse.{
  Line, to_section, to_magic, parse_header, parse_error, parse_magic_line,
}

-- `XdgMimeMagicState`, with the match that is built.
pub data State : Type 0 where
  section : State
  magic : MagicMatch → State
  error : State
  eof : State

abbrev pub finished : MagicMatch → MagicMatch
finished m = record m { matchlets = matchlet_mirror m.matchlets }

-- A round of `_xdg_mime_magic_read_magic_file`: the next state, the matches and the bytes left.
pub data Round : Type 0 where
  next : State → List MagicMatch → Bytes → Round
  broken : Round

abbrev pub after_header : List MagicMatch → Out MagicMatch → Round
after_header ms (got m rest) = next (magic m) ms rest
after_header ms at_eof = next eof ms []
after_header ms (wrong rest) = next error ms rest
after_header ms fault = broken

-- In this state the match has a type, so that the end of the file inserts it as well.
abbrev pub after_line : MagicMatch → List MagicMatch → Out Line → Round
after_line m ms (got to_section rest) = next section (insert_match ms (finished m)) rest
after_line m ms (got (to_magic m') rest) = next (magic m') ms rest
after_line m ms at_eof = next eof (insert_match ms (finished m)) []
after_line m ms (wrong rest) = next error ms rest
after_line m ms fault = broken

abbrev pub after_error : List MagicMatch → Out (Unit {0}) → Round
after_error ms (got u rest) = next section ms rest
after_error ms at_eof = next eof ms []
after_error ms (wrong rest) = next error ms rest
after_error ms fault = broken

unfoldable pub round : State → List MagicMatch → Bytes → Round
unfolding parse_header parse_magic_line parse_error
round section ms s = after_header ms (parse_header s)
round (magic m) ms s = after_line m ms (parse_magic_line m s)
round error ms s = after_error ms (parse_error s)
round eof ms s = next eof ms s

-- The result of reading: the matches, a write out of bounds, or no fuel left.
pub data Reading : Type 0 where
  matches : List MagicMatch → Reading
  overflow : Reading
  no_fuel : Reading

abbrev pub go_on : (State → List MagicMatch → Bytes → Reading) → Round → Reading
go_on loop (next state ms s) = loop state ms s
go_on loop broken = overflow

-- `while (state != XDG_MIME_MAGIC_EOF)`
unfoldable pub read_loop : ℕ → State → List MagicMatch → Bytes → Reading
unfolding round
read_loop zero state ms s = no_fuel
read_loop (suc f) eof ms s = matches ms
read_loop (suc f) section ms s = go_on (read_loop f) (round section ms s)
read_loop (suc f) (magic m) ms s = go_on (read_loop f) (round (magic m) ms s)
read_loop (suc f) error ms s = go_on (read_loop f) (round error ms s)

unfoldable pub read_magic_file : List MagicMatch → Bytes → Reading
unfolding read_loop
read_magic_file ms s = read_loop (2 * length s + 2) section ms s

abbrev pub mime_magic : Bytes
mime_magic = codes "MIME-Magic" ++ (0 ∷ newline ∷ [])

-- The end of reading: the extents are computed anew.
abbrev pub updated : Reading → Option MimeMagic
updated (matches ms) = some (update_extents ms)
updated overflow = none
updated no_fuel = none

-- `_xdg_mime_magic_read_from_file`, where none stands for a file that cannot be opened. The `fread`
-- of twelve bytes and the `memcmp` are one test.
unfoldable pub read_from_file : MimeMagic → Option Bytes → Option MimeMagic
unfolding read_magic_file bytes_match
read_from_file mime none = some mime
read_from_file mime (some s) =
    if bytes_match mime_magic s
    then updated (read_magic_file mime.match_list (drop (length mime_magic) s))
    else some mime
