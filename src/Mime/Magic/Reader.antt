-- ===== src/Mime/Magic/Reader.antt =====
-- How src/mime/xdgmimemagic.c reads the bytes of a magic file. A file is the list of its bytes, and
-- a reader takes those that are left. An error of the file system is not modelled.
pub mod Shrinks
use libxdg.Base.{
  ℕ, zero, suc, ◌+◌, ◌-◌, ◌*◌, ◌%◌, ◌^◌, Bool, true, false, not, ◌&&◌, ◌||◌, Option, none, some,
  List, [], ◌∷◌, ◌++◌, ltb, leb, ◌==◌, if◌then◌else◌, length, take, drop,
}
use libxdg.Base.Text.{Bytes, codes, strchr}

-- What a reader ends with: a value and the bytes behind it, the end of the file, an error of the
-- format and the bytes behind it, or a write out of bounds.
pub data Out {ℓ} (A : Type ℓ) : Type ℓ where
  got : A → Bytes → Out A
  at_eof : Out A
  wrong : Bytes → Out A
  fault : Out A

abbrev pub Reader : Type 0 → Type 0
Reader A = Bytes → Out A

-- Go on with the value that was read.
abbrev pub on_got : {A B : Type 0} → (A → Reader B) → Out A → Out B
on_got f (got a rest) = f a rest
on_got f at_eof = at_eof
on_got f (wrong rest) = wrong rest
on_got f fault = fault

infixl 5 ◌>>=◌ ◌>>◌
abbrev pub ◌>>=◌ : {A B : Type 0} → Reader A → (A → Reader B) → Reader B
◌>>=◌ m f s = on_got f (m s)

abbrev pub ◌>>◌ : {B : Type 0} → Reader (Unit {0}) → Reader B → Reader B
m >> k = m >>= λ _. k

abbrev pub give : {A : Type 0} → A → Reader A
give a s = got a s

-- An `if` that returns XDG_MIME_MAGIC_ERROR.
abbrev pub error_unless : Bool → Reader (Unit {0})
error_unless true s = got tt s
error_unless false s = wrong s

abbrev pub newline : ℕ
newline = 10

-- `getc_unlocked`; at EOF every caller returns XDG_MIME_MAGIC_EOF.
abbrev pub getc : Reader ℕ
getc [] = at_eof
getc (c ∷ s) = got c s

-- `fread` of some bytes, all of which must be there.
abbrev pub fread : ℕ → Reader Bytes
fread n s = if ltb (length s) n then at_eof else got (take n s) (drop n s)

abbrev pub is_digit : ℕ → Bool
is_digit c = leb b'0' c && leb c b'9'

abbrev pub push_byte : ℕ → Out Bytes → Out Bytes
push_byte c (got cs rest) = got (c ∷ cs) rest
push_byte c at_eof = at_eof
push_byte c (wrong rest) = wrong rest
push_byte c fault = fault

-- `_xdg_mime_magic_read_to_newline`
unfoldable pub read_to_newline : Reader Bytes
read_to_newline [] = at_eof
read_to_newline (c ∷ s) =
    let rest = read_to_newline s in if c == newline || c == 0 then got [] s else push_byte c rest

-- The loop of `_xdg_mime_magic_read_a_number`, with the number of digits that still fit.
unfoldable pub read_digits : ℕ → Reader Bytes
read_digits zero s = got [] s
read_digits (suc room) [] = at_eof
read_digits (suc room) (c ∷ s) =
    let rest = read_digits room s in if is_digit c then push_byte c rest else got [] (c ∷ s)

abbrev pub max_number_size : ℕ
max_number_size = 30

-- `strtol` of a string of digits.
unfoldable pub decimal : ℕ → Bytes → ℕ
decimal n [] = n
decimal n (c ∷ cs) = decimal (n * 10 + (c - b'0')) cs

-- The value of the digits, or none for the result -1: no digit, or more than INT_MAX.
unfoldable pub number_of : Bytes → Option ℕ
unfolding decimal
number_of [] = none
number_of (c ∷ cs) = if ltb (decimal 0 (c ∷ cs)) (2 ^ 31) then some (decimal 0 (c ∷ cs)) else none

-- A result of -1 is an error for every caller; none of them uses a number that the end of the file
-- cut off.
abbrev pub valid_number : Option ℕ → Reader ℕ
valid_number none s = wrong s
valid_number (some n) s = got n s

unfoldable pub read_a_number : Reader ℕ
unfolding read_digits number_of
read_a_number = do digits ← read_digits max_number_size; valid_number (number_of digits)
