-- ===== src/Mime/Magic/Parse/Shorter.antt =====
-- How many bytes the headers and the lines of src/mime/xdgmimemagic.c leave.
use libxdg.Base.{
  ℕ, ◌+◌, ◌*◌, ◌%◌, ◌≤◌, ◌≡◌, refl, Bool, true, false, Option, none, some, [], ◌∷◌, ltb, ◌==◌,
  length, arith, inl, inr, Bool-cases,
}
use libxdg.Base.Text.{Bytes, strchr}
use libxdg.Mime.Magic.{Matchlet, MagicMatch}
use libxdg.Mime.Magic.Reader.{
  got, Reader, error_unless, newline, getc, fread, is_digit, read_to_newline, read_a_number, ◌>>=◌,
}
use libxdg.Mime.Magic.Reader.Shrinks.{
  Leaves, Shrinks, on_got-Leaves, bind-Shrinks, give-Shrinks, getc-Shrinks, error_unless-Shrinks,
  fread-Shrinks, read_to_newline-Shrinks, read_a_number-Shrinks, read_a_number_digit,
}
use libxdg.Mime.Magic.Swap.{swap_loop}
use libxdg.Mime.Magic.Parse.{
  named, parse_header, parse_error, with_value, clean_up, read_mask, read_word_size, read_range,
  read_matchlet, to_magic, read_rule, read_indented, parse_magic_line, is_word_size,
}

named-Shrinks : (n p : ℕ) (o : Option (Bytes × Bytes)) → Shrinks n (named p o)
named-Shrinks n p none s h = h
named-Shrinks n p (some (a, b)) s h = h

-- One use of each reader.
module _ (n : ℕ) where
  checked :
      {B : Type 0} (b : Bool) (k : Reader B) → Shrinks n k → Shrinks n (error_unless b >>= λ _. k)
  checked b k h = bind-Shrinks n (error_unless b) (λ _. k) (error_unless-Shrinks n b) (λ _. h)

  after_getc :
      {B : Type 0} (f : ℕ → Reader B) → ((c : ℕ) → Shrinks n (f c)) → Shrinks n (getc >>= f)
  after_getc f h = bind-Shrinks n getc f (getc-Shrinks n) h

  after_number :
      {B : Type 0} (f : ℕ → Reader B)
      → ((k : ℕ) → Shrinks n (f k))
      → Shrinks n (read_a_number >>= f)
  after_number f h = bind-Shrinks n read_a_number f (read_a_number-Shrinks n) h

  header_behind : (c : ℕ) (s : Bytes) → length s ≤ n → Leaves n (parse_header (c ∷ s))
  unfolding parse_header
  header_behind c s l =
      checked (c == b'[') _
        (after_number _ (λ p. after_getc _ (λ d. checked (d == b':') _ (
          bind-Shrinks n read_to_newline _ (read_to_newline-Shrinks n)
            (λ b. named-Shrinks n p (strchr b']' b))))))
        s l

  with_value-Shrinks :
      (m : Matchlet) (o : Option (Bytes × Option Bytes)) → Shrinks n (with_value m o)
  with_value-Shrinks m none s h = tt
  with_value-Shrinks m (some (v, k)) s h = h

  clean_up-Shrinks : (m : Matchlet) → Shrinks n (clean_up m)
  unfolding clean_up
  clean_up-Shrinks m s h = elim (Bool-cases (ltb 1 m.word_size)) [
    | inl e ↦ rw e (
        checked (length m.value % m.word_size == 0) _
          (with_value-Shrinks m (swap_loop (length m.value) m.word_size 0 m.value m.mask)) s h)
    | inr e ↦ rw e h
  ]

  read_mask-Shrinks : (k c : ℕ) → Shrinks n (read_mask k c)
  unfolding read_mask
  read_mask-Shrinks k c s h = elim (Bool-cases (c == b'&')) [
    | inl e ↦ rw e (
        bind-Shrinks n (fread k) _ (fread-Shrinks n k)
          (λ m. after_getc _ (λ d. give-Shrinks {A = Option Bytes × ℕ} n (some m, d))) s h)
    | inr e ↦ rw e h
  ]

  read_word_size-Shrinks : (c : ℕ) → Shrinks n (read_word_size c)
  unfolding read_word_size
  read_word_size-Shrinks c s h = elim (Bool-cases (c == b'~')) [
    | inl e ↦ rw e (
        after_number _
          (λ k. checked (is_word_size k) _ (after_getc _ (λ d. give-Shrinks {A = ℕ × ℕ} n (k, d))))
          s h)
    | inr e ↦ rw e h
  ]

  read_range-Shrinks : (c : ℕ) → Shrinks n (read_range c)
  unfolding read_range
  read_range-Shrinks c s h = elim (Bool-cases (c == b'+')) [
    | inl e ↦ rw e (after_number _ (λ k. after_getc _ (λ d. give-Shrinks {A = ℕ × ℕ} n (k, d))) s h)
    | inr e ↦ rw e h
  ]

  read_matchlet-Shrinks : (indent : ℕ) → Shrinks n (read_matchlet indent)
  unfolding read_matchlet
  read_matchlet-Shrinks indent = after_number _ (λ o. after_getc _ (λ c. checked (c == b'=') _ (
      after_getc _ (λ high. after_getc _ (λ low.
        bind-Shrinks n (fread (high * 256 + low)) _ (fread-Shrinks n (high * 256 + low)) (λ v.
          after_getc _ (λ d.
            bind-Shrinks n (read_mask (high * 256 + low) d) _
              (read_mask-Shrinks (high * 256 + low) d)
              (λ w. bind-Shrinks n (read_word_size w.1) _ (read_word_size-Shrinks w.1) (λ x.
                bind-Shrinks n (read_range x.1) _ (read_range-Shrinks x.1) (λ y.
                  checked (y.1 == newline) _ (
                    clean_up-Shrinks (record {
                      indent = indent;
                      offset = o;
                      value = v;
                      mask = w.0;
                      range_length = y.0;
                      word_size = x.0;
                    }))))))))))))

  read_rule-Shrinks : (m : MagicMatch) (indent c : ℕ) → Shrinks n (read_rule m indent c)
  unfolding read_rule
  read_rule-Shrinks m indent c = checked (c == b'>') _ (
      bind-Shrinks n (read_matchlet indent) _ (read_matchlet-Shrinks indent)
        (λ t. give-Shrinks n (to_magic (record m { matchlets = t ∷ m.matchlets }))))

  read_indented-digit :
      (m : MagicMatch) (c : ℕ) (s : Bytes)
      → is_digit c ≡ true
      → length s ≤ n
      → Leaves n (read_indented m (c ∷ s))
  unfolding read_indented
  read_indented-digit m c s e h =
      on_got-Leaves n (read_a_number (c ∷ s)) _ (read_a_number_digit n c s e h)
        (λ i. after_getc _ (λ d. read_rule-Shrinks m i d))

  pub parse_error-Leaves : (c : ℕ) (s : Bytes) → length s ≤ n → Leaves n (parse_error (c ∷ s))
  unfolding parse_error
  parse_error-Leaves c s h = elim (Bool-cases (c == newline)) [
    | inl e ↦ rw e h
    | inr e ↦ rw e (rest s h)
  ]
    where
      rest : (s : Bytes) → length s ≤ n → Leaves n (parse_error s)
      rest [] h = tt
      rest (c ∷ s) h = elim (Bool-cases (c == newline)) [
        | inl e ↦ rw e (omega arith)
        | inr e ↦ rw e (rest s (omega arith))
      ]

pub parse_header-Leaves : (c : ℕ) (s : Bytes) → Leaves (length s) (parse_header (c ∷ s))
parse_header-Leaves c s = header_behind (length s) c s (omega arith)

parse_magic_line-digit :
    (m : MagicMatch) (c : ℕ) (s : Bytes)
    → (c == b'[') ≡ false
    → (c == newline) ≡ false
    → is_digit c ≡ true
    → parse_magic_line m (c ∷ s) ≡ read_indented m (c ∷ s)
unfolding parse_magic_line
parse_magic_line-digit m c s e f g = rw (e, f, g) refl

parse_magic_line-rule :
    (m : MagicMatch) (c : ℕ) (s : Bytes)
    → (c == b'[') ≡ false
    → (c == newline) ≡ false
    → is_digit c ≡ false
    → parse_magic_line m (c ∷ s) ≡ read_rule m 0 c s
unfolding parse_magic_line
parse_magic_line-rule m c s e f g = rw (e, f, g) refl

parse_magic_line-newline :
    (m : MagicMatch) (c : ℕ) (s : Bytes)
    → (c == b'[') ≡ false
    → (c == newline) ≡ true
    → parse_magic_line m (c ∷ s) ≡ got (to_magic m) s
unfolding parse_magic_line
parse_magic_line-newline m c s e f = rw (e, f) refl

-- A line that does not begin a section leaves less than there was.
pub parse_magic_line-Leaves :
    (m : MagicMatch) (c : ℕ) (s : Bytes)
    → (c == b'[') ≡ false
    → Leaves (length s) (parse_magic_line m (c ∷ s))
parse_magic_line-Leaves m c s e = elim (Bool-cases (c == newline)) [
  | inl f ↦ rw (parse_magic_line-newline m c s e f) (omega arith)
  | inr f ↦ elim (Bool-cases (is_digit c)) [
    | inl g ↦
        rw (parse_magic_line-digit m c s e f g)
          (read_indented-digit (length s) m c s g (omega arith))
    | inr g ↦
        rw (parse_magic_line-rule m c s e f g) (read_rule-Shrinks (length s) m 0 c s (omega arith))
  ]
]
