-- ===== src/Mime/Magic/Reader/Shrinks.antt =====
-- How many bytes the readers of src/mime/xdgmimemagic.c leave.
use libxdg.Base.{
  ℕ, zero, suc, ◌≤◌, ◌≡◌, Bool, true, false, Option, none, some, [], ◌∷◌, ◌||◌, ltb, ◌==◌, length,
  length-drop, arith, inl, inr, Bool-cases,
}
use libxdg.Base.Text.{Bytes}
use libxdg.Mime.Magic.Reader.{
  Out, got, at_eof, wrong, fault, Reader, on_got, give, error_unless, newline, getc, fread,
  is_digit, push_byte, read_to_newline, read_digits, max_number_size, number_of, valid_number,
  read_a_number, ◌>>=◌,
}

-- At most so many bytes are left.
abbrev pub Leaves : ℕ → {A : Type 0} → Out A → Type 0
Leaves n (got a rest) = length rest ≤ n
Leaves n at_eof = Unit
Leaves n (wrong rest) = length rest ≤ n
Leaves n fault = Unit

-- A reader on at most `n` bytes leaves at most `n`.
abbrev pub Shrinks : ℕ → {A : Type 0} → Reader A → Type 0
Shrinks n m = (s : Bytes) → length s ≤ n → Leaves n (m s)

pub on_got-Leaves :
    {A B : Type 0} (n : ℕ) (o : Out A) (f : A → Reader B)
    → Leaves n o
    → ((a : A) → Shrinks n (f a))
    → Leaves n (on_got f o)
on_got-Leaves n (got a rest) f h k = k a rest h
on_got-Leaves n at_eof f h k = tt
on_got-Leaves n (wrong rest) f h k = h
on_got-Leaves n fault f h k = tt

pub bind-Shrinks :
    {A B : Type 0} (n : ℕ) (m : Reader A) (f : A → Reader B)
    → Shrinks n m
    → ((a : A) → Shrinks n (f a))
    → Shrinks n (m >>= f)
bind-Shrinks n m f h k s l = on_got-Leaves n (m s) f (h s l) k

pub give-Shrinks : {A : Type 0} (n : ℕ) (a : A) → Shrinks n (give a)
give-Shrinks n a s h = h

pub getc-Shrinks : (n : ℕ) → Shrinks n getc
getc-Shrinks n [] h = tt
getc-Shrinks n (c ∷ s) h = omega arith

pub error_unless-Shrinks : (n : ℕ) (b : Bool) → Shrinks n (error_unless b)
error_unless-Shrinks n true s h = h
error_unless-Shrinks n false s h = h

pub fread-Shrinks : (n k : ℕ) → Shrinks n (fread k)
fread-Shrinks n k s h = elim (Bool-cases (ltb (length s) k)) [
  | inl e ↦ rw e tt
  | inr e ↦ rw e (omega (arith, length-drop k s))
]

push_byte-Leaves : (n c : ℕ) (o : Out Bytes) → Leaves n o → Leaves n (push_byte c o)
push_byte-Leaves n c (got cs rest) h = h
push_byte-Leaves n c at_eof h = tt
push_byte-Leaves n c (wrong rest) h = h
push_byte-Leaves n c fault h = tt

pub read_to_newline-Shrinks : (n : ℕ) → Shrinks n read_to_newline
unfolding read_to_newline
read_to_newline-Shrinks n [] h = tt
read_to_newline-Shrinks n (c ∷ s) h = elim (Bool-cases (c == newline || c == 0)) [
  | inl e ↦ rw e (omega arith)
  | inr e ↦
      rw e (push_byte-Leaves n c (read_to_newline s) (read_to_newline-Shrinks n s (omega arith)))
]

read_digits-Shrinks : (n room : ℕ) → Shrinks n (read_digits room)
unfolding read_digits
read_digits-Shrinks n zero s h = h
read_digits-Shrinks n (suc room) [] h = tt
read_digits-Shrinks n (suc room) (c ∷ s) h = elim (Bool-cases (is_digit c)) [
  | inl e ↦
      rw e (push_byte-Leaves n c (read_digits room s) (read_digits-Shrinks n room s (omega arith)))
  | inr e ↦ rw e h
]

valid_number-Shrinks : (n : ℕ) (o : Option ℕ) → Shrinks n (valid_number o)
valid_number-Shrinks n none s h = h
valid_number-Shrinks n (some k) s h = h

pub read_a_number-Shrinks : (n : ℕ) → Shrinks n read_a_number
unfolding read_a_number
read_a_number-Shrinks n s h =
    on_got-Leaves n (read_digits max_number_size s) (λ ds. valid_number (number_of ds))
      (read_digits-Shrinks n max_number_size s h) (λ ds. valid_number-Shrinks n (number_of ds))

-- From a digit on at least one byte is read.
pub read_a_number_digit :
    (n c : ℕ) (s : Bytes) → is_digit c ≡ true → length s ≤ n → Leaves n (read_a_number (c ∷ s))
unfolding read_a_number
read_a_number_digit n c s e h =
    on_got-Leaves n (read_digits max_number_size (c ∷ s)) (λ ds. valid_number (number_of ds)) first
      (λ ds. valid_number-Shrinks n (number_of ds))
  where
    first : Leaves n (read_digits max_number_size (c ∷ s))
    first =
        unfold read_digits in
        rw e (push_byte-Leaves n c (read_digits 29 s) (read_digits-Shrinks n 29 s h))
