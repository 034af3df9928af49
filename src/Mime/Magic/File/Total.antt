-- ===== src/Mime/Magic/File/Total.antt =====
-- The rounds of `_xdg_mime_magic_read_magic_file` in src/mime/xdgmimemagic.c, and the order of the
-- matches.
use libxdg.Base.{
  ℕ, zero, suc, ◌+◌, ◌*◌, ◌≤◌, ◌<◌, ◌≡◌, refl, subst, ◌⊎◌, inl, inr, true, List, [], ◌∷◌, ◌==◌,
  length, arith, Bool-cases,
}
use libxdg.Base.Sort.{IsSorted}
use libxdg.Base.Text.{Bytes}
use libxdg.Mime.Magic.{MagicMatch, insert_match}
use libxdg.Mime.Magic.Order.{Before, insert_match-IsSorted}
use libxdg.Mime.Magic.Reader.{Out, got, at_eof, wrong, fault}
use libxdg.Mime.Magic.Reader.Shrinks.{Leaves}
use libxdg.Mime.Magic.Parse.{
  Line, to_section, to_magic, parse_header, parse_error, parse_magic_line,
}
use libxdg.Mime.Magic.Parse.Shorter.{
  parse_header-Leaves, parse_magic_line-Leaves, parse_error-Leaves,
}
use libxdg.Mime.Magic.File.{
  State, section, magic, error, eof, finished, Round, next, broken, after_header, after_line,
  after_error, round, Reading, matches, overflow, go_on, read_loop, read_magic_file,
}

-- The rounds that a state can need at most: two for each byte, as a line that begins a section is
-- read twice.
abbrev cost : State → Bytes → ℕ
cost section s = 2 * length s + 1
cost (magic m) s = 2 * length s + 2
cost error s = 2 * length s + 1
cost eof s = 0

abbrev IsFine : ℕ → Round → Type 0
IsFine n (next state ms s) = (cost state s < n) × IsSorted Before ms
IsFine n broken = Unit

inserted :
    (m : MagicMatch) (ms : List MagicMatch)
    → IsSorted Before ms
    → IsSorted Before (insert_match ms m)
inserted m ms h = (insert_match-IsSorted ms m h).0

after_header-IsFine :
    (n : ℕ) (ms : List MagicMatch) (o : Out MagicMatch)
    → IsSorted Before ms
    → Leaves n o
    → IsFine (2 * n + 3) (after_header ms o)
after_header-IsFine n ms (got m rest) h l = (omega arith, h)
after_header-IsFine n ms at_eof h l = (omega arith, h)
after_header-IsFine n ms (wrong rest) h l = (omega arith, h)
after_header-IsFine n ms fault h l = tt

after_line-IsFine :
    (n : ℕ) (m : MagicMatch) (ms : List MagicMatch) (o : Out Line)
    → IsSorted Before ms
    → Leaves n o
    → IsFine (2 * n + 4) (after_line m ms o)
after_line-IsFine n m ms (got to_section rest) h l = (omega arith, inserted (finished m) ms h)
after_line-IsFine n m ms (got (to_magic m') rest) h l = (omega arith, h)
after_line-IsFine n m ms at_eof h l = (omega arith, inserted (finished m) ms h)
after_line-IsFine n m ms (wrong rest) h l = (omega arith, h)
after_line-IsFine n m ms fault h l = tt

after_error-IsFine :
    (n : ℕ) (ms : List MagicMatch) (o : Out (Unit {0}))
    → IsSorted Before ms
    → Leaves n o
    → IsFine (2 * n + 3) (after_error ms o)
after_error-IsFine n ms (got u rest) h l = (omega arith, h)
after_error-IsFine n ms at_eof h l = (omega arith, h)
after_error-IsFine n ms (wrong rest) h l = (omega arith, h)
after_error-IsFine n ms fault h l = tt

-- Enough for one more byte.
cost_cons : (n k : ℕ) (r : Round) → n ≡ k → IsFine n r → IsFine k r
cost_cons n k r e h = subst (λ i. IsFine i r) e h

round-IsFine_section :
    (ms : List MagicMatch) (s : Bytes)
    → IsSorted Before ms
    → IsFine (cost section s) (round section ms s)
unfolding round
round-IsFine_section ms [] h = unfold parse_header in (omega arith, h)
round-IsFine_section ms (c ∷ s) h =
    cost_cons _ _ _ (omega arith)
      (after_header-IsFine (length s) ms (parse_header (c ∷ s)) h (parse_header-Leaves c s))

round-IsFine_error :
    (ms : List MagicMatch) (s : Bytes)
    → IsSorted Before ms
    → IsFine (cost error s) (round error ms s)
unfolding round
round-IsFine_error ms [] h = unfold parse_error in (omega arith, h)
round-IsFine_error ms (c ∷ s) h = cost_cons _ _ _ (omega arith) (
    after_error-IsFine (length s) ms (parse_error (c ∷ s)) h
      (parse_error-Leaves (length s) c s (omega arith)))

parse_magic_line_section :
    (m : MagicMatch) (c : ℕ) (s : Bytes)
    → (c == b'[') ≡ true
    → parse_magic_line m (c ∷ s) ≡ got to_section (c ∷ s)
unfolding parse_magic_line
parse_magic_line_section m c s e = rw e refl

round-IsFine_magic :
    (m : MagicMatch) (ms : List MagicMatch) (s : Bytes)
    → IsSorted Before ms
    → IsFine (cost (magic m) s) (round (magic m) ms s)
unfolding round
round-IsFine_magic m ms [] h = unfold parse_magic_line in (omega arith, inserted (finished m) ms h)
round-IsFine_magic m ms (c ∷ s) h = elim (Bool-cases (c == b'[')) [
  | inl e ↦ rw (parse_magic_line_section m c s e) (omega arith, inserted (finished m) ms h)
  | inr e ↦ cost_cons _ _ _ (omega arith) (
      after_line-IsFine (length s) m ms (parse_magic_line m (c ∷ s)) h
        (parse_magic_line-Leaves m c s e))
]

-- Reading ended: with a write out of bounds, or with matches in order.
abbrev pub Ends : Reading → Type 0
Ends r = (r ≡ overflow) ⊎ ((ms : List MagicMatch) × (r ≡ matches ms) × IsSorted Before ms)

go_on-Ends :
    (f : ℕ) (r : Round) (n : ℕ)
    → IsFine n r
    → n ≤ f
    → ((state : State) (ms : List MagicMatch) (s : Bytes)
        → cost state s < f
        → IsSorted Before ms
        → Ends (read_loop f state ms s))
    → Ends (go_on (read_loop f) r)
go_on-Ends f (next state ms s) n h l ih = ih state ms s (omega arith) h.1
go_on-Ends f broken n h l ih = inl refl

read_loop-Ends :
    (f : ℕ) (state : State) (ms : List MagicMatch) (s : Bytes)
    → cost state s < f
    → IsSorted Before ms
    → Ends (read_loop f state ms s)
unfolding read_loop
read_loop-Ends zero state ms s h k = absurd (omega arith)
read_loop-Ends (suc f) eof ms s h k = inr (ms, refl, k)
read_loop-Ends (suc f) section ms s h k =
    go_on-Ends f (round section ms s) (cost section s) (round-IsFine_section ms s k) (omega arith)
      (read_loop-Ends f)
read_loop-Ends (suc f) (magic m) ms s h k =
    go_on-Ends f (round (magic m) ms s) (cost (magic m) s) (round-IsFine_magic m ms s k)
      (omega arith) (read_loop-Ends f)
read_loop-Ends (suc f) error ms s h k =
    go_on-Ends f (round error ms s) (cost error s) (round-IsFine_error ms s k) (omega arith)
      (read_loop-Ends f)

-- Reading any bytes, to matches in the order of their priorities, ends: at a write out of bounds,
-- or with matches in that order.
pub read_magic_file-Ends :
    (ms : List MagicMatch) (s : Bytes) → IsSorted Before ms → Ends (read_magic_file ms s)
unfolding read_magic_file
read_magic_file-Ends ms s h = read_loop-Ends (2 * length s + 2) section ms s (omega arith) h
