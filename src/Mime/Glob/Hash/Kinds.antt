-- ===== src/Mime/Glob/Hash/Kinds.antt =====
-- `_xdg_glob_determine_type` of src/mime/xdgmimeglob.c and the characters of a pattern.
use libxdg.Base.{
  ℕ, ◌-◌, ◌≡◌, refl, ap, ◌∙◌, Bool, true, false, ◌&&◌, ◌||◌, Option, some, List, [], ◌∷◌, ◌++◌,
  ◌==◌, if◌then◌else◌, length, some_of, All, arith, ◌<◌,
}
use libxdg.Base.Text.{Bytes}
use libxdg.Mime.Unicode.{utf8_skip}
use libxdg.Mime.Unicode.Decode.{lead, trail, encode, encode_all, IsCodePoint, utf8_skip-lead}
use libxdg.Mime.Glob.Hash.{
  GlobType, literal, simple, full, star, is_special, type_loop, determine_type,
}

-- The kind of a pattern by its code points.
abbrev pub glob_kind : List ℕ → GlobType
glob_kind [] = literal
glob_kind (u ∷ us) =
    if some_of is_special us
    then full
    else if u == star
    then simple
    else if is_special u
    then full
    else literal

-- The special characters are in ASCII, so the first byte of a code point shows them.
lead_eq : (u k : ℕ) → IsCodePoint u → k < 128 → (lead u == k) ≡ (u == k)
lead_eq u k h l = ground arith

type_loop-append :
    (cs rest : Bytes) (first maybe : Bool)
    → type_loop (length cs) first maybe (cs ++ rest) ≡ type_loop 0 first maybe rest
unfolding type_loop
type_loop-append [] rest first maybe = refl
type_loop-append (c ∷ cs) rest first maybe = type_loop-append cs rest first maybe

ladder {ℓ} :
    {A : Type ℓ} (star_first special maybe : Bool) (onward : Bool → A) (stop : A)
    → (if star_first
        then onward (star_first || maybe)
        else if special
        then stop
        else onward (star_first || maybe))
      ≡ (if star_first then onward true else if special then stop else onward maybe)
ladder true special maybe onward stop = refl
ladder false special maybe onward stop = refl

type_loop_step :
    (c : ℕ) (cs rest : Bytes) (first maybe : Bool)
    → utf8_skip c - 1 ≡ length cs
    → type_loop 0 first maybe (c ∷ (cs ++ rest)) ≡ (
        if c == star && first
        then type_loop 0 false true rest
        else if is_special c
        then some full
        else type_loop 0 false maybe rest)
unfolding type_loop
type_loop_step c cs rest first maybe h =
    walk
    ∙ ladder (c == star && first) (is_special c) maybe (λ m. type_loop 0 false m rest) (some full)
  where
    onward :
        type_loop (utf8_skip c - 1) false (c == star && first || maybe) (cs ++ rest)
        ≡ type_loop 0 false (c == star && first || maybe) rest
    onward = rw h (type_loop-append cs rest false (c == star && first || maybe))

    walk : type_loop 0 first maybe (c ∷ (cs ++ rest)) ≡ (
        if c == star && first
        then type_loop 0 false (c == star && first || maybe) rest
        else if is_special c
        then some full
        else type_loop 0 false (c == star && first || maybe) rest)
    walk =
        ap
          (λ (t : Option GlobType).
            if c == star && first then t else if is_special c then some full else t)
          onward

type_loop-encode :
    (u : ℕ) (rest : Bytes) (first maybe : Bool)
    → IsCodePoint u
    → type_loop 0 first maybe (encode u ++ rest) ≡ (
        if u == star && first
        then type_loop 0 false true rest
        else if is_special u
        then some full
        else type_loop 0 false maybe rest)
type_loop-encode u rest first maybe h =
    type_loop_step (lead u) (trail u) rest first maybe (utf8_skip-lead u h)
    ∙ rw (
      lead_eq u 92 h (omega arith),
      lead_eq u b'[' h (omega arith),
      lead_eq u b'?' h (omega arith),
      lead_eq u star h (omega arith),
    )

-- Behind the first character every special one makes the pattern full.
type_loop_rest :
    (us : List ℕ) (maybe : Bool)
    → All IsCodePoint us
    → type_loop 0 false maybe (encode_all us)
      ≡ some (if some_of is_special us then full else if maybe then simple else literal)
type_loop_rest [] maybe h = unfold type_loop in refl
type_loop_rest (u ∷ us) maybe h =
    type_loop-encode u (encode_all us) false maybe h.0
    ∙ rest_step (u == star) (is_special u) (some_of is_special us) maybe
        (type_loop 0 false maybe (encode_all us)) (type_loop 0 false true (encode_all us))
        (type_loop_rest us maybe h.1)
  where
    rest_step :
        (b s o m : Bool) (r t : Option GlobType)
        → r ≡ some (if o then full else if m then simple else literal)
        → (if b && false then t else if s then some full else r)
          ≡ some (if s || o then full else if m then simple else literal)
    rest_step b s o m r t e = ground arith

-- The walk over a pattern in UTF-8 ends at its NUL and classifies the pattern by its characters:
-- simple if its only special character is a star at the front, literal if it has none, and full
-- otherwise.
pub determine_type-glob_kind :
    (us : List ℕ) → All IsCodePoint us → determine_type (encode_all us) ≡ some (glob_kind us)
unfolding determine_type
determine_type-glob_kind [] h = refl
determine_type-glob_kind (u ∷ us) h =
    type_loop-encode u (encode_all us) true false h.0
    ∙ first_step (u == star) (is_special u) (some_of is_special us)
        (type_loop 0 false true (encode_all us)) (type_loop 0 false false (encode_all us))
        (type_loop_rest us true h.1) (type_loop_rest us false h.1)
  where
    first_step :
        (b s o : Bool) (t r : Option GlobType)
        → t ≡ some (if o then full else simple)
        → r ≡ some (if o then full else literal)
        → (if b && true then t else if s then some full else r)
          ≡ some (if o then full else if b then simple else if s then full else literal)
    first_step b s o t r e f = ground arith
