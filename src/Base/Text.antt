-- ===== src/Base/Text.antt =====
-- C strings as lists of bytes without their terminating NUL, and the functions of <string.h> that
-- the sources call on them: `strcmp`, `strchr`, `strrchr` and the reading of a buffer as a string.
use Prim.Native.Nat.{compare, Ordering}
use Prim.Native.Char.{code}
use Prim.Native.String.{String}
use mathlib.Core.Path.{◌≡◌, refl, ap}
use mathlib.Core.Logic.{◌≢◌, ◌↔◌, inl, inr}
use mathlib.Core.Bool.{Bool, true, false}
use mathlib.Core.List.{List, [], ◌∷◌, ◌++◌}
use mathlib.Core.Option.{Option, none, some}
use Prim.Native.Nat.{ℕ, zero, suc, ◌<◌}
use native.Mathlib.Omega.{arith}
use libxdg.Base.Tests.{◌==◌, if◌then◌else◌, ==_refl, ==_false→ne, Bool-cases, Option-cases}
use libxdg.Base.Lists.{All}

abbrev pub Bytes : Type 0
Bytes = List ℕ

-- The bytes of a literal; every literal of the sources is ASCII.
abbrev pub codes : String → Bytes
codes String.[] = []
codes (String.◌∷◌ c s) = code c ∷ codes s

-- The string that a buffer holds: its bytes before the first NUL.
abbrev pub cstr : Bytes → Bytes
cstr [] = []
cstr (zero ∷ bs) = []
cstr (suc b ∷ bs) = suc b ∷ cstr bs

-- No byte is NUL, as in every C string.
abbrev pub IsText : Bytes → Type 0
IsText = All (λ b. 0 < b)

-- No byte is `c`.
abbrev pub Lacks : ℕ → Bytes → Type 0
Lacks c = All (λ b. b ≢ c)

-- The sign of `strcmp`.
unfoldable pub strcmp : Bytes → Bytes → Ordering
strcmp [] [] = Ordering.eq
strcmp [] (y ∷ ys) = Ordering.lt
strcmp (x ∷ xs) [] = Ordering.gt
strcmp (x ∷ xs) (y ∷ ys) =
    let rest = strcmp xs ys in
    elim (compare x y) [
      | Ordering.lt ↦ Ordering.lt
      | Ordering.eq ↦ rest
      | Ordering.gt ↦ Ordering.gt
    ]

-- The test `strcmp (a, b) == 0`.
unfoldable pub str_eq : Bytes → Bytes → Bool
unfolding strcmp
str_eq a b = elim (strcmp a b) [ Ordering.eq ↦ true | _ ↦ false ]

-- `strchr`: the text before the first `c` and the text behind it, or none.
unfoldable pub strchr : ℕ → Bytes → Option (Bytes × Bytes)
strchr c [] = none
strchr c (x ∷ xs) =
    let rest = strchr c xs in
    if x == c then some ([], xs) else elim rest [ none ↦ none | some (a, b) ↦ some (x ∷ a, b) ]

-- The text behind the last `c`, or none: `strrchr` and a step of one.
unfoldable pub after_last : ℕ → Bytes → Option Bytes
after_last c [] = none
after_last c (x ∷ xs) = elim (after_last c xs) [
  | some r ↦ some r
  | none ↦ if x == c then some xs else none
]

pub strcmp_refl : (a : Bytes) → strcmp a a ≡ Ordering.eq
unfolding strcmp
strcmp_refl [] = refl
strcmp_refl (x ∷ xs) = ground (arith, strcmp_refl xs)

pub strcmp_eq : (a b : Bytes) → strcmp a b ≡ Ordering.eq → a ≡ b
unfolding strcmp
strcmp_eq [] [] h = refl
strcmp_eq [] (y ∷ ys) h = ground arith
strcmp_eq (x ∷ xs) [] h = ground arith
strcmp_eq (x ∷ xs) (y ∷ ys) h = ground (arith, strcmp_eq xs ys)

pub str_eq_refl : (a : Bytes) → str_eq a a ≡ true
unfolding str_eq
str_eq_refl a = rw (strcmp_refl a, str_eq)

pub str_eq_iff : (a b : Bytes) → (str_eq a b ≡ true) ↔ (a ≡ b)
str_eq_iff a b = (to, λ e. rw e (str_eq_refl b))
  where
    to : str_eq a b ≡ true → a ≡ b
    to = unfold str_eq in λ h. ground (arith, strcmp_eq a b)

pub str_eq-false : (a b : Bytes) → str_eq a b ≡ false → a ≢ b
str_eq-false a b h e = ground (arith, str_eq_refl a)

pub str_eq-ne : (a b : Bytes) → a ≢ b → str_eq a b ≡ false
str_eq-ne a b h = elim (Bool-cases (str_eq a b)) [
  | inl e ↦ absurd (h ((str_eq_iff a b).0 e))
  | inr e ↦ e
]

pub cstr-IsText : (a : Bytes) → IsText a → cstr a ≡ a
cstr-IsText [] h = refl
cstr-IsText (zero ∷ a) h = absurd (omega arith)
cstr-IsText (suc x ∷ a) h = ap (◌∷◌ (suc x)) (cstr-IsText a h.1)

-- The first `c` of `a ++ c ∷ b` is the one written, if `a` has none.
pub strchr-append : (c : ℕ) (a b : Bytes) → Lacks c a → strchr c (a ++ (c ∷ b)) ≡ some (a, b)
unfolding strchr
strchr-append c [] b h = rw (==_refl c)
strchr-append c (x ∷ a) b h = ground (arith, strchr-append c a b h.1, h.0)

pub strchr-none : (c : ℕ) (a : Bytes) → Lacks c a → strchr c a ≡ none
unfolding strchr
strchr-none c [] h = refl
strchr-none c (x ∷ a) h = ground (arith, strchr-none c a h.1, h.0)

-- What a successful `strchr` splits.
pub strchr-some :
    (c : ℕ) (s a b : Bytes) → strchr c s ≡ some (a, b) → (s ≡ a ++ (c ∷ b)) × Lacks c a
unfolding strchr
strchr-some c [] a b h = absurd (ground arith)
strchr-some c (x ∷ s) a b h = elim (Bool-cases (x == c)) [
  | inl e ↦ (ground arith, ground arith)
  | inr n ↦ elim (Option-cases (strchr c s)) [
    | inl e ↦ absurd (ground arith)
    | inr ((u, v), e) ↦
        let ih = strchr-some c s u v e in
        let ha : a ≡ x ∷ u = ground arith in
        let hb : b ≡ v = ground arith in rw (ha, hb) (ap (◌∷◌ x) ih.0, (==_false→ne x c n, ih.1))
  ]
]
