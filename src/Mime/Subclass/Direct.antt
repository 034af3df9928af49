-- ===== src/Mime/Subclass/Direct.antt =====
-- The tests of src/mime/xdgmime.c in front of the loop of the subclass test, as statements on texts.
use mathlib.Core.List.{append-nil}
use libxdg.Base.{
  ℕ, zero, suc, ◌+◌, ◌-◌, ◌≤◌, ◌≡◌, ◌↔◌, refl, sym, ap, ◌∙◌, ◌⊎◌, inl, inr, Bool, true, false,
  Option, some, [], ◌∷◌, ◌++◌, ltb, ◌&&◌, length, take-append-drop, take, drop, if◌then◌else◌,
  arith, Option-cases,
}
use libxdg.Base.Text.{Bytes, codes, Lacks, strchr, strchr-append, strchr-some, str_eq, str_eq_iff}
use libxdg.Mime.Subclass.{strncmp_eq, media_type_equal, is_super_type, is_direct}

abbrev pub StartsWith : Bytes → Bytes → Type 0
StartsWith a b = (rest : Bytes) × (b ≡ a ++ rest)

-- Both types begin with the same text up to the first slash of the one.
abbrev pub IsSameMedia : Bytes → Bytes → Type 0
IsSameMedia a b =
    (media : Bytes) × Lacks b'/' media
    × StartsWith (media ++ (b'/' ∷ [])) a
    × StartsWith (media ++ (b'/' ∷ [])) b

abbrev pub IsSuper : Bytes → Type 0
IsSuper b = (media : Bytes) × (b ≡ media ++ codes "/*")

abbrev pub IsDirect : Bytes → Bytes → Type 0
IsDirect u b =
    (u ≡ b)
    ⊎ ((IsSuper b × IsSameMedia u b)
        ⊎ (((b ≡ codes "text/plain") × StartsWith (codes "text/") u)
            ⊎ (b ≡ codes "application/octet-stream")))

-- A test that comes to a value, which is true exactly if a statement holds.
abbrev pub Tests : Option Bool → Type 0 → Type 0
Tests o P = (r : Bool) × (o ≡ some r) × ((r ≡ true) ↔ P)

strncmp_eq-StartsWith : (a r b : Bytes) → strncmp_eq (length a) (a ++ r) b ≡ true → StartsWith a b
unfolding strncmp_eq
strncmp_eq-StartsWith [] r b h = (b, refl)
strncmp_eq-StartsWith (x ∷ a) r [] h = absurd (cc)
strncmp_eq-StartsWith (x ∷ a) r (y ∷ b) h =
    let (s, e) = strncmp_eq-StartsWith a r b (ground arith) in
    let same : x ≡ y = ground arith in (s, ground arith)

strncmp_eq-append : (a r s : Bytes) → strncmp_eq (length a) (a ++ r) (a ++ s) ≡ true
unfolding strncmp_eq
strncmp_eq-append [] r s = refl
strncmp_eq-append (x ∷ a) r s = ground (arith, strncmp_eq-append a r s)

strncmp_eq-swap : (n : ℕ) (a b : Bytes) → strncmp_eq n a b ≡ strncmp_eq n b a
unfolding strncmp_eq
strncmp_eq-swap zero a b = refl
strncmp_eq-swap (suc n) [] [] = refl
strncmp_eq-swap (suc n) [] (y ∷ b) = refl
strncmp_eq-swap (suc n) (x ∷ a) [] = refl
strncmp_eq-swap (suc n) (x ∷ a) (y ∷ b) = ground (arith, strncmp_eq-swap n a b)

drop-append : (t s : Bytes) → drop (length t) (t ++ s) ≡ s
drop-append [] s = refl
drop-append (x ∷ t) s = drop-append t s

length-snoc : (m : Bytes) (c : ℕ) → length (m ++ (c ∷ [])) ≡ suc (length m)
length-snoc [] c = refl
length-snoc (x ∷ m) c = ap suc (length-snoc m c)

append-snoc : (m r : Bytes) (c : ℕ) → (m ++ (c ∷ [])) ++ r ≡ m ++ (c ∷ r)
append-snoc [] r c = refl
append-snoc (x ∷ m) r c = ap (◌∷◌ x) (append-snoc m r c)

-- The two media types are equal exactly if both types begin with the same text up to a slash.
media_type_equal_iff : (a b : Bytes) → (media_type_equal a b ≡ true) ↔ IsSameMedia a b
unfolding media_type_equal
media_type_equal_iff a b = (to, from)
  where
    to : media_type_equal a b ≡ true → IsSameMedia a b
    to =
        unfold media_type_equal in
        λ h. elim (Option-cases (strchr b'/' a)) [
          | inl e ↦ absurd (ground arith)
          | inr ((media, rest), e) ↦
              let (split, lacks) = strchr-some b'/' a media rest e in
              let here : a ≡ (media ++ (b'/' ∷ [])) ++ rest =
                split ∙ sym (append-snoc media rest b'/') in
              let test : strncmp_eq (suc (length media)) a b ≡ true = ground arith in
              (
                media,
                lacks,
                (rest, here),
                strncmp_eq-StartsWith (media ++ (b'/' ∷ [])) rest b (
                    ap (λ n. strncmp_eq n ((media ++ (b'/' ∷ [])) ++ rest) b)
                      (length-snoc media b'/')
                    ∙ ap (λ x. strncmp_eq (suc (length media)) x b) (sym here)
                    ∙ test),
              )
        ]

    from : IsSameMedia a b → media_type_equal a b ≡ true
    from =
        unfold media_type_equal in
        λ (media, lacks, (r, e), (s, f)).
          let found : strchr b'/' a ≡ some (media, r) =
            ap (strchr b'/') (e ∙ append-snoc media r b'/') ∙ strchr-append b'/' media r lacks in
          rw (found, media_type_equal)
            (ap (λ x. strncmp_eq (suc (length media)) x b) e
              ∙ ap (strncmp_eq (suc (length media)) ((media ++ (b'/' ∷ [])) ++ r)) f
              ∙ ap (λ n. strncmp_eq n ((media ++ (b'/' ∷ [])) ++ r) ((media ++ (b'/' ∷ [])) ++ s))
                  (sym (length-snoc media b'/'))
              ∙ strncmp_eq-append (media ++ (b'/' ∷ [])) r s)

length-super : (m : Bytes) → length (m ++ codes "/*") ≡ length m + 2
length-super [] = refl
length-super (x ∷ m) = omega (arith, length-super m)

is_super_type-Tests : (b : Bytes) → 2 ≤ length b → Tests (is_super_type b) (IsSuper b)
unfolding is_super_type
is_super_type-Tests b h =
    let long : ltb (length b) 2 ≡ false = ground arith in
    (str_eq (drop (length b - 2) b) (codes "/*"), rw long refl, (to, from))
  where
    to : str_eq (drop (length b - 2) b) (codes "/*") ≡ true → IsSuper b
    to e =
        let ends : drop (length b - 2) b ≡ codes "/*" =
          (str_eq_iff (drop (length b - 2) b) (codes "/*")).0 e in
        (
          take (length b - 2) b,
          sym (take-append-drop (length b - 2) b) ∙ ap (λ x. take (length b - 2) b ++ x) ends,
        )

    from : IsSuper b → str_eq (drop (length b - 2) b) (codes "/*") ≡ true
    from (m, e) =
        let size : length b - 2 ≡ length m = omega (arith, ap length e, length-super m) in
        (str_eq_iff (drop (length b - 2) b) (codes "/*")).1
          (ap (λ n. drop n b) size ∙ ap (drop (length m)) e ∙ drop-append m (codes "/*"))

starts_iff : (a b : Bytes) → (strncmp_eq (length a) b a ≡ true) ↔ StartsWith a b
starts_iff a b = (
  λ h.
      strncmp_eq-StartsWith a [] b
        (ap (λ x. strncmp_eq (length a) x b) (append-nil a) ∙ strncmp_eq-swap (length a) a b ∙ h),
  λ (s, e).
      ap (λ x. strncmp_eq (length a) x a) e
      ∙ ap (strncmp_eq (length a) (a ++ s)) (sym (append-nil a))
      ∙ strncmp_eq-append a s [],
)

and_iff :
    (p q : Bool) (P Q : Type 0) → ((p ≡ true) ↔ P) → ((q ≡ true) ↔ Q) → ((p && q ≡ true) ↔ (P × Q))
and_iff true q P Q h k = (λ e. (h.0 refl, k.0 e), λ (x, y). k.1 y)
and_iff false q P Q h k = (λ e. absurd (cc), λ (x, y). absurd (ground (arith, h.1 x)))

or_iff :
    (p q : Bool) (P Q : Type 0)
    → ((p ≡ true) ↔ P)
    → ((q ≡ true) ↔ Q)
    → ((if p then true else q) ≡ true) ↔ (P ⊎ Q)
or_iff true q P Q h k = (λ e. inl (h.0 refl), λ x. refl)
or_iff false q P Q h k =
    (λ e. inr (k.0 e), λ x. elim x [ inl p ↦ absurd (ground (arith, h.1 p)) | inr y ↦ k.1 y ])

is_direct-value :
    (u b : Bytes) (s : Bool)
    → is_super_type b ≡ some s
    → is_direct u b
      ≡ some (
          if str_eq u b
          then true
          else (if s && media_type_equal u b
              then true
              else (if str_eq b (codes "text/plain") && strncmp_eq 5 u (codes "text/")
                  then true
                  else str_eq b (codes "application/octet-stream"))))
unfolding is_direct
is_direct-value u b s e = ground arith

-- On a base of two bytes or more the tests have no fault, and answer so exactly if the types are
-- equal, the base stands for all types of the medium, or is one of the two that hold all texts and
-- all files.
pub is_direct-Tests : (u b : Bytes) → 2 ≤ length b → Tests (is_direct u b) (IsDirect u b)
is_direct-Tests u b h =
    let (s, e, super) = is_super_type-Tests b h in
    (
      _,
      is_direct-value u b s e,
      or_iff _ _ _ _ (str_eq_iff u b) (
          or_iff _ _ _ _ (and_iff _ _ _ _ super (media_type_equal_iff u b)) (
            or_iff _ _ _ _
              (and_iff _ _ _ _ (str_eq_iff b (codes "text/plain")) (starts_iff (codes "text/") u))
              (str_eq_iff b (codes "application/octet-stream")))),
    )
