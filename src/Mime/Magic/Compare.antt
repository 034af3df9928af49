-- ===== src/Mime/Magic/Compare.antt =====
-- `_xdg_mime_magic_matchlet_compare_to_data` of src/mime/xdgmimemagic.c and the places in the range
-- of a matchlet.
use Prim.Native.Nat.{bit_and}
use mathlib.Core.Option.{none-ne-some, some-injective}
use libxdg.Base.{
  refl, Option, none, some, [], ◌∷◌, get_elem?, subst, Option-cases, ℕ, zero, suc, ◌+◌, ◌≤◌, ◌<◌,
  ◌≡◌, ◌≢◌, ◌↔◌, sym, ap, ◌∙◌, true, false, inl, inr, ltb, length, length-drop, drop, arith,
  Bool-cases, ltb_false→le,
}
use libxdg.Base.Text.{Bytes}
use libxdg.Mime.Magic.{
  Matchlet, bytes_match, masked_match, match_at, compare_from, matchlet_compare_to_data,
}

-- The bytes of a value, of a mask and of the data agree.
abbrev pub Agrees : ℕ → Option ℕ → ℕ → Type 0
Agrees v none d = v ≡ d
Agrees v (some w) d = bit_and v w ≡ bit_and d w

-- The byte of the mask at an index.
abbrev pub mask_byte : Option Bytes → ℕ → Option ℕ
mask_byte none k = none
mask_byte (some mask) k = get_elem? mask k

-- The value of the matchlet stands in the data at index `i`: it is whole there, and each byte of it
-- agrees with the byte of the data at its place, under the byte of the mask if there is one.
abbrev pub Occurs : Matchlet → Bytes → ℕ → Type 0
Occurs m bytes i =
    (i + length m.value ≤ length bytes)
    × ((k v d : ℕ)
        → get_elem? m.value k ≡ some v
        → get_elem? bytes (i + k) ≡ some d
        → Agrees v (mask_byte m.mask k) d)

-- A mask has as many bytes as the value.
abbrev pub HasMask : Matchlet → Type 0
HasMask m = (mask : Bytes) → m.mask ≡ some mask → length mask ≡ length m.value

-- The test of the code at an index.
abbrev Stands : Matchlet → Bytes → ℕ → Type 0
Stands m bytes i = (i + length m.value ≤ length bytes) × (match_at m (drop i bytes) ≡ true)

-- It does so at one of `rounds` places from `i` on.
abbrev pub OccursWithin : ℕ → ℕ → Matchlet → Bytes → Type 0
OccursWithin rounds i m bytes = (j : ℕ) × (i ≤ j) × (j < i + rounds) × Occurs m bytes j

abbrev StandsWithin : ℕ → ℕ → Matchlet → Bytes → Type 0
StandsWithin rounds i m bytes = (j : ℕ) × (i ≤ j) × (j < i + rounds) × Stands m bytes j

compare_from_sound :
    (rounds i : ℕ) (m : Matchlet) (bytes : Bytes)
    → compare_from rounds i m bytes ≡ true
    → StandsWithin rounds i m bytes
unfolding compare_from
compare_from_sound zero i m bytes h = absurd (cc)
compare_from_sound (suc rounds) i m bytes h =
    elim (Bool-cases (ltb (length bytes) (i + length m.value))) [
      | inl e ↦ absurd (ground arith)
      | inr e ↦ elim (Bool-cases (match_at m (drop i bytes))) [
        | inl f ↦
            (i, omega arith, omega arith, (ltb_false→le (length bytes) (i + length m.value) e, f))
        | inr f ↦
            let (j, a, b, o) = compare_from_sound rounds (i + 1) m bytes (ground arith) in
            (j, omega arith, omega arith, o)
      ]
    ]

compare_from_complete :
    (rounds i : ℕ) (m : Matchlet) (bytes : Bytes) (j : ℕ)
    → i ≤ j
    → j < i + rounds
    → Stands m bytes j
    → compare_from rounds i m bytes ≡ true
unfolding compare_from
compare_from_complete zero i m bytes j a b o = absurd (omega arith)
compare_from_complete (suc rounds) i m bytes j a b o =
    let fits : ltb (length bytes) (i + length m.value) ≡ false = ground arith in
    rw fits (elim (Bool-cases (match_at m (drop i bytes))) [
      | inl f ↦ rw f
      | inr f ↦
          let ne : i ≢ j = λ e. absurd (different i j e f o.1) in
          rw f (compare_from_complete rounds (i + 1) m bytes j (omega arith) (omega arith) o)
    ])
  where
    different :
        (i j : ℕ) → i ≡ j → match_at m (drop i bytes) ≡ false → match_at m (drop j bytes) ≡ true → ⊥
    different i j e f g = absurd (cc (sym f ∙ ap (λ k. match_at m (drop k bytes)) e ∙ g))

-- Each byte of a value agrees with a byte of some data.
abbrev AgreesAll : Bytes → (ℕ → Option ℕ) → Bytes → Type 0
AgreesAll value mask bytes =
    (k v d : ℕ) → get_elem? value k ≡ some v → get_elem? bytes k ≡ some d → Agrees v (mask k) d

AgreesAll-cons :
    (x y : ℕ) (value : Bytes) (mask : ℕ → Option ℕ) (bytes : Bytes)
    → Agrees x (mask 0) y
    → AgreesAll value (λ k. mask (suc k)) bytes
    → AgreesAll (x ∷ value) mask (y ∷ bytes)
AgreesAll-cons x y value mask bytes h a zero v d p q =
    subst (λ v. Agrees v (mask 0) d) (some-injective x v p)
      (subst (λ d. Agrees x (mask 0) d) (some-injective y d q) h)
AgreesAll-cons x y value mask bytes h a (suc k) v d p q = a k v d p q

bytes_match_sound :
    (value bytes : Bytes) → bytes_match value bytes ≡ true → AgreesAll value (λ k. none) bytes
unfolding bytes_match
bytes_match_sound [] bytes e = λ k v d a b. absurd (none-ne-some v a)
bytes_match_sound (x ∷ value) [] e = λ k v d a b. absurd (none-ne-some d b)
bytes_match_sound (x ∷ value) (y ∷ bytes) e =
    AgreesAll-cons x y value (λ k. none) bytes (ground arith)
      (bytes_match_sound value bytes (ground arith))

bytes_match_complete :
    (value bytes : Bytes)
    → length value ≤ length bytes
    → AgreesAll value (λ k. none) bytes
    → bytes_match value bytes ≡ true
unfolding bytes_match
bytes_match_complete [] bytes h a = refl
bytes_match_complete (x ∷ value) [] h a = absurd (omega arith)
bytes_match_complete (x ∷ value) (y ∷ bytes) h a =
    let same : x ≡ y = a zero x y refl refl in
    let rest : bytes_match value bytes ≡ true =
      bytes_match_complete value bytes (omega arith) (λ k v d b c. a (suc k) v d b c) in
    ground arith

masked_match_sound :
    (value mask bytes : Bytes)
    → masked_match value mask bytes ≡ true
    → AgreesAll value (get_elem? mask) bytes
unfolding masked_match
masked_match_sound [] mask bytes e = λ k v d a b. absurd (none-ne-some v a)
masked_match_sound (x ∷ value) [] bytes e = absurd (ground arith)
masked_match_sound (x ∷ value) (w ∷ mask) [] e = λ k v d a b. absurd (none-ne-some d b)
masked_match_sound (x ∷ value) (w ∷ mask) (y ∷ bytes) e =
    AgreesAll-cons x y value (get_elem? (w ∷ mask)) bytes (ground arith)
      (masked_match_sound value mask bytes (ground arith))

masked_match_complete :
    (value mask bytes : Bytes)
    → length value ≤ length bytes
    → length mask ≡ length value
    → AgreesAll value (get_elem? mask) bytes
    → masked_match value mask bytes ≡ true
unfolding masked_match
masked_match_complete [] mask bytes h l a = refl
masked_match_complete (x ∷ value) [] bytes h l a = absurd (omega arith)
masked_match_complete (x ∷ value) (w ∷ mask) [] h l a = absurd (omega arith)
masked_match_complete (x ∷ value) (w ∷ mask) (y ∷ bytes) h l a =
    let same : bit_and x w ≡ bit_and y w = a zero x y refl refl in
    let rest : masked_match value mask bytes ≡ true =
      masked_match_complete value mask bytes (omega arith) (omega arith)
        (λ k v d b c. a (suc k) v d b c) in
    ground arith

get_elem?-drop : (i k n : ℕ) (xs : Bytes) → n ≡ i + k → get_elem? (drop i xs) k ≡ get_elem? xs n
get_elem?-drop zero k n xs e = ap (get_elem? xs) (omega (arith, e))
get_elem?-drop (suc i) k n [] e = refl
get_elem?-drop (suc i) k zero (x ∷ xs) e = absurd (omega arith)
get_elem?-drop (suc i) k (suc n) (x ∷ xs) e = get_elem?-drop i k n xs (omega arith)

Agrees-drop :
    (m : Matchlet) (bytes : Bytes) (i : ℕ) (mask : ℕ → Option ℕ)
    → AgreesAll m.value mask (drop i bytes) ↔ (
        (k v d : ℕ)
        → get_elem? m.value k ≡ some v
        → get_elem? bytes (i + k) ≡ some d
        → Agrees v (mask k) d)
Agrees-drop m bytes i mask = (
  (λ a k v d p q. a k v d p (get_elem?-drop i k (i + k) bytes refl ∙ q)),
  (λ a k v d p q. a k v d p (sym (get_elem?-drop i k (i + k) bytes refl) ∙ q)),
)

match_at-Agrees :
    (m : Matchlet) (bytes : Bytes)
    → HasMask m
    → length m.value ≤ length bytes
    → (match_at m bytes ≡ true) ↔ AgreesAll m.value (mask_byte m.mask) bytes
unfolding match_at
match_at-Agrees m bytes f h = elim (Option-cases m.mask) [
  | inl e ↦
      rw (e, match_at)
        ((λ t. bytes_match_sound m.value bytes t), (λ a. bytes_match_complete m.value bytes h a))
  | inr (mask, e) ↦
      rw (e, match_at)
        (
          (λ t. masked_match_sound m.value mask bytes t),
          (λ a. masked_match_complete m.value mask bytes h (f mask e) a),
        )
]

Stands-Occurs :
    (m : Matchlet) (bytes : Bytes) (i : ℕ) → HasMask m → Stands m bytes i ↔ Occurs m bytes i
Stands-Occurs m bytes i f = (
  (λ s. (
    s.0,
    (Agrees-drop m bytes i (mask_byte m.mask)).0
        ((match_at-Agrees m (drop i bytes) f (room s.0)).0 s.1),
  )),
  (λ o. (
    o.0,
    (match_at-Agrees m (drop i bytes) f (room o.0)).1
        ((Agrees-drop m bytes i (mask_byte m.mask)).1 o.1),
  )),
)
  where
    room : i + length m.value ≤ length bytes → length m.value ≤ length (drop i bytes)
    room h = omega (arith, length-drop {0} i bytes)

-- A matchlet without a mask, or with a mask of the length of its value, matches the data exactly if
-- its value stands at a place of its range, whole, each byte of it equal to that of the data under the
-- byte of the mask.
pub matchlet_compare_to_data_iff :
    (m : Matchlet) (bytes : Bytes)
    → HasMask m
    → (matchlet_compare_to_data m bytes ≡ true) ↔ OccursWithin m.range_length m.offset m bytes
unfolding matchlet_compare_to_data
matchlet_compare_to_data_iff m bytes f = (
  (λ e.
      let (j, a, b, s) = compare_from_sound m.range_length m.offset m bytes e in
      (j, a, b, (Stands-Occurs m bytes j f).0 s)),
  (λ w.
      let (j, a, b, o) = w in
      compare_from_complete m.range_length m.offset m bytes j a b
        ((Stands-Occurs m bytes j f).1 o)),
)
