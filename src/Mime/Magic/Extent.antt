-- ===== src/Mime/Magic/Extent.antt =====
-- `_xdg_mime_update_mime_magic_extents` of src/mime/xdgmimemagic.c: how much of a file the rules
-- can read.
use libxdg.Base.{
  ℕ, zero, suc, ◌+◌, ◌-◌, ◌^◌, ◌%◌, ◌≤◌, ◌<◌, ◌≡◌, refl, ap, ◌∙◌, Bool, true, false, Option, inl,
  inr, List, [], ◌∷◌, ltb, length, take, drop, length-take, All, arith, Option-cases,
}
use libxdg.Base.Int.{ℤ, pos, negsuc}
use libxdg.Base.Text.{Bytes}
use libxdg.Base.Words.{as_int}
use libxdg.Mime.Magic.{
  Matchlet, MagicMatch, bytes_match, masked_match, match_at, compare_from, matchlet_compare_to_data,
  compare_level, match_compare_to_data, extent, raised, matchlets_extent, matches_extent,
  update_extents, strike, lookup_matches, lookup_data,
}

-- Only as many bytes are read as the value has.
bytes_match-take :
    (value bytes : Bytes) (n : ℕ)
    → length value ≤ n
    → bytes_match value (take n bytes) ≡ bytes_match value bytes
unfolding bytes_match
bytes_match-take [] bytes n h = refl
bytes_match-take (v ∷ value) bytes zero h = absurd (omega arith)
bytes_match-take (v ∷ value) [] (suc n) h = refl
bytes_match-take (v ∷ value) (b ∷ bytes) (suc n) h =
    rw (bytes_match-take value bytes n (omega arith))

masked_match-take :
    (value mask bytes : Bytes) (n : ℕ)
    → length value ≤ n
    → masked_match value mask (take n bytes) ≡ masked_match value mask bytes
unfolding masked_match
masked_match-take [] mask bytes n h = refl
masked_match-take (v ∷ value) mask bytes zero h = absurd (omega arith)
masked_match-take (v ∷ value) [] bytes (suc n) h = refl
masked_match-take (v ∷ value) (m ∷ mask) [] (suc n) h = refl
masked_match-take (v ∷ value) (m ∷ mask) (b ∷ bytes) (suc n) h =
    rw (masked_match-take value mask bytes n (omega arith))

drop-take : (i n k : ℕ) (bytes : Bytes) → n ≡ i + k → drop i (take n bytes) ≡ take k (drop i bytes)
drop-take zero n k bytes e = let e' : n ≡ k = omega arith in rw e'
drop-take (suc i) zero k bytes e = absurd (omega arith)
drop-take (suc i) (suc n) zero [] e = refl
drop-take (suc i) (suc n) (suc k) [] e = refl
drop-take (suc i) (suc n) k (b ∷ bytes) e = drop-take i n k bytes (omega arith)

match_at-take :
    (m : Matchlet) (bytes : Bytes) (n : ℕ)
    → length m.value ≤ n
    → match_at m (take n bytes) ≡ match_at m bytes
unfolding match_at
match_at-take m bytes n h = elim (Option-cases m.mask) [
  | inl e ↦ rw (e, match_at) (bytes_match-take m.value bytes n h)
  | inr (mask, e) ↦ rw (e, match_at) (masked_match-take m.value mask bytes n h)
]

room-take : (bytes : Bytes) (k n : ℕ) → k ≤ n → ltb (length (take n bytes)) k ≡ ltb (length bytes) k
room-take bytes k n h = ground (arith, length-take {0} n bytes)

compare_from-take :
    (rounds i : ℕ) (m : Matchlet) (bytes : Bytes) (n : ℕ)
    → i + rounds + length m.value ≤ n
    → compare_from rounds i m (take n bytes) ≡ compare_from rounds i m bytes
unfolding compare_from
compare_from-take zero i m bytes n h = refl
compare_from-take (suc rounds) i m bytes n h = rw (
  room-take bytes (i + length m.value) n (omega arith),
  drop-take i n (n - i) bytes (omega arith),
  match_at-take m (drop i bytes) (n - i) (omega arith),
  compare_from-take rounds (i + 1) m bytes n (omega arith),
)

-- The end of the bytes that a matchlet reads.
abbrev reach : Matchlet → ℕ
reach m = length m.value + m.offset + m.range_length

matchlet-take :
    (m : Matchlet) (bytes : Bytes) (n : ℕ)
    → reach m ≤ n
    → matchlet_compare_to_data m (take n bytes) ≡ matchlet_compare_to_data m bytes
unfolding matchlet_compare_to_data
matchlet-take m bytes n h = compare_from-take m.range_length m.offset m bytes n (omega arith)

-- The sum of offset, length and range is in the range of an `int`, in a list or in all matches.
abbrev pub IsSmall : Matchlet → Type 0
IsSmall m = length m.value + m.offset + m.range_length < 2 ^ 31

abbrev pub AllSmall : List MagicMatch → Type 0
AllSmall = All (λ m. All IsSmall m.matchlets)

raised-ge : (k : ℕ) (e : ℤ) → k ≤ raised k e
raised-ge k (pos n) = ground arith
raised-ge k (negsuc n) = omega arith

extent-reach : (m : Matchlet) → IsSmall m → extent m ≡ pos (reach m)
extent-reach m h =
    let same : reach m % 2 ^ 32 ≡ reach m = omega arith in
    let small : ltb (reach m) (2 ^ 31) ≡ true = ground arith in ap as_int same ∙ rw small refl

raised-reach : (k : ℕ) (m : Matchlet) → IsSmall m → reach m ≤ raised k (extent m)
raised-reach k m h = rw (extent-reach m h) (ground arith)

-- No matchlet of the list, or of the matches, reaches further.
abbrev Within : ℕ → List Matchlet → Type 0
Within n = All (λ m. reach m ≤ n)

abbrev AllWithin : ℕ → List MagicMatch → Type 0
AllWithin n = All (λ m. Within n m.matchlets)

compare_level-take :
    (passing : Bool) (bytes : Bytes) (n d : ℕ) (ms : List Matchlet)
    → Within n ms
    → compare_level passing (take n bytes) d ms ≡ compare_level passing bytes d ms
unfolding compare_level
compare_level-take passing bytes n d [] h = refl
compare_level-take passing bytes n d (m ∷ ms) h = rw (
  compare_level-take true bytes n d ms h.1,
  compare_level-take false bytes n (d + 1) ms h.1,
  matchlet-take m bytes n h.0,
)

lookup_matches-take :
    (equal : Bytes → Bytes → Bool) (ms : List MagicMatch) (bytes : Bytes) (n : ℕ)
    (mime_types : List (Option Bytes))
    → AllWithin n ms
    → lookup_matches equal ms (take n bytes) mime_types ≡ lookup_matches equal ms bytes mime_types
unfolding lookup_matches match_compare_to_data
lookup_matches-take equal [] bytes n mime_types h = refl
lookup_matches-take equal (m ∷ ms) bytes n mime_types h = rw (
  compare_level-take false bytes n 0 m.matchlets h.0,
  lookup_matches-take equal ms bytes n (strike equal m.mime_type mime_types) h.1,
)

matchlets_extent-ge : (k : ℕ) (ms : List Matchlet) → k ≤ matchlets_extent k ms
unfolding matchlets_extent
matchlets_extent-ge k [] = omega arith
matchlets_extent-ge k (m ∷ ms) =
    omega (arith, matchlets_extent-ge (raised k (extent m)) ms, raised-ge k (extent m))

Within-matchlets_extent :
    (k n : ℕ) (ms : List Matchlet) → All IsSmall ms → matchlets_extent k ms ≤ n → Within n ms
unfolding matchlets_extent
Within-matchlets_extent k n [] small h = tt
Within-matchlets_extent k n (m ∷ ms) (small, more) h = (
  omega (arith, matchlets_extent-ge (raised k (extent m)) ms, raised-reach k m small),
  Within-matchlets_extent (raised k (extent m)) n ms more h,
)

matches_extent-ge : (k : ℕ) (ms : List MagicMatch) → k ≤ matches_extent k ms
unfolding matches_extent
matches_extent-ge k [] = omega arith
matches_extent-ge k (m ∷ ms) = omega (
  arith,
  matches_extent-ge (matchlets_extent k m.matchlets) ms,
  matchlets_extent-ge k m.matchlets,
)

AllWithin-matches_extent :
    (k n : ℕ) (ms : List MagicMatch) → AllSmall ms → matches_extent k ms ≤ n → AllWithin n ms
unfolding matches_extent
AllWithin-matches_extent k n [] small h = tt
AllWithin-matches_extent k n (m ∷ ms) (small, more) h = (
  Within-matchlets_extent k n m.matchlets small
      (omega (arith, matches_extent-ge (matchlets_extent k m.matchlets) ms)),
  AllWithin-matches_extent (matchlets_extent k m.matchlets) n ms more h,
)

-- The extent that is computed for some matches is enough, if the sum of length, offset and range of
-- every matchlet is below 2 ^ 31: a lookup in the first `max_extent` bytes of a file gives the same
-- type and priority as a lookup in the whole file.
pub lookup_data-take :
    (equal : Bytes → Bytes → Bool) (ms : List MagicMatch) (bytes : Bytes)
    (mime_types : List (Option Bytes))
    → AllSmall ms
    → lookup_data equal (update_extents ms) (take (update_extents ms).max_extent bytes) mime_types
      ≡ lookup_data equal (update_extents ms) bytes mime_types
unfolding lookup_data update_extents
lookup_data-take equal ms bytes mime_types small =
    lookup_matches-take equal ms bytes (matches_extent 0 ms) mime_types
      (AllWithin-matches_extent 0 (matches_extent 0 ms) ms small (omega arith))
