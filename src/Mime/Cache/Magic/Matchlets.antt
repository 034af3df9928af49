-- ===== src/Mime/Cache/Magic/Matchlets.antt =====
-- The comparison of a matchlet in a cache, against that of the same matchlet read from a magic file.
use Prim.Native.Nat.{◌≤◌, ◌<◌, bit_and}
use mathlib.Core.Path.{◌≡◌, refl, ap, ap₂, sym, ◌∙◌}
use mathlib.Core.Option.{none-ne-some, some-injective}
use native.Mathlib.Omega.{arith}
use libxdg.Base.{
  ℕ, zero, suc, ◌+◌, ◌-◌, ◌^◌, Bool, true, false, ◌&&◌, Option, none, some, [], ◌∷◌, leb, ltb, ◌==◌,
  if◌then◌else◌, length, length-drop, take, drop, le→leb, leb→le, ltb_false→le,
}
use libxdg.Base.Faults.{◌>>=◌}
use libxdg.Base.Text.{Bytes}
use libxdg.Mime.Magic.{
  Matchlet, bytes_match, masked_match, match_at, compare_from, matchlet_compare_to_data,
}
use libxdg.Mime.Cache.{u32, get_uint32}
use libxdg.Mime.Cache.Magic.{
  byte_at, block_at, masked_equal, memcmp_equal, plain_equal, valid_matchlet, compare_range,
  cache_matchlet_compare_to_data,
}

u32_below : (x : ℕ) → x < 2 ^ 32 → u32 x ≡ x
u32_below x h = omega arith

drop_byte :
    (k : ℕ) (xs : Bytes)
    → suc k ≤ length xs
    → (d : ℕ) × ((byte_at xs k ≡ some d) × (drop k xs ≡ d ∷ drop (suc k) xs))
drop_byte k [] h = absurd (omega arith)
drop_byte zero (x ∷ xs) h = (x, (refl, refl))
drop_byte (suc k) (x ∷ xs) h = drop_byte k xs (omega arith)

memcmp_equal-bytes_match :
    (v d : Bytes) → length v ≤ length d → memcmp_equal v (take (length v) d) ≡ bytes_match v d
unfolding memcmp_equal bytes_match
memcmp_equal-bytes_match [] d h = refl
memcmp_equal-bytes_match (x ∷ v) [] h = absurd (omega arith)
memcmp_equal-bytes_match (x ∷ v) (y ∷ d) h =
    ap (λ b. x == y && b) (memcmp_equal-bytes_match v d (omega arith))

-- A round of the loop under a mask, where its three reads give bytes.
masked_round :
    (o p q : Option ℕ) (next : Option Bool) {v m d : ℕ} {b : Bool}
    → o ≡ some v
    → p ≡ some m
    → q ≡ some d
    → next ≡ some b
    → (o >>= λ v. p >>= λ m.
        q >>= λ d. elim (bit_and v m == bit_and d m) [ false ↦ some false | true ↦ next ])
      ≡ some ((bit_and v m == bit_and d m) && b)
masked_round o p q next {v} {m} {d} {b} e f g h = rw (e, f, g) (go (bit_and v m == bit_and d m))
  where
    go : (c : Bool) → elim c [ false ↦ some false | true ↦ next ] ≡ some (c && b)
    go true = h
    go false = refl

masked_match_cons :
    (n : ℕ) {v m d : ℕ} (vs ms ds : Bytes) {vs' ms' ds' : Bytes}
    → vs ≡ v ∷ vs'
    → ms ≡ m ∷ ms'
    → ds ≡ d ∷ ds'
    → masked_match (take (suc n) vs) (take (suc n) ms) ds
      ≡ (bit_and v m == bit_and d m && masked_match (take n vs') (take n ms') ds')
unfolding masked_match
masked_match_cons n vs ms ds e f g = rw (e, f, g) refl

masked_equal-masked_match :
    (buffer : Bytes) (data_offset mask_offset : ℕ) (bytes : Bytes) (i n j a b c : ℕ)
    → data_offset + j ≡ a
    → mask_offset + j ≡ b
    → j + i ≡ c
    → length buffer ≤ 2 ^ 32
    → a + n ≤ length buffer
    → b + n ≤ length buffer
    → c + n ≤ length bytes
    → masked_equal buffer data_offset mask_offset bytes i n j
      ≡ some (masked_match (take n (drop a buffer)) (take n (drop b buffer)) (drop c bytes))
unfolding masked_equal masked_match
masked_equal-masked_match buffer data_offset mask_offset bytes i zero j a b c e f g small h k l =
    refl
masked_equal-masked_match buffer data_offset mask_offset bytes i (suc n) j a b c e f g small h k l =
    let v = drop_byte a buffer (omega arith) in
    let m = drop_byte b buffer (omega arith) in
    let d = drop_byte c bytes (omega arith) in
    masked_round (byte_at buffer (u32 (data_offset + j))) (byte_at buffer (u32 (mask_offset + j)))
      (byte_at bytes (j + i)) _ (ap (byte_at buffer) (read data_offset a e (omega arith)) ∙ v.1.0)
      (ap (byte_at buffer) (read mask_offset b f (omega arith)) ∙ m.1.0)
      (ap (byte_at bytes) g ∙ d.1.0)
      (masked_equal-masked_match buffer data_offset mask_offset bytes i n (suc j) (suc a) (suc b)
        (suc c) (omega arith) (omega arith) (omega arith) small (omega arith) (omega arith)
        (omega arith))
    ∙ ap some
        (sym (masked_match_cons n (drop a buffer) (drop b buffer) (drop c bytes) v.1.1 m.1.1 d.1.1))
  where
    read : (place x : ℕ) → place + j ≡ x → x < 2 ^ 32 → u32 (place + j) ≡ x
    read place x e h = omega arith

-- The bytes of a mask, where a matchlet has one.
abbrev pub ReadsMask : Bytes → ℕ → ℕ → Option Bytes → Type 0
ReadsMask buffer zero n none = Unit
ReadsMask buffer zero n (some mask) = ⊥
ReadsMask buffer (suc offset) n none = ⊥
ReadsMask buffer (suc offset) n (some mask) = block_at buffer (suc offset) n ≡ some mask

-- The matchlet that is stored in a cache at an offset.
pub record ReadsMatchlet (buffer : Bytes) (offset : ℕ) (m : Matchlet) : Type 0 where
  pub data_offset : ℕ
  pub mask_offset : ℕ
  pub start_at : get_uint32 buffer offset ≡ some m.offset
  pub range_at : get_uint32 buffer (u32 (offset + 4)) ≡ some m.range_length
  pub length_at : get_uint32 buffer (u32 (offset + 12)) ≡ some (length m.value)
  pub data_at : get_uint32 buffer (u32 (offset + 16)) ≡ some data_offset
  pub mask_at : get_uint32 buffer (u32 (offset + 20)) ≡ some mask_offset
  pub value_there : block_at buffer data_offset (length m.value) ≡ some m.value
  pub mask_there : ReadsMask buffer mask_offset (length m.value) m.mask

guarded :
    (b : Bool) (x : Bytes) {v : Bytes}
    → (if b then some x else none) ≡ some v
    → (b ≡ true) × (x ≡ v)
guarded true x h = (refl, some-injective _ _ h)
guarded false x h = absurd (none-ne-some _ h)

block-inside :
    (buffer : Bytes) (offset n : ℕ) {v : Bytes}
    → block_at buffer offset n ≡ some v
    → (offset + n ≤ length buffer) × (take n (drop offset buffer) ≡ v)
block-inside buffer offset n h =
    let g = guarded (leb (offset + n) (length buffer)) (take n (drop offset buffer)) h in
    (leb→le _ _ g.0, g.1)

inside-block :
    (buffer : Bytes) (offset n : ℕ)
    → offset + n ≤ length buffer
    → block_at buffer offset n ≡ some (take n (drop offset buffer))
inside-block buffer offset n h = rw (le→leb (offset + n) (length buffer) h) refl

module _ (buffer : Bytes) (data_offset : ℕ) (value bytes : Bytes) (i : ℕ)
    (h : block_at buffer data_offset (length value) ≡ some value)
    (l : i + length value ≤ length bytes) where
  plain_equal-bytes_match :
      plain_equal buffer data_offset bytes i (length value)
      ≡ some (bytes_match value (drop i bytes))
  plain_equal-bytes_match =
      rw (h, inside-block bytes i (length value) l)
        (ap some
          (memcmp_equal-bytes_match value (drop i bytes) (omega (arith, length-drop i bytes))))

  masked_equal-value :
      (mask_offset : ℕ) (mask : Bytes)
      → length buffer ≤ 2 ^ 32
      → block_at buffer mask_offset (length value) ≡ some mask
      → masked_equal buffer data_offset mask_offset bytes i (length value) 0
        ≡ some (masked_match value mask (drop i bytes))
  masked_equal-value mask_offset mask small k =
      let v = block-inside buffer data_offset (length value) h in
      let m = block-inside buffer mask_offset (length value) k in
      masked_equal-masked_match buffer data_offset mask_offset bytes i (length value) 0 data_offset
        mask_offset i (omega arith) (omega arith) (omega arith) small v.0 m.0 l
      ∙ ap₂ (λ v m. some (masked_match v m (drop i bytes))) v.1 m.1

  valid_matchlet-mask :
      (mask_offset : ℕ) (mask : Option Bytes)
      → length buffer ≤ 2 ^ 32
      → ReadsMask buffer mask_offset (length value) mask
      → valid_matchlet buffer (length value) data_offset mask_offset bytes i
        ≡ some (elim mask [
          | none ↦ bytes_match value (drop i bytes)
          | some mask ↦ masked_match value mask (drop i bytes)
        ])
  valid_matchlet-mask zero none small k = plain_equal-bytes_match
  valid_matchlet-mask zero (some mask) small k = absurd k
  valid_matchlet-mask (suc mask_offset) none small k = absurd k
  valid_matchlet-mask (suc mask_offset) (some mask) small k =
      masked_equal-value (suc mask_offset) mask small k

valid_matchlet-match_at :
    (buffer : Bytes) (data_offset mask_offset : ℕ) (m : Matchlet) (bytes : Bytes) (i : ℕ)
    → length buffer ≤ 2 ^ 32
    → block_at buffer data_offset (length m.value) ≡ some m.value
    → ReadsMask buffer mask_offset (length m.value) m.mask
    → i + length m.value ≤ length bytes
    → valid_matchlet buffer (length m.value) data_offset mask_offset bytes i
      ≡ some (match_at m (drop i bytes))
unfolding match_at
valid_matchlet-match_at buffer data_offset mask_offset m bytes i small h k l =
    valid_matchlet-mask buffer data_offset m.value bytes i h l mask_offset m.mask small k

not_leb : (i : ℕ) → i < 2 ^ 31 → leb (2 ^ 31) i ≡ false
not_leb i h = ground arith

range_round :
    (t t' stop : Bool) (o next : Option Bool) (b c : Bool)
    → t ≡ t'
    → (t' ≡ false → o ≡ some b)
    → stop ≡ false
    → next ≡ some c
    → elim t [
      | true ↦ some false
      | false ↦ elim o [
        | none ↦ none
        | some true ↦ some true
        | some false ↦ elim stop [ true ↦ none | false ↦ next ]
      ]
    ]
      ≡ some (if t' then false else if b then true else c)
range_round true true stop o next b c d e f g = refl
range_round true false stop o next b c d e f g = absurd (ground arith)
range_round false true stop o next b c d e f g = absurd (ground arith)
range_round false false stop o next true c d e f g = rw (e refl) refl
range_round false false stop o next false c d e f g = rw (e refl, f) g

compare_range-compare_from :
    (valid_at : ℕ → Option Bool) (m : Matchlet) (bytes : Bytes)
    → ((i : ℕ) → i + length m.value ≤ length bytes → valid_at i ≡ some (match_at m (drop i bytes)))
    → (n i : ℕ) → i + n + length m.value < 2 ^ 31
    → compare_range valid_at (length m.value) (length bytes) n i ≡ some (compare_from n i m bytes)
unfolding compare_range compare_from
compare_range-compare_from valid_at m bytes valid zero i h = refl
compare_range-compare_from valid_at m bytes valid (suc n) i h =
    range_round (ltb (length bytes) (u32 (i + length m.value)))
      (ltb (length bytes) (i + length m.value)) (leb (2 ^ 31) (i + 1)) (valid_at i) _ _ _
      (ap (ltb (length bytes)) (u32_below (i + length m.value) (omega arith)))
      (λ e. valid i (ltb_false→le _ _ e)) (not_leb (i + 1) (omega arith))
      (compare_range-compare_from valid_at m bytes valid n (i + 1) (omega arith))

-- For a matchlet that is stored in a cache of at most 2 ^ 32 bytes, with a range and a value that end
-- below 2 ^ 31, the comparison with some data comes to an end without a fault and gives what the
-- comparison of the same matchlet read from a magic file gives.
pub cache_matchlet_compare_to_data-match :
    (buffer : Bytes) (offset : ℕ) (m : Matchlet) (bytes : Bytes)
    → length buffer ≤ 2 ^ 32
    → ReadsMatchlet buffer offset m
    → m.offset + m.range_length + length m.value < 2 ^ 31
    → cache_matchlet_compare_to_data buffer offset bytes ≡ some (matchlet_compare_to_data m bytes)
unfolding cache_matchlet_compare_to_data matchlet_compare_to_data
cache_matchlet_compare_to_data-match buffer offset m bytes small r h =
    rw (r.start_at, r.range_at, r.length_at, r.data_at, r.mask_at)
      (rw (range_left m.offset m.range_length (omega arith)) (
        compare_range-compare_from _ m bytes
          (λ i l.
            valid_matchlet-match_at buffer r.data_offset r.mask_offset m bytes i small r.value_there
              r.mask_there l)
          m.range_length m.offset h))
  where
    range_left : (s n : ℕ) → s + n < 2 ^ 31 → u32 (s + n) - s ≡ n
    range_left s n h = omega arith
