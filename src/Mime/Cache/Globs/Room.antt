-- ===== src/Mime/Cache/Globs/Room.antt =====
-- The room for types in the arrays that the lookes for patterns write to.
use Prim.Native.Nat.{◌≤◌}
use mathlib.Core.Path.{◌≡◌, refl, ap, subst}
use mathlib.Core.List.{reverse}
use native.Mathlib.Omega.{arith}
use libxdg.Base.{
  ℕ, zero, suc, ◌+◌, ◌*◌, Bool, true, false, Option, none, some, List, [], ◌∷◌, ◌++◌, leb, ◌==◌,
  if◌then◌else◌, length, drop, leb_false→lt,
}
use libxdg.Base.Faults.{◌>>=◌}
use libxdg.Base.Text.{Bytes}
use libxdg.Mime.Glob.Tree.{MimeWeight}
use libxdg.Mime.Glob.Hash.{ascii_tolower}
use libxdg.Mime.Cache.{u32, get_uint32, string_at, entry_offset, first_answer}
use libxdg.Mime.Cache.Globs.{
  character_of, may_match, weight_of, if_any, or_no_types, fnmatch_entry, fnmatch_entries,
  lookup_fnmatch, cache_glob_lookup_fnmatch, end_types, or_end_types, find_node, node_lookup_suffix,
  lookup_suffix, cache_glob_lookup_suffix, unless_any, mimes_room, cache_pattern_types,
}

-- A result with no fault meets a predicate.
abbrev pub Gives {ℓ} : {A : Type ℓ} → (A → Type 0) → Option A → Type 0
Gives P none = Unit
Gives P (some a) = P a

abbrev Fits : ℕ → List MimeWeight → Type 0
Fits limit ms = length ms ≤ limit

abbrev AnswerFits : ℕ → Option (List MimeWeight) → Type 0
AnswerFits limit none = Unit
AnswerFits limit (some ms) = Fits limit ms

module _ {ℓ κ} {A : Type ℓ} {B : Type κ} (P : B → Type 0) where
  Gives-bind : (o : Option A) (f : A → Option B) → ((a : A) → Gives P (f a)) → Gives P (o >>= f)
  Gives-bind none f h = tt
  Gives-bind (some a) f h = h a

  Gives-then :
      (Q : A → Type 0) (o : Option A) (f : A → Option B)
      → Gives Q o
      → ((a : A) → Q a → Gives P (f a))
      → Gives P (o >>= f)
  Gives-then Q none f q h = tt
  Gives-then Q (some a) f q h = h a q

  Gives-elim :
      (o : Option A) (f : A → Option B)
      → ((a : A) → Gives P (f a))
      → Gives P (elim o [ none ↦ none | some a ↦ f a ])
  Gives-elim none f h = tt
  Gives-elim (some a) f h = h a

module _ {κ} {B : Type κ} (P : B → Type 0) where
  Gives-if :
      (b : Bool) (x y : Option B)
      → Gives P x
      → (b ≡ false → Gives P y)
      → Gives P (elim b [ true ↦ x | false ↦ y ])
  Gives-if true x y h k = h
  Gives-if false x y h k = k refl

  Gives-unless :
      (b : Bool) (x y : Option B)
      → Gives P x
      → Gives P y
      → Gives P (elim b [ true ↦ y | false ↦ x ])
  Gives-unless true x y h k = k
  Gives-unless false x y h k = h

Gives-answer {ℓ} :
    {A : Type ℓ} (P : Option A → Type 0) (o next : Option (Option A))
    → Gives P o
    → Gives P next
    → Gives P (elim o [ none ↦ none | some none ↦ next | some (some a) ↦ some (some a) ])
Gives-answer P none next h k = tt
Gives-answer P (some none) next h k = k
Gives-answer P (some (some a)) next h k = h

length_append_one {ℓ} :
    {A : Type ℓ} (x : A) (xs : List A) → length (xs ++ (x ∷ [])) ≡ suc (length xs)
length_append_one x [] = refl
length_append_one x (y ∷ ys) = ap suc (length_append_one x ys)

-- The types with one more behind them, if it matches, fit where there is room for one.
added-Fits :
    (limit : ℕ) (b : Bool) (m : MimeWeight) (ms : List MimeWeight)
    → leb limit (length ms) ≡ false
    → Fits limit (if b then ms ++ (m ∷ []) else ms)
added-Fits limit true m ms e =
    rw (length_append_one m ms) (omega (arith, leb_false→lt limit (length ms) e))
added-Fits limit false m ms e = omega (arith, leb_false→lt limit (length ms) e)

if_any-Fits : (limit : ℕ) (ms : List MimeWeight) → Fits limit ms → AnswerFits limit (if_any ms)
if_any-Fits limit [] h = tt
if_any-Fits limit (m ∷ ms) h = h

or_no_types-Fits :
    (limit : ℕ) (o : Option (List MimeWeight)) → AnswerFits limit o → Fits limit (or_no_types o)
or_no_types-Fits limit none h = omega arith
or_no_types-Fits limit (some ms) h = h

first_answer-Fits :
    (limit : ℕ) (look : Bytes → Option (Option (List MimeWeight)))
    → ((buffer : Bytes) → Gives (AnswerFits limit) (look buffer))
    → (caches : List Bytes) → Gives (AnswerFits limit) (first_answer look caches)
unfolding first_answer
first_answer-Fits limit look h [] = tt
first_answer-Fits limit look h (buffer ∷ buffers) =
    Gives-answer (AnswerFits limit) (look buffer) _ (h buffer)
      (first_answer-Fits limit look h buffers)

module _ (fnmatch : Bytes → Bytes → Bool) where
  fnmatch_entry-Fits :
      (buffer file_name : Bytes) (check : Bool) (limit offset mimetype_offset weight : ℕ)
      (ms : List MimeWeight)
      → Fits limit ms
      → leb limit (length ms) ≡ false
      → Gives
          (Fits limit)
          (fnmatch_entry fnmatch buffer file_name check offset mimetype_offset weight ms)
  fnmatch_entry-Fits buffer file_name check limit offset mimetype_offset weight ms h e =
      Gives-unless (Fits limit) (may_match check weight) _ _ h (
        Gives-bind (Fits limit) (string_at buffer offset) _ λ ptr.
          added-Fits limit (fnmatch ptr file_name)
            (record { mime = drop mimetype_offset buffer; weight = weight_of weight }) ms e)

  fnmatch_entries-Fits :
      (buffer : Bytes) (list_offset : ℕ) (file_name : Bytes) (check : Bool) (limit n j : ℕ)
      (ms : List MimeWeight)
      → Fits limit ms
      → Gives (Fits limit) (fnmatch_entries fnmatch buffer list_offset file_name check limit n j ms)
  unfolding fnmatch_entries
  fnmatch_entries-Fits buffer list_offset file_name check limit zero j ms h = h
  fnmatch_entries-Fits buffer list_offset file_name check limit (suc n) j ms h =
      Gives-if (Fits limit) (leb limit (length ms)) _ _ h λ e.
        Gives-bind (Fits limit) (get_uint32 buffer (entry_offset list_offset 12 j)) _ λ o.
          Gives-bind (Fits limit) (get_uint32 buffer (u32 (entry_offset list_offset 12 j + 4))) _
            λ t.
              Gives-bind (Fits limit) (get_uint32 buffer (u32 (entry_offset list_offset 12 j + 8)))
                _
                λ w.
                  Gives-then (Fits limit) (Fits limit)
                    (fnmatch_entry fnmatch buffer file_name check o t w ms) _
                    (fnmatch_entry-Fits buffer file_name check limit o t w ms h e)
                    (fnmatch_entries-Fits buffer list_offset file_name check limit n (suc j))

end_types-Fits :
    (buffer : Bytes) (check : Bool) (limit child_offset n i : ℕ) (ms : List MimeWeight)
    → Fits limit ms
    → Gives (Fits limit) (end_types buffer check limit child_offset n i ms)
unfolding end_types
end_types-Fits buffer check limit child_offset zero i ms h = h
end_types-Fits buffer check limit child_offset (suc n) i ms h =
    Gives-if (Fits limit) (leb limit (length ms)) _ _ h λ e.
      Gives-elim (Fits limit) (get_uint32 buffer (u32 (child_offset + 12 * i))) _ λ match_char.
        Gives-unless (Fits limit) (match_char == 0) _ _ h (
          Gives-bind (Fits limit) (get_uint32 buffer (u32 (child_offset + 12 * i + 4))) _ λ t.
            Gives-bind (Fits limit) (get_uint32 buffer (u32 (child_offset + 12 * i + 8))) _ λ w.
              end_types-Fits buffer check limit child_offset n (suc i) _ (
                added-Fits limit (may_match check w)
                  (record { mime = drop t buffer; weight = weight_of w }) ms e))

or_end_types-Fits :
    (buffer : Bytes) (check : Bool) (limit n_children child_offset : ℕ) (ms : List MimeWeight)
    → Fits limit ms
    → Gives (Fits limit) (or_end_types buffer check limit n_children child_offset ms)
or_end_types-Fits buffer check limit n_children child_offset [] h =
    end_types-Fits buffer check limit child_offset n_children 0 [] (omega arith)
or_end_types-Fits buffer check limit n_children child_offset (m ∷ ms) h = h

Gives-found :
    (P : List MimeWeight → Type 0) (o : Option (Option (ℕ × ℕ)))
    (f : ℕ → ℕ → Option (List MimeWeight))
    → P []
    → ((n place : ℕ) → Gives P (f n place))
    → Gives P (elim o [ none ↦ none | some none ↦ some [] | some (some (n, place)) ↦ f n place ])
Gives-found P none f p h = tt
Gives-found P (some none) f p h = p
Gives-found P (some (some (n, place))) f p h = h n place

Gives-next :
    (P : List MimeWeight → Type 0) (o : Option (List MimeWeight))
    (f : List MimeWeight → Option (List MimeWeight))
    → Gives P o
    → ((ms : List MimeWeight) → P ms → Gives P (f ms))
    → Gives P (elim o [ none ↦ none | some ms ↦ f ms ])
Gives-next P none f p h = tt
Gives-next P (some ms) f p h = h ms p

node_lookup_suffix-Fits :
    (buffer : Bytes) (check : Bool) (limit : ℕ) (name : Bytes) (n_entries offset : ℕ)
    → Gives (Fits limit) (node_lookup_suffix buffer check limit name n_entries offset)
unfolding node_lookup_suffix
node_lookup_suffix-Fits buffer check limit [] n_entries offset = tt
node_lookup_suffix-Fits buffer check limit (zero ∷ rest) n_entries offset = tt
node_lookup_suffix-Fits buffer check limit (suc c ∷ []) n_entries offset =
    Gives-found (Fits limit) (find_node buffer n_entries offset (character_of (suc c))) _
      (omega arith) λ n place. end_types-Fits buffer check limit place n 0 [] (omega arith)
node_lookup_suffix-Fits buffer check limit (suc c ∷ d ∷ rest) n_entries offset =
    Gives-found (Fits limit) (find_node buffer n_entries offset (character_of (suc c))) _
      (omega arith)
      λ n place.
        Gives-next (Fits limit) (node_lookup_suffix buffer check limit (d ∷ rest) n place) _
          (node_lookup_suffix-Fits buffer check limit (d ∷ rest) n place)
          (or_end_types-Fits buffer check limit n place)

-- The types of the first cache with an answer, where those of each cache fit.
answers-Fits :
    (limit : ℕ) (look : Bytes → Option (Option (List MimeWeight))) (caches : List Bytes)
    → ((buffer : Bytes) → Gives (AnswerFits limit) (look buffer))
    → Gives (Fits limit) (first_answer look caches >>= λ found. some (or_no_types found))
answers-Fits limit look caches h =
    Gives-then (Fits limit) (AnswerFits limit) (first_answer look caches) _
      (first_answer-Fits limit look h caches) (or_no_types-Fits limit)

cache_glob_lookup_suffix-Fits :
    (caches : List Bytes) (file_name : Bytes) (check : Bool) (limit : ℕ)
    → Gives (Fits limit) (cache_glob_lookup_suffix caches file_name check limit)
unfolding cache_glob_lookup_suffix lookup_suffix
cache_glob_lookup_suffix-Fits caches file_name check limit =
    answers-Fits limit (lookup_suffix file_name check limit) caches λ buffer.
      Gives-bind (AnswerFits limit) (get_uint32 buffer 16) _ λ list_offset.
        Gives-bind (AnswerFits limit) (get_uint32 buffer list_offset) _ λ n_entries.
          Gives-bind (AnswerFits limit) (get_uint32 buffer (u32 (list_offset + 4))) _ λ offset.
            Gives-then (AnswerFits limit) (Fits limit)
              (node_lookup_suffix buffer check limit (reverse file_name) n_entries offset) _
              (node_lookup_suffix-Fits buffer check limit (reverse file_name) n_entries offset)
              (if_any-Fits limit)

unless_any-Fits :
    (limit : ℕ) (ms : List MimeWeight) (next : Option (List MimeWeight))
    → Fits limit ms
    → Gives (Fits limit) next
    → Gives (Fits limit) (unless_any ms next)
unless_any-Fits limit [] next h k = k
unless_any-Fits limit (m ∷ ms) next h k = h

Gives-some {ℓ} : {A : Type ℓ} (P : A → Type 0) (o : Option A) {a : A} → Gives P o → o ≡ some a → P a
Gives-some P o h e = subst (Gives P) e h

module _ (qsort : List MimeWeight → List MimeWeight) (fnmatch : Bytes → Bytes → Bool) where
  cache_glob_lookup_fnmatch-Fits :
      (caches : List Bytes) (file_name : Bytes) (check : Bool) (limit : ℕ)
      → Gives (Fits limit) (cache_glob_lookup_fnmatch fnmatch caches file_name limit check)
  unfolding cache_glob_lookup_fnmatch lookup_fnmatch
  cache_glob_lookup_fnmatch-Fits caches file_name check limit =
      answers-Fits limit (lookup_fnmatch fnmatch file_name check limit) caches λ buffer.
        Gives-bind (AnswerFits limit) (get_uint32 buffer 20) _ λ list_offset.
          Gives-bind (AnswerFits limit) (get_uint32 buffer list_offset) _ λ n_entries.
            Gives-then (AnswerFits limit) (Fits limit)
              (fnmatch_entries fnmatch buffer list_offset file_name check limit n_entries 0 []) _
              (fnmatch_entries-Fits fnmatch buffer list_offset file_name check limit n_entries 0 []
                (omega arith))
              (if_any-Fits limit)

  cache_pattern_types-Fits :
      (caches : List Bytes) (file_name : Bytes)
      → Gives (Fits mimes_room) (cache_pattern_types qsort fnmatch caches file_name)
  unfolding cache_pattern_types
  cache_pattern_types-Fits caches file_name =
      Gives-then (Fits mimes_room) (Fits mimes_room)
        (cache_glob_lookup_suffix caches (ascii_tolower file_name) false mimes_room) _
        (cache_glob_lookup_suffix-Fits caches (ascii_tolower file_name) false mimes_room)
        λ first h.
          Gives-then (Fits mimes_room) (Fits mimes_room)
            (unless_any first (cache_glob_lookup_suffix caches file_name true mimes_room)) _
            (unless_any-Fits mimes_room first _ h
              (cache_glob_lookup_suffix-Fits caches file_name true mimes_room))
            λ second k.
              Gives-then (Fits mimes_room) (Fits mimes_room)
                (unless_any second (
                  cache_glob_lookup_fnmatch fnmatch caches (ascii_tolower file_name) mimes_room
                    false))
                _
                (unless_any-Fits mimes_room second _ k (
                  cache_glob_lookup_fnmatch-Fits caches (ascii_tolower file_name) false mimes_room))
                λ third l.
                  unless_any-Fits mimes_room third _ l
                    (cache_glob_lookup_fnmatch-Fits caches file_name true mimes_room)

  -- For all bytes as caches and every file name, the searches for patterns that come to an end leave
  -- at most 10 types, the size of the array that they write to.
  pub length-cache_pattern_types :
      (caches : List Bytes) (file_name : Bytes) (ms : List MimeWeight)
      → cache_pattern_types qsort fnmatch caches file_name ≡ some ms
      → length ms ≤ 10
  length-cache_pattern_types caches file_name ms e =
      Gives-some (Fits mimes_room) _ (cache_pattern_types-Fits caches file_name) e
