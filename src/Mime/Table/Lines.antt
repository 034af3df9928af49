-- ===== src/Mime/Table/Lines.antt =====
-- Files of lines, as src/mime/xdgmimealias.c, src/mime/xdgmimeparent.c and src/mime/xdgmimeglob.c read
-- them: lines that fit into the buffer of `fgets`.
use mathlib.Core.List.{append_assoc}
use libxdg.Base.{
  ℕ, ◌-◌, ◌≤◌, ◌<◌, ◌≡◌, ◌≢◌, refl, ap, ap₂, ◌∙◌, false, List, [], ◌∷◌, ◌++◌, length, All, arith,
  ==-ne,
}
use libxdg.Base.Text.{Bytes, IsText, Lacks, cstr, cstr-IsText, strchr-append}
use libxdg.Mime.Table.{
  Entry, close, cut, ends_line, fgets_lines, without_last, is_comment, line_entries, lines_entries,
}

-- A text without its end of line, that fits into the 255 bytes of the buffer with it and with the NUL.
abbrev pub IsLine : Bytes → Type 0
IsLine l = IsText l × Lacks 10 l × (length l ≤ 253)

-- The lines, each with its end.
abbrev pub file_of : List Bytes → Bytes
file_of [] = []
file_of (l ∷ ls) = l ++ (10 ∷ file_of ls)

abbrev pub ended : List Bytes → List Bytes
ended [] = []
ended (l ∷ ls) = (l ++ (10 ∷ [])) ∷ ended ls

goes_on : (room c : ℕ) → c ≢ 10 → 1 < room → ends_line room c ≡ false
goes_on room c h k = rw (==-ne c 10 h, ==-ne room 1 (omega arith)) refl

cut-append :
    (room : ℕ) (l s : Bytes)
    → Lacks 10 l
    → length l < room
    → cut room (l ++ (10 ∷ s)) ≡ (l ++ (10 ∷ []), fgets_lines s)
unfolding cut fgets_lines
cut-append room [] s h k = refl
cut-append room (c ∷ l) s h k =
    rw (goes_on room c h.0 (omega arith), cut-append (room - 1) l s h.1 (omega arith)) refl

close_ended : (l : Bytes) (ls : List Bytes) → close (l ++ (10 ∷ [])) ls ≡ (l ++ (10 ∷ [])) ∷ ls
close_ended [] ls = refl
close_ended (c ∷ l) ls = refl

pub fgets_lines-file_of : (ls : List Bytes) → All IsLine ls → fgets_lines (file_of ls) ≡ ended ls
unfolding fgets_lines cut
fgets_lines-file_of [] h = refl
fgets_lines-file_of (l ∷ ls) h =
    ap (λ c. close c.0 c.1) (cut-append 254 l (file_of ls) h.0.1 (omega arith))
    ∙ close_ended l (fgets_lines (file_of ls))
    ∙ ap (◌∷◌ (l ++ (10 ∷ []))) (fgets_lines-file_of ls h.1)

-- The line of a pair: the key, a separator and the value.
abbrev pub row : ℕ → Entry → Bytes
row sep e = e.key ++ (sep ∷ e.value)

abbrev pub rows : ℕ → List Entry → List Bytes
rows sep [] = []
rows sep (e ∷ es) = row sep e ∷ rows sep es

-- A pair whose line fits, does not begin like a comment, and has the separator behind the key first.
abbrev pub IsRow : ℕ → Entry → Type 0
IsRow sep e = IsLine (row sep e) × Lacks sep e.key × (is_comment (row sep e) ≡ false)

All-snoc : (P : ℕ → Type 0) (s : Bytes) (c : ℕ) → All P s → P c → All P (s ++ (c ∷ []))
All-snoc P [] c h k = (k, tt)
All-snoc P (x ∷ s) c h k = (h.0, All-snoc P s c h.1 k)

pub cstr-line : (l : Bytes) → IsText l → cstr (l ++ (10 ∷ [])) ≡ l ++ (10 ∷ [])
cstr-line l h = cstr-IsText (l ++ (10 ∷ [])) (All-snoc _ l 10 h (omega arith))

without_last-append : (s : Bytes) (c : ℕ) → without_last (s ++ (c ∷ [])) ≡ s
unfolding without_last
without_last-append [] c = refl
without_last-append (x ∷ []) c = refl
without_last-append (x ∷ y ∷ s) c = ap (◌∷◌ x) (without_last-append (y ∷ s) c)

is_comment-row :
    (sep : ℕ) (k v s : Bytes)
    → is_comment (k ++ (sep ∷ v)) ≡ false
    → is_comment ((k ++ (sep ∷ v)) ++ s) ≡ false
is_comment-row sep [] v s h = h
is_comment-row sep (c ∷ k) v s h = h

line_entries-row :
    (sep : ℕ) (e : Entry) → IsRow sep e → line_entries sep (row sep e ++ (10 ∷ [])) ≡ e ∷ []
unfolding line_entries
line_entries-row sep e (line, lacks, plain) =
    rw
      (
        cstr-line (row sep e) line.0,
        is_comment-row sep e.key e.value (10 ∷ []) plain,
        append_assoc e.key (sep ∷ e.value) (10 ∷ []),
        strchr-append sep e.key (e.value ++ (10 ∷ [])) lacks,
        without_last-append e.value 10,
      )
      refl

lines_entries-rows :
    (sep : ℕ) (es : List Entry) → All (IsRow sep) es → lines_entries sep (ended (rows sep es)) ≡ es
unfolding lines_entries
lines_entries-rows sep [] h = refl
lines_entries-rows sep (e ∷ es) h =
    ap₂ ◌++◌ (line_entries-row sep e h.0) (lines_entries-rows sep es h.1)

rows-IsLine : (sep : ℕ) (es : List Entry) → All (IsRow sep) es → All IsLine (rows sep es)
rows-IsLine sep [] h = tt
rows-IsLine sep (e ∷ es) h = (h.0.0, rows-IsLine sep es h.1)

-- The pairs on the lines of a file are read as they are.
pub lines_entries-file_of :
    (sep : ℕ) (es : List Entry)
    → All (IsRow sep) es
    → lines_entries sep (fgets_lines (file_of (rows sep es))) ≡ es
lines_entries-file_of sep es h =
    ap (lines_entries sep) (fgets_lines-file_of (rows sep es) (rows-IsLine sep es h))
    ∙ lines_entries-rows sep es h
