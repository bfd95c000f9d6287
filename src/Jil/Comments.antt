-- ===== src/Jil/Comments.antt =====
-- Comments (`strip_comments` of autosys/parser/lexer.py). `before` is the text in front, backwards.
pub mod Blanks
pub mod Steps
pub mod Kept
use autosys_clone.Prelude.{
  ℕ, zero, suc, Bool, true, false, not, ◌&&◌, ◌||◌, Option, none, some, [], ◌∷◌, ◌++◌, Text, codes,
  map, is_space, length, ◌==◌, if◌then◌else◌,
}
use autosys_clone.Jil.Quotes.{newline, tab, backslash, quote, after, quote_opens}

abbrev pub blob_open : Text
blob_open = codes "<auto_blobt>"

abbrev pub blob_close : Text
blob_close = codes "</auto_blobt>"

-- `text.startswith(prefix)`, with the text behind the prefix.
unfoldable pub drop_prefix : Text → Text → Option Text
drop_prefix [] cs = some cs
drop_prefix (p ∷ ps) [] = none
drop_prefix (p ∷ ps) (c ∷ cs) = if p == c then drop_prefix ps cs else none

-- `text.find(pattern)`: the text in front of the pattern, and the text behind it.
abbrev pub or_later : ℕ → Option Text → Option (Text × Text) → Option (Text × Text)
or_later c none later = after c later
or_later c (some behind) later = some ([], behind)

unfoldable pub find_text : Text → Text → Option (Text × Text)
unfolding drop_prefix
find_text pattern [] = none
find_text pattern (c ∷ cs) = or_later c (drop_prefix pattern (c ∷ cs)) (find_text pattern cs)

-- The character in front of a position, on its line.
abbrev pub on_line : Text → Option ℕ
on_line [] = none
on_line (p ∷ ps) = if p == newline then none else some p

-- Whether the text in front, blanks aside, ends with a colon.
unfoldable pub behind_colon : Text → Bool
behind_colon [] = false
behind_colon (p ∷ ps) =
    let rest = behind_colon ps in if p == b' ' || p == tab then rest else p == b':'

abbrev pub starts_line : Text → Bool
starts_line [] = true
starts_line (p ∷ ps) = is_space p

-- The end of a comment: a `*/` with white space or nothing behind it.
unfoldable pub comment_end : Text → Option (Text × Text)
unfolding is_space
comment_end [] = none
comment_end (c ∷ []) = none
comment_end (c ∷ d ∷ cs) =
    let rest = comment_end (d ∷ cs) in
    if c == b'*' && d == b'/' && starts_line cs then some (c ∷ d ∷ [], cs) else after c rest

-- `re.sub(r"[^\n]", " ", seg)`.
abbrev pub blank : ℕ → ℕ
blank c = if c == newline then c else b' '

abbrev pub blanks : Text → Text
blanks = map blank

-- What stands at a position.
pub data Part : Type 0 where
  line_end : Part
  escape : ℕ → Text → Part
  quote_mark : Bool → Part
  blob : Text → Text → Part
  comment : Text → Text → Part
  unclosed : Part
  plain : Part

abbrev pub blob_part : Text → Option (Text × Text) → Part
blob_part cs none = blob cs []
blob_part cs (some (held, behind)) = blob (held ++ blob_close) behind

abbrev pub comment_part : Option (Text × Text) → Part
comment_part none = unclosed
comment_part (some (held, behind)) = comment held behind

-- A backslash takes the character behind it along, unless that ends the line.
abbrev pub escaped : Text → Part → Part
escaped [] other = other
escaped (d ∷ ds) other = if d == newline then other else escape d ds

-- At `/*`.
abbrev pub comment_at : Bool → Text → Option Text → Part
comment_at no_close before none = plain
comment_at no_close before (some behind) =
    if not no_close && starts_line before
    then comment_part (after b'/' (after b'*' (comment_end behind)))
    else plain

-- At `<auto_blobt>`.
abbrev pub blob_at : Text → Text → Part → Option Text → Part
blob_at before cs other none = other
blob_at before cs other (some behind) =
    if behind_colon before then blob_part cs (find_text blob_close cs) else plain

unfoldable pub part_at : Bool → Bool → Text → ℕ → Text → Part
unfolding quote_opens drop_prefix behind_colon comment_end find_text is_space
part_at in_quote no_close before c cs =
    if c == newline
    then line_end
    else if c == backslash
    then escaped cs plain
    else if c == quote
    then quote_mark (not in_quote && quote_opens (on_line before) cs)
    else if in_quote
    then plain
    else blob_at before (c ∷ cs) (comment_at no_close before (drop_prefix (codes "/*") (c ∷ cs)))
        (drop_prefix blob_open (c ∷ cs))

abbrev pub back_over : Text → Text → Text
back_over [] before = before
back_over (c ∷ cs) before = back_over cs (c ∷ before)

-- The text for a part; `rest` goes on with the two flags behind the part.
unfoldable pub strip_part :
    (Bool → Bool → Text → Text → Text) → Bool → Bool → Text → ℕ → Text → Part → Text
strip_part rest in_quote no_close before c cs line_end = c ∷ rest false no_close (c ∷ before) cs
strip_part rest in_quote no_close before c cs (escape d ds) =
    c ∷ d ∷ rest in_quote no_close (d ∷ c ∷ before) ds
strip_part rest in_quote no_close before c cs (quote_mark opens) =
    c ∷ rest opens no_close (c ∷ before) cs
strip_part rest in_quote no_close before c cs (blob held behind) =
    held ++ rest in_quote no_close (back_over held before) behind
strip_part rest in_quote no_close before c cs (comment held behind) =
    blanks held ++ rest in_quote no_close (back_over held before) behind
strip_part rest in_quote no_close before c cs unclosed = c ∷ rest in_quote true (c ∷ before) cs
strip_part rest in_quote no_close before c cs plain = c ∷ rest in_quote no_close (c ∷ before) cs

-- The loop of `strip_comments`, on fuel for the length.
unfoldable pub strip_from : ℕ → Bool → Bool → Text → Text → Text
unfolding part_at strip_part
strip_from zero in_quote no_close before cs = cs
strip_from (suc fuel) in_quote no_close before [] = []
strip_from (suc fuel) in_quote no_close before (c ∷ cs) =
    strip_part (strip_from fuel) in_quote no_close before c cs
      (part_at in_quote no_close before c cs)

unfoldable pub strip_comments : Text → Text
unfolding strip_from
strip_comments text = strip_from (length text) false false [] text
