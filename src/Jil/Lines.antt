-- ===== src/Jil/Lines.antt =====
-- Physical lines into logical statements (`Lexer._assemble` of autosys/parser/lexer.py, strict mode).
use autosys_clone.Prelude.{
  ℕ, zero, suc, Bool, true, false, not, ◌&&◌, ◌||◌, Option, none, some, List, [], ◌∷◌, ◌++◌, Text,
  codes, lower, to_lower, map, is_letter, is_digit, is_empty, is_some, eq_text, lstrip, strip,
  mem_text, any, ◌==◌, if◌then◌else◌,
}
use autosys_clone.Jil.{
  Lexed, done, lex_error, exhausted, and_then, unterminated_blob, unterminated_quote,
  unknown_sub_command, cannot_tokenise,
}
use autosys_clone.Jil.Attrs.{is_known_attr, words_of}
use autosys_clone.Jil.Quotes.{newline, quote, find_close_quote}
use autosys_clone.Jil.Comments.{blob_open, blob_close, drop_prefix, find_text, behind_colon}
use autosys_clone.Jil.Statements.{
  take_while, is_key_char, colon_behind, with_key, attr_start, skip_blanks,
}

-- `_DIRECTIVES`.
unfoldable pub directives : List Text
directives =
    words_of
      (codes "insert_job update_job delete_job override_job rename_job delete_box insert_machine")
    ++ words_of
        (codes "update_machine delete_machine insert_job_type update_job_type delete_job_type")
    ++ words_of
        (codes "insert_monbro update_monbro delete_monbro insert_blob update_blob delete_blob")
    ++ words_of (codes "insert_glob update_glob delete_glob insert_xinst update_xinst delete_xinst")
    ++ words_of (codes "insert_resource update_resource delete_resource insert_connectionprofile")
    ++ words_of
        (codes "update_connectionprofile delete_connectionprofile insert_calendar update_calendar")
    ++ words_of
        (codes "delete_calendar insert_view modify_view delete_view insert_filter modify_filter")
    ++ words_of (codes "delete_filter insert_alert_policy modify_alert_policy delete_alert_policy")
    ++ words_of (codes "delete_user")

-- The ASCII letter that a character matches under IGNORECASE, in lower case: the dotted capital and
-- the dotless small i match i, the long s matches s, and the Kelvin sign matches k.
unfoldable pub fold_case : ℕ → ℕ
unfolding to_lower
fold_case c =
    if c == 304 || c == 305
    then b'i'
    else if c == 383
    then b's'
    else if c == 8490
    then b'k'
    else to_lower c

-- `str.lower` of a word that such an expression matches: of the four characters, the dotted capital
-- i becomes an i with a combining dot, the Kelvin sign becomes a k, and the others stay.
unfoldable pub lower_word : Text → Text
unfolding to_lower
lower_word [] = []
lower_word (c ∷ cs) =
    let rest = lower_word cs in
    if c == 304 then b'i' ∷ 775 ∷ rest else if c == 8490 then b'k' ∷ rest else to_lower c ∷ rest

unfoldable pub is_directive_char : ℕ → Bool
unfolding is_letter fold_case
is_directive_char c = is_letter (fold_case c) || c == b'_'

unfoldable pub known_sub_command : Text × Text → Option (Text × Text)
unfolding directives colon_behind with_key fold_case lower_word
known_sub_command (word, rest) =
    if mem_text (map fold_case word) directives
    then with_key (lower_word word) (colon_behind rest)
    else none

-- `_DIRECTIVE_RE`: the sub-command in lower case, and the text behind its colon.
unfoldable pub directive_match : Text → Option (Text × Text)
unfolding known_sub_command take_while is_directive_char lstrip
directive_match cs = known_sub_command (take_while is_directive_char (lstrip cs))

is_word_char : ℕ → Bool
unfolding is_letter is_digit fold_case
is_word_char c = is_letter (fold_case c) || is_digit c || c == b'_'

-- `(?:insert|update|delete|override|rename|modify)_`.
unfoldable pub verbs : List Text
verbs = words_of (codes "insert_ update_ delete_ override_ rename_ modify_")

longer_than : Text → Text → Bool
unfolding drop_prefix
longer_than word prefix = elim (drop_prefix prefix word) [
  | none ↦ false
  | some rest ↦ not (is_empty rest)
]

-- `_UNKNOWN_DIRECTIVE_RE`: the name that looks like a sub-command.
unfoldable pub unknown_match : Text → Option (Text × Text)
unfolding verbs take_while is_word_char fold_case longer_than colon_behind with_key lstrip
unknown_match cs =
    let (word, rest) = take_while is_word_char (lstrip cs) in
    if any (longer_than (map fold_case word)) verbs then with_key word (colon_behind rest) else none

-- `_BARE_KEY_RE`.
unfoldable pub is_bare_key : Text → Bool
unfolding is_letter take_while is_key_char
is_bare_key [] = false
is_bare_key (c ∷ cs) = is_letter c && is_empty (take_while is_key_char cs).1

-- `_FREE_TEXT_ATTRS`.
unfoldable pub free_text_attrs : List Text
free_text_attrs =
    words_of
      (codes "command description condition box_success box_failure notification_msg resources")

-- `_open_blob`: whether the last `<auto_blobt>`, behind a colon, has no end. The text in front of
-- it, backwards, and the text behind its start.
last_open : Text → Text → Option (Text × Text)
unfolding drop_prefix
last_open before [] = none
last_open before (c ∷ cs) = elim (last_open (c ∷ before) cs) [
  | some found ↦ some found
  | none ↦ if is_some (drop_prefix blob_open (c ∷ cs)) then some (before, c ∷ cs) else none
]

unfoldable pub open_blob : Text → Bool
unfolding last_open find_text behind_colon
open_blob text = elim (last_open [] text) [
  | none ↦ false
  | some (before, from) ↦ not (is_some (find_text blob_close from)) && behind_colon before
]

-- `_open_value_quote`.
quote_left_open : Text → Bool
unfolding find_close_quote
quote_left_open [] = false
quote_left_open (c ∷ cs) = c == quote && not (is_some (find_close_quote false false cs))

unfoldable pub open_value_quote : Text → Bool
unfolding attr_start quote_left_open skip_blanks
open_value_quote text = elim (attr_start text) [
  | none ↦ false
  | some (key, rest) ↦ quote_left_open (skip_blanks rest)
]

-- An `_Entry`.
pub record Entry : Type 0 where
  pub line : ℕ
  pub text : Text
  pub is_header : Bool

-- A line with its number.
abbrev pub Line : Type 0
Line = ℕ × Text

abbrev pub add_line : Entry → Text → Entry
add_line e t = record { line = e.line; text = e.text ++ newline ∷ t; is_header = e.is_header }

-- The two loops that take raw lines while a blob, then while a quote stays open.
unfoldable pub take_quote : Entry → List Line → Lexed (Entry × List Line)
unfolding open_value_quote
take_quote e [] =
    if open_value_quote e.text then lex_error unterminated_quote e.line else done (e, [])
take_quote e ((n, t) ∷ ls) =
    let rest = take_quote (add_line e t) ls in
    if open_value_quote e.text then rest else done (e, (n, t) ∷ ls)

unfoldable pub take_blob : Entry → List Line → Lexed (Entry × List Line)
unfolding open_blob take_quote
take_blob e [] = if open_blob e.text then lex_error unterminated_blob e.line else take_quote e []
take_blob e ((n, t) ∷ ls) =
    let rest = take_blob (add_line e t) ls in
    if open_blob e.text then rest else take_quote e ((n, t) ∷ ls)

-- A keyword on one line, `: value` on the next: the text, and the lines left.
unfoldable pub starts_with_colon : Text → Bool
starts_with_colon [] = false
starts_with_colon (c ∷ cs) = c == b':'

unfoldable pub join_colon : Text → List Line → Option (Text × List Line)
unfolding starts_with_colon
join_colon s [] = none
join_colon s ((n, t) ∷ ls) =
    let rest = join_colon s ls in
    if is_empty (strip t)
    then rest
    else if starts_with_colon (strip t)
    then some (s ++ strip t, ls)
    else none

abbrev pub joined_or : Text → List Line → Option (Text × List Line) → Text × List Line
joined_or s ls none = (s, ls)
joined_or s ls (some joined) = joined

unfoldable pub logical_line : Text → List Line → Text × List Line
unfolding is_bare_key join_colon
logical_line s ls = if is_bare_key s then joined_or s ls (join_colon s ls) else (s, ls)

-- What a logical line is.
pub data Shape : Type 0 where
  header : Shape
  unknown : Shape
  attribute : Shape
  continued : Shape

unfoldable pub shape_of : Text → Shape
unfolding directive_match unknown_match is_known_attr attr_start
shape_of s =
    if is_some (directive_match s)
    then header
    else if is_unknown (unknown_match s)
    then unknown
    else if is_some (attr_start s)
    then attribute
    else continued
  where
    is_unknown : Option (Text × Text) → Bool
    is_unknown none = false
    is_unknown (some (word, rest)) = not (is_known_attr word)

-- `text.partition(":")`.
unfoldable pub partition_colon : Text → Text × Text
partition_colon [] = ([], [])
partition_colon (c ∷ cs) =
    let (key, rest) = partition_colon cs in if c == b':' then ([], cs) else (c ∷ key, rest)

-- Whether a line may be added to the value of an entry.
unfoldable pub may_continue : Entry → Bool
unfolding free_text_attrs partition_colon
may_continue e =
    let (key, so_far) = partition_colon e.text in
    not e.is_header && (is_empty (strip so_far) || mem_text (lower (strip key)) free_text_attrs)

-- The lines that say nothing.
unfoldable pub is_skipped : Text → Bool
is_skipped [] = true
is_skipped (c ∷ cs) = c == b'#' || eq_text (lower (c ∷ cs)) (codes "exit")

abbrev pub with_entry : Option Entry → Lexed (List Entry) → Lexed (List Entry)
with_entry none r = r
with_entry (some e) r = and_then r (λ es. done (e ∷ es))

-- A line continues the last entry, or it is refused.
unfoldable pub extend : ℕ → Text → Option Entry → Lexed Entry
unfolding may_continue
extend n s none = lex_error cannot_tokenise n
extend n s (some e) =
    if may_continue e
    then done (record { line = e.line; text = e.text ++ b' ' ∷ s; is_header = e.is_header })
    else lex_error cannot_tokenise n

-- A logical line, with the last entry; `rest` goes on with the entry that is now the last.
unfoldable pub assemble_line :
    (Option Entry → List Line → Lexed (List Entry))
    → ℕ
    → Option Entry
    → Text × List Line
    → Shape
    → Lexed (List Entry)
unfolding extend take_blob
assemble_line rest n prev (s, ls) header =
    with_entry prev (rest (some (record { line = n; text = s; is_header = true })) ls)
assemble_line rest n prev (s, ls) unknown = lex_error unknown_sub_command n
assemble_line rest n prev (s, ls) attribute =
    and_then (take_blob (record { line = n; text = s; is_header = false }) ls)
      (λ (e, left). with_entry prev (rest (some e) left))
assemble_line rest n prev (s, ls) continued =
    and_then (extend n s prev) (λ e. and_then (take_blob e ls) (λ (e', left). rest (some e') left))

-- A stripped line, and the lines behind it.
unfoldable pub assemble_at :
    (Option Entry → List Line → Lexed (List Entry))
    → ℕ
    → Option Entry
    → Text
    → List Line
    → Bool
    → Lexed (List Entry)
unfolding assemble_line logical_line shape_of
assemble_at rest n prev s ls true = rest prev ls
assemble_at rest n prev s ls false =
    assemble_line rest n prev (logical_line s ls) (shape_of (logical_line s ls).0)

-- The loop of `_assemble`, with the last entry. Fuel for the number of lines.
unfoldable pub assemble : ℕ → Option Entry → List Line → Lexed (List Entry)
unfolding is_skipped assemble_at
assemble zero prev ls = exhausted
assemble (suc fuel) prev [] = with_entry prev (done [])
assemble (suc fuel) prev ((n, t) ∷ ls) =
    assemble_at (assemble fuel) n prev (strip t) ls (is_skipped (strip t))
