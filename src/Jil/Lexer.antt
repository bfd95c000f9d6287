-- ===== src/Jil/Lexer.antt =====
-- The token stream (`Lexer.tokenize` of autosys/parser/lexer.py, strict mode).
use autosys_clone.Prelude.{
  ℕ, suc, Bool, true, false, not, ◌&&◌, ◌||◌, Option, none, some, List, [], ◌∷◌, ◌++◌, Text, codes,
  lower, is_space, is_some, eq_text, strip, length, mem_text, any, ◌==◌, if◌then◌else◌,
}
use autosys_clone.Jil.{
  TokenKind, Token, Lexed, done, lex_error, and_then, needs_name, unterminated_name, invalid_name,
  text_after_header, text_after_value,
}
use autosys_clone.Jil.Attrs.{canonical_key, words_of}
use autosys_clone.Jil.Quotes.{
  newline, backslash, quote, after, find_close_quote, drop_escape, normalize_value,
}
use autosys_clone.Jil.Comments.{strip_comments}
use autosys_clone.Jil.Statements.{Statement, attr_start, split_statements}
use autosys_clone.Jil.Lines.{Entry, Line, directive_match, assemble}

abbrev pub token : TokenKind → Text → ℕ → Token
token kind text line = record { kind = kind; text = text; line = line }

-- `_emit`.
unfoldable pub value_text : Statement → Text
unfolding canonical_key normalize_value
value_text s = if s.is_blob then s.raw else normalize_value s.raw (canonical_key s.key)

unfoldable pub emit : ℕ → List Statement → List Token
unfolding canonical_key value_text
emit line [] = []
emit line (s ∷ ss) =
    token TokenKind.attr_name (canonical_key s.key) line
    ∷ token TokenKind.value (value_text s) line
    ∷ emit line ss

-- `_NAME_QUOTES`: the closer of an opening quote.
unfoldable pub name_quote : ℕ → Option ℕ
name_quote c =
    if c == quote
    then some quote
    else if c == 39
    then some 39
    else if c == 8216
    then some 8217
    else if c == 8220
    then some 8221
    else none

-- `rest.find(closer, 1)`.
unfoldable pub find_char : ℕ → Text → Option (Text × Text)
find_char q [] = none
find_char q (c ∷ cs) = let rest = find_char q cs in if c == q then some ([], cs) else after c rest

abbrev escapes : Text → Bool
escapes [] = false
escapes (c ∷ cs) = not (c == newline)

-- `(?:\\.|[^\s\\])+`; `skip` holds behind a backslash.
unfoldable pub bare_name : Bool → Text → Text × Text
unfolding is_space
bare_name skip [] = ([], [])
bare_name skip (c ∷ cs) =
    let (name, rest) = bare_name (not skip && c == backslash) cs in
    if skip || (if c == backslash then escapes cs else not (is_space c))
    then (c ∷ name, rest)
    else ([], c ∷ cs)

abbrev pub found_name : ℕ → Option (Text × Text) → Lexed (Text × Text)
found_name line none = lex_error unterminated_name line
found_name line (some found) = done found

abbrev pub plain_name : ℕ → Text × Text → Lexed (Text × Text)
plain_name line ([], rest) = lex_error invalid_name line
plain_name line (c ∷ cs, rest) = done (drop_escape b':' (c ∷ cs), rest)

-- An object name, from the closer of the quote that it starts with, if any.
unfoldable pub name_at : ℕ → ℕ → Text → Option ℕ → Lexed (Text × Text)
unfolding find_close_quote find_char bare_name drop_escape
name_at line c cs none = plain_name line (bare_name false (c ∷ cs))
name_at line c cs (some closer) =
    found_name line
      (if closer == quote then find_close_quote false false cs else find_char closer cs)

-- The object name of a header, and the text behind it.
unfoldable pub object_name : ℕ → Text → Lexed (Text × Text)
unfolding name_quote name_at
object_name line [] = lex_error needs_name line
object_name line (c ∷ cs) = name_at line c cs (name_quote c)

-- `_SINGLE_TOKEN_KEYS`.
unfoldable pub single_token_keys : List Text
single_token_keys = words_of (codes "job_type box_name machine n_retrys")

starts_quote : Text → Bool
starts_quote [] = false
starts_quote (c ∷ cs) = c == quote

unfoldable pub has_junk : Statement → Bool
unfolding single_token_keys is_space starts_quote
has_junk s =
    mem_text (lower s.key) single_token_keys
    && not (starts_quote (strip s.raw))
    && any is_space (strip s.raw)

unfoldable pub check_header : ℕ → List Statement → Lexed (List Statement)
unfolding has_junk
check_header line ss = if any has_junk ss then lex_error text_after_value line else done ss

-- The statements of a header.
unfoldable pub header_statements : ℕ → Text → Lexed (List Token)
unfolding attr_start split_statements check_header emit
header_statements line [] = done []
header_statements line (c ∷ cs) =
    if is_some (attr_start (c ∷ cs))
    then and_then (split_statements (c ∷ cs) true line)
        (λ ss. and_then (check_header line ss) (λ checked. done (emit line checked)))
    else lex_error text_after_header line

abbrev ends_word : Text → Bool
ends_word [] = true
ends_word (c ∷ cs) = is_space c

-- `re.match(r'delete(\s|$)', rest, re.IGNORECASE)`.
unfoldable pub delete_word : Text → Text → Option Text
unfolding is_space
delete_word [] cs = if ends_word cs then some cs else none
delete_word (p ∷ ps) [] = none
delete_word (p ∷ ps) (c ∷ cs) =
    if eq_text (lower (c ∷ [])) (p ∷ []) then delete_word ps cs else none

abbrev pub override_delete : ℕ → Option Text → Text → List Token × Text
override_delete line none rest = ([], rest)
override_delete line (some behind) rest = (
  token TokenKind.attr_name (codes "delete") line ∷ token TokenKind.value (codes "1") line ∷ [],
  strip behind,
)

-- The flag of `override_job: name delete`, and the text that is left.
unfoldable pub header_flag : Text → ℕ → Text → List Token × Text
unfolding delete_word
header_flag sub_command line rest =
    if eq_text sub_command (codes "override_job")
    then override_delete line (delete_word (codes "delete") rest) rest
    else ([], rest)

-- The tokens behind the object name.
unfoldable pub behind_name : ℕ → List Token × Text → Lexed (List Token)
unfolding header_statements
behind_name line (flag, left) = and_then (header_statements line left) (λ ts. done (flag ++ ts))

unfoldable pub named_header : Text → ℕ → Text × Text → Lexed (List Token)
unfolding header_flag behind_name
named_header sub_command line (name, behind) =
    and_then (behind_name line (header_flag sub_command line (strip behind))) (λ ts.
      done (token TokenKind.directive sub_command line ∷ token TokenKind.job_name name line ∷ ts))

-- An entry is a header where the sub-command matches, so `none` does not occur.
unfoldable pub header_tokens : ℕ → Option (Text × Text) → Lexed (List Token)
unfolding object_name named_header
header_tokens line none = lex_error needs_name line
header_tokens line (some (sub_command, rest)) =
    and_then (object_name line (strip rest)) (named_header sub_command line)

-- `_tokenize_header`.
unfoldable pub tokenize_header : Entry → Lexed (List Token)
unfolding directive_match header_tokens
tokenize_header e = header_tokens e.line (directive_match e.text)

-- `_tokenize_entry`.
unfoldable pub tokenize_entry : Entry → Lexed (List Token)
unfolding tokenize_header split_statements emit
tokenize_entry e =
    if e.is_header
    then tokenize_header e
    else and_then (split_statements e.text false e.line) (λ ss. done (emit e.line ss))

unfoldable pub tokenize_entries : List Entry → Lexed (List Token)
unfolding tokenize_entry
tokenize_entries [] = done []
tokenize_entries (e ∷ es) =
    and_then (tokenize_entry e) (λ ts. and_then (tokenize_entries es) (λ more. done (ts ++ more)))

-- `normalize_text`: the byte order mark is dropped, and every line end is a newline.
abbrev pub carriage_return : ℕ
carriage_return = 13

unfoldable pub line_ends : Text → Text
line_ends [] = []
line_ends (c ∷ cs) =
    let rest = line_ends cs in
    if c == carriage_return then (if starts_newline cs then rest else newline ∷ rest) else c ∷ rest
  where
    starts_newline : Text → Bool
    starts_newline [] = false
    starts_newline (d ∷ ds) = d == newline

unfoldable pub drop_mark : Text → Text
drop_mark [] = []
drop_mark (c ∷ cs) = let rest = drop_mark cs in if c == 65279 then rest else c ∷ cs

unfoldable pub normalize_text : Text → Text
unfolding line_ends drop_mark
normalize_text text = line_ends (drop_mark text)

abbrev pub add_char : ℕ → List Text → List Text
add_char c [] = (c ∷ []) ∷ []
add_char c (l ∷ ls) = (c ∷ l) ∷ ls

-- `clean.split("\n")`.
unfoldable pub split_lines : Text → List Text
split_lines [] = [] ∷ []
split_lines (c ∷ cs) =
    let rest = split_lines cs in if c == newline then [] ∷ rest else add_char c rest

unfoldable pub number : ℕ → List Text → List Line
number n [] = []
number n (l ∷ ls) = (n, l) ∷ number (suc n) ls

-- `text.count("\n")`.
unfoldable pub count_newlines : Text → ℕ
count_newlines [] = 0
count_newlines (c ∷ cs) = let rest = count_newlines cs in if c == newline then suc rest else rest

abbrev add_end : ℕ → List Token → List Token
add_end line ts = ts ++ token TokenKind.eof [] line ∷ []

-- `tokenize`.
unfoldable pub tokenize_lines : ℕ → List Line → Lexed (List Token)
unfolding assemble tokenize_entries
tokenize_lines last ls =
    and_then (assemble (suc (length ls)) none ls)
      (λ es. and_then (tokenize_entries es) (λ ts. done (add_end last ts)))

unfoldable pub tokenize : Text → Lexed (List Token)
unfolding tokenize_lines number split_lines strip_comments normalize_text count_newlines
tokenize text =
    tokenize_lines (suc (count_newlines (normalize_text text)))
      (number 1 (split_lines (strip_comments (normalize_text text))))
