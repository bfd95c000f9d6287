-- ===== src/Jil/Statements.antt =====
-- The statements of one line (`_scan_value` and `_split_statements` of autosys/parser/lexer.py).
pub mod Steps
pub mod Total
use autosys_clone.Prelude.{
  ℕ, zero, suc, Bool, true, false, not, ◌&&◌, ◌||◌, Option, none, some, List, [], ◌∷◌, ◌++◌, Text,
  codes, lower, is_letter, is_digit, is_space, lstrip, length, mem_text, all, leb, ◌==◌,
  if◌then◌else◌,
}
use autosys_clone.Jil.{
  Lexed, done, lex_error, exhausted, and_then, unterminated_blob, expected_statement,
  text_after_blob,
}
use autosys_clone.Jil.Attrs.{is_known_attr, words_of}
use autosys_clone.Jil.Quotes.{tab, backslash, quote, find_close_quote, quote_opens}
use autosys_clone.Jil.Comments.{blob_open, blob_close, drop_prefix, find_text}

-- The longest prefix of such characters, and what is left.
unfoldable pub take_while : (ℕ → Bool) → Text → Text × Text
take_while p [] = ([], [])
take_while p (c ∷ cs) =
    let (held, rest) = take_while p cs in if p c then (c ∷ held, rest) else ([], c ∷ cs)

-- `[A-Za-z_0-9.\-]`.
unfoldable pub is_key_char : ℕ → Bool
unfolding is_letter is_digit
is_key_char c = is_letter c || is_digit c || c == b'_' || c == b'.' || c == b'-'

-- `\s*:`, and the text behind it.
unfoldable pub colon_at : Text → Option Text
colon_at [] = none
colon_at (c ∷ cs) = if c == b':' then some cs else none

unfoldable pub colon_behind : Text → Option Text
unfolding colon_at lstrip
colon_behind cs = colon_at (lstrip cs)

unfoldable pub with_key : Text → Option Text → Option (Text × Text)
with_key key none = none
with_key key (some rest) = some (key, rest)

-- `_KEYCOLON_RE`: a key with its colon, and the text behind it.
unfoldable pub key_colon : Text → Option (Text × Text)
unfolding is_letter take_while is_key_char colon_behind with_key
key_colon [] = none
key_colon (c ∷ cs) =
    if is_letter c
    then with_key (take_while is_key_char (c ∷ cs)).0
        (colon_behind (take_while is_key_char (c ∷ cs)).1)
    else none

-- `_ATTR_START_RE`.
unfoldable pub attr_start : Text → Option (Text × Text)
unfolding key_colon lstrip
attr_start cs = key_colon (lstrip cs)

abbrev is_lower : ℕ → Bool
is_lower c = leb b'a' c && leb c b'z'

-- `_LOWER_KEY_RE`.
unfoldable pub is_lower_key : Text → Bool
unfolding is_digit
is_lower_key [] = false
is_lower_key (c ∷ cs) = is_lower c && all (λ d. is_lower d || is_digit d || d == b'_') cs

-- `_AMBIGUOUS_KEYS`.
unfoldable pub ambiguous_keys : List Text
ambiguous_keys =
    words_of (codes "text type status mode server filter view force active running success failure")
    ++ words_of (codes "starting terminated suspended restart alarm sound name")

-- `_is_boundary`.
unfoldable pub is_boundary : Text → Bool → Bool
unfolding is_known_attr is_lower_key ambiguous_keys
is_boundary key true = is_known_attr key || is_lower_key key
is_boundary key false = is_known_attr key && not (mem_text (lower key) ambiguous_keys)

-- What `_scan_value` does at a character: it ends the value at the key of the next statement, or
-- takes some text, of which the last character is named, and goes on behind it.
pub data Scan : Type 0 where
  ends : Text → Text → Scan
  takes : Text → ℕ → Text → Scan

abbrev pub scan_escape : Text → Scan
scan_escape [] = takes (backslash ∷ []) backslash []
scan_escape (d ∷ ds) = takes (backslash ∷ d ∷ []) d ds

abbrev pub last_of : ℕ → Text → ℕ
last_of c [] = c
last_of c (d ∷ ds) = last_of d ds

-- At a blank, from the blanks behind it and the key that follows them.
unfoldable pub scan_blanks : Bool → ℕ → Text × Text → Option (Text × Text) → Scan
unfolding is_boundary
scan_blanks header c (held, rest) none = takes (c ∷ held) (last_of c held) rest
scan_blanks header c (held, rest) (some (key, behind)) =
    if is_boundary key header then ends key behind else takes (c ∷ held) (last_of c held) rest

abbrev pub scan_quote : Text → Option (Text × Text) → Scan
scan_quote cs none = takes (quote ∷ []) quote cs
scan_quote cs (some (held, rest)) = takes (quote ∷ held ++ quote ∷ []) quote rest

unfoldable pub scan_at : Bool → Option ℕ → ℕ → Text → Scan
unfolding quote_opens find_close_quote is_space scan_blanks take_while key_colon
scan_at header prev c cs =
    if c == backslash
    then scan_escape cs
    else if c == quote && quote_opens prev cs
    then scan_quote cs (find_close_quote false false cs)
    else if is_space c
    then scan_blanks header c (take_while is_space cs) (key_colon (take_while is_space cs).1)
    else takes (c ∷ []) c cs

abbrev pub in_front : Text → Text × Option (Text × Text) → Text × Option (Text × Text)
in_front held (value, next) = (held ++ value, next)

-- `rest` goes on with the character in front and the text behind.
unfoldable pub scan_part :
    (Option ℕ → Text → Text × Option (Text × Text)) → Scan → Text × Option (Text × Text)
scan_part rest (ends key behind) = ([], some (key, behind))
scan_part rest (takes held last behind) = in_front held (rest (some last) behind)

-- `_scan_value`: the value, and the next key with the text behind its colon. Fuel for the length;
-- `prev` is the character in front, inside the value.
unfoldable pub scan_value : ℕ → Bool → Option ℕ → Text → Text × Option (Text × Text)
unfolding scan_at scan_part
scan_value zero header prev cs = ([], none)
scan_value (suc fuel) header prev [] = ([], none)
scan_value (suc fuel) header prev (c ∷ cs) =
    scan_part (scan_value fuel header) (scan_at header prev c cs)

pub record Statement : Type 0 where
  pub key : Text
  pub raw : Text
  pub is_blob : Bool

-- The text behind blanks and tabs.
unfoldable pub skip_blanks : Text → Text
skip_blanks [] = []
skip_blanks (c ∷ cs) = let rest = skip_blanks cs in if c == b' ' || c == tab then rest else c ∷ cs

-- `_blob_span`: no blob, or its text and the text behind it, or the error of a blob without end.
pub data Blob : Type 0 where
  no_blob : Blob
  blob_text : Text → Text → Blob
  endless : Blob

abbrev pub blob_body : Option (Text × Text) → Blob
blob_body none = endless
blob_body (some (held, rest)) = blob_text held rest

unfoldable pub blob_after : Option Text → Blob
unfolding find_text
blob_after none = no_blob
blob_after (some inside) = blob_body (find_text blob_close inside)

unfoldable pub blob_span : Text → Blob
unfolding skip_blanks drop_prefix blob_after
blob_span cs = blob_after (drop_prefix blob_open (skip_blanks cs))

-- What follows a statement: nothing, or the rest of the statements behind the next key.
unfoldable pub go_on :
    Statement
    → (Text → Text → Lexed (List Statement))
    → Option (Text × Text)
    → Lexed (List Statement)
go_on s rest none = done (s ∷ [])
go_on s rest (some (key, behind)) = and_then (rest key behind) (λ ss. done (s ∷ ss))

-- Behind a blob stands nothing, or a statement.
unfoldable pub behind_blob :
    ℕ
    → Statement
    → (Text → Text → Lexed (List Statement))
    → Text
    → Option (Text × Text)
    → Lexed (List Statement)
unfolding go_on
behind_blob line s rest [] next = go_on s rest none
behind_blob line s rest (x ∷ xs) none = lex_error text_after_blob line
behind_blob line s rest (x ∷ xs) (some next) = go_on s rest (some next)

unfoldable pub plain_statement :
    Text
    → (Text → Text → Lexed (List Statement))
    → Text × Option (Text × Text)
    → Lexed (List Statement)
unfolding go_on
plain_statement key rest (value, next) =
    go_on (record { key = key; raw = value; is_blob = false }) rest next

unfoldable pub statement_at :
    Bool → ℕ → Text → (Text → Text → Lexed (List Statement)) → Text → Blob → Lexed (List Statement)
unfolding behind_blob plain_statement lstrip key_colon scan_value
statement_at header line key rest cs endless = lex_error unterminated_blob line
statement_at header line key rest cs (blob_text held behind) =
    behind_blob line (record { key = key; raw = held; is_blob = true }) rest (lstrip behind)
      (key_colon (lstrip behind))
statement_at header line key rest cs no_blob =
    plain_statement key rest (scan_value (length cs) header none cs)

-- The loop of `_split_statements`, behind the colon of a key. Fuel for the length.
unfoldable pub statements : ℕ → Bool → ℕ → Text → Text → Lexed (List Statement)
unfolding statement_at blob_span
statements zero header line key cs = exhausted
statements (suc fuel) header line key cs =
    statement_at header line key (statements fuel header line) cs (blob_span cs)

unfoldable pub start_statements : Text → Bool → ℕ → Option (Text × Text) → Lexed (List Statement)
unfolding statements
start_statements text header line none = lex_error expected_statement line
start_statements text header line (some (key, rest)) =
    statements (suc (length text)) header line key rest

-- `_split_statements`.
unfoldable pub split_statements : Text → Bool → ℕ → Lexed (List Statement)
unfolding attr_start start_statements
split_statements text header line = start_statements text header line (attr_start text)
