-- ===== src/Condition/Tokenizer.antt =====
-- `_tokenize_condition` of condition_parser.py, the alternatives of `_COND_RE` in their order, and
-- `parse_condition`. Digits and letters are ASCII: `\d` accepts more beyond it.
pub mod Total
use autosys_clone.Prelude.{
  ℕ, zero, suc, Bool, true, false, not, ◌&&◌, ◌||◌, Option, none, some, List, [], ◌∷◌, ◌++◌, Text,
  codes, eq_text, upper, strip, lstrip, is_space, is_digit, is_letter, is_empty, ◌==◌,
  if◌then◌else◌, length,
}
use autosys_clone.Condition.{
  Func, Cmp, eq, neq, lt, gt, le, ge, Node, Token, value_kw, exitcode_kw, and_kw, or_kw, qstring,
  number, ident, lparen, rparen, not_kw, comma, cmp,
}
use autosys_clone.Condition.Parser.{Parsed, parsed, syntax_error, exhausted, ◌>>=◌, Tokens, parse}

-- `[A-Za-z0-9_#]` and `[A-Za-z0-9_.:%^#-]`.
unfoldable pub is_name_start : ℕ → Bool
unfolding is_letter is_digit
is_name_start c = is_letter c || is_digit c || c == b'_' || c == b'#'

unfoldable pub is_name_char : ℕ → Bool
unfolding is_name_start
is_name_char c = is_name_start c || c == b'.' || c == b':' || c == b'%' || c == b'^' || c == b'-'

-- The longest run of characters that pass `p`, and what follows it.
unfoldable pub span : (ℕ → Bool) → Text → Text × Text
span p [] = ([], [])
span p (c ∷ cs) = let (run, rest) = span p cs in if p c then (c ∷ run, rest) else ([], c ∷ cs)

abbrev pub next_is : (ℕ → Bool) → Text → Bool
next_is p [] = false
next_is p (c ∷ cs) = p c

abbrev pub tail : Text → Text
tail [] = []
tail (c ∷ cs) = cs

-- `(?:\.\d+)?` behind the digits of a number.
fraction : Text → Text × Text
unfolding span
fraction cs =
    if next_is (λ c. c == b'.') cs && next_is is_digit (tail cs)
    then (b'.' ∷ (span is_digit (tail cs)).0, (span is_digit (tail cs)).1)
    else ([], cs)

-- `\d+(?:\.\d+)?` with the look-ahead that no name character follows.
unsigned : Text → Option (Text × Text)
unfolding fraction
unsigned cs =
    let (run, rest) = span is_digit cs in
    let (part, after) = fraction rest in
    if not (is_empty run) && not (next_is is_name_char after)
    then some (run ++ part, after)
    else none

-- NUMBER.
unfoldable pub match_number : Text → Option (Text × Text)
unfolding unsigned
match_number [] = none
match_number (c ∷ cs) =
    if c == b'-'
    then elim (unsigned cs) [ none ↦ none | some (w, rest) ↦ some (c ∷ w, rest) ]
    else unsigned (c ∷ cs)

-- QSTRING behind its opening quote: the text without the quotes. The flag is set behind a
-- backslash, which takes any character but a line feed.
unfoldable pub match_string : Bool → Text → Option (Text × Text)
match_string escaped [] = none
match_string escaped (c ∷ cs) =
    let rest = match_string (not escaped && c == b'\\') cs in
    let more : Option (Text × Text) = elim rest [
      | none ↦ none
      | some (w, after) ↦ some (c ∷ w, after)
    ] in
    if escaped
    then (if c == b'\n' then none else more)
    else (if c == b'"' then some ([], cs) else more)

-- The kinds that are spelled with punctuation.
unfoldable pub match_symbol : ℕ → Text → Option (Token × Text)
match_symbol c cs =
    if c == b'!'
    then (if next_is (λ d. d == b'=') cs then some (cmp neq, tail cs) else some (not_kw, cs))
    else if c == b'<'
    then (if next_is (λ d. d == b'>') cs
        then some (cmp neq, tail cs)
        else if next_is (λ d. d == b'=') cs
        then some (cmp le, tail cs)
        else some (cmp lt, cs))
    else if c == b'>'
    then (if next_is (λ d. d == b'=') cs then some (cmp ge, tail cs) else some (cmp gt, cs))
    else if c == b'='
    then some (cmp eq, cs)
    else if c == b'&'
    then some (and_kw (c ∷ []), cs)
    else if c == b'|'
    then some (or_kw (c ∷ []), cs)
    else if c == b'('
    then some (lparen, cs)
    else if c == b')'
    then some (rparen, cs)
    else if c == b','
    then some (comma, cs)
    else none

-- `val in _VALID_FUNCS`.
unfoldable pub func_of : Text → Option Func
func_of w =
    if eq_text w (codes "success")
    then some Func.success
    else if eq_text w (codes "failure")
    then some Func.failure
    else if eq_text w (codes "done")
    then some Func.done
    else if eq_text w (codes "notrunning")
    then some Func.notrunning
    else if eq_text w (codes "terminated")
    then some Func.terminated
    else if eq_text w (codes "activated")
    then some Func.activated
    else if eq_text w (codes "s")
    then some Func.s
    else if eq_text w (codes "f")
    then some Func.f
    else if eq_text w (codes "d")
    then some Func.d
    else if eq_text w (codes "n")
    then some Func.n
    else if eq_text w (codes "t")
    then some Func.t
    else none

-- A word before "(" may be a keyword; otherwise it is a name.
called_word : Text → Token
unfolding func_of
called_word w = elim (func_of w) [
  | some func ↦ Token.func func
  | none ↦
      if eq_text w (codes "value") || eq_text w (codes "v")
      then value_kw w
      else if eq_text w (codes "exitcode") || eq_text w (codes "e")
      then exitcode_kw w
      else ident w
]

unfoldable pub classify : Text → Text → Token
unfolding called_word lstrip
classify w rest =
    if eq_text (upper w) (codes "AND")
    then and_kw w
    else if eq_text (upper w) (codes "OR")
    then or_kw w
    else if next_is (λ c. c == b'(') (lstrip rest)
    then called_word w
    else ident w

-- IDENT, the last alternative.
match_ident : Text → Option (Token × Text)
unfolding span classify is_name_start
match_ident cs =
    let (w, rest) = span is_name_char cs in
    if next_is is_name_start cs then some (classify w rest, rest) else none

match_word : Text → Option (Token × Text)
unfolding match_number match_ident
match_word cs = elim (match_number cs) [
  | some (w, rest) ↦ some (number w, rest)
  | none ↦ match_ident cs
]

quoted : Option (Text × Text) → Option (Token × Text)
quoted none = none
quoted (some (w, rest)) = some (qstring w, rest)

-- One match of `_COND_RE` at a character that is no blank.
unfoldable pub match_token : ℕ → Text → Option (Token × Text)
unfolding match_symbol match_string match_word quoted
match_token c cs = elim (match_symbol c cs) [
  | some found ↦ some found
  | none ↦ if c == b'"' then quoted (match_string false cs) else match_word (c ∷ cs)
]

-- The token of one match, in front of those of the rest.
unfoldable pub emit : (Text → Parsed Tokens) → Option (Token × Text) → Parsed Tokens
emit go none = syntax_error
emit go (some (token, rest)) = go rest >>= λ ts. parsed (token ∷ ts)

-- The loop of `_tokenize_condition`, which drops the blanks.
unfoldable pub tokens : ℕ → Text → Parsed Tokens
unfolding is_space emit
tokens zero cs = exhausted
tokens (suc fuel) [] = parsed []
tokens (suc fuel) (c ∷ cs) = elim (is_space c) [
  | true ↦ tokens fuel cs
  | false ↦ emit (tokens fuel) (match_token c cs)
]

-- `_tokenize_condition`, with fuel for each character.
unfoldable pub tokenize : Text → Parsed Tokens
unfolding tokens
tokenize cs = tokens (suc (length cs)) cs

unfoldable pub parse_condition : Text → Parsed Node
unfolding tokenize
parse_condition expr = tokenize (strip expr) >>= parse
