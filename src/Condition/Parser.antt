-- ===== src/Condition/Parser.antt =====
-- `_CondParser` of condition_parser.py: recursive descent over the token list. Each production
-- takes fuel; Parser/Total.antt shows how much is enough.
pub mod Total
use autosys_clone.Prelude.{
  ℕ, zero, suc, ◌+◌, ◌-◌, ◌*◌, Bool, true, false, ◌&&◌, Option, none, some, List, [], ◌∷◌, Text,
  upper, ◌==◌, if◌then◌else◌, Decimal, truncate, length, codes,
}
use autosys_clone.Condition.{
  Func, func_text, Cmp, Node, job_cond, exit_code_cond, value_cond, and_node, or_node, not_node,
  Token, value_kw, exitcode_kw, and_kw, or_kw, qstring, number, ident, lparen, rparen, not_kw,
  comma, cmp,
}

-- `syntax_error` is ConditionSyntaxError; `exhausted` belongs to the model alone.
pub data Parsed {ℓ} (A : Type ℓ) : Type ℓ where
  parsed : A → Parsed A
  syntax_error : Parsed A
  exhausted : Parsed A

infixl 5 ◌>>=◌
abbrev pub ◌>>=◌ {ℓ κ} : {A : Type ℓ} {B : Type κ} → Parsed A → (A → Parsed B) → Parsed B
parsed a >>= f = f a
syntax_error >>= f = syntax_error
exhausted >>= f = exhausted

-- The rest of the tokens stands for the position in them.
abbrev pub Tokens : Type 0
Tokens = List Token

-- `_consume(LPAREN)`, `_consume(RPAREN)`.
abbrev expect_lparen : Tokens → Parsed Tokens
expect_lparen (lparen ∷ ts) = parsed ts
expect_lparen _ = syntax_error

abbrev expect_rparen : Tokens → Parsed Tokens
expect_rparen (rparen ∷ ts) = parsed ts
expect_rparen _ = syntax_error

-- `_consume_name`: the text of a token of _NAME_KINDS.
unfoldable pub consume_name : Tokens → Parsed (Text × Tokens)
consume_name (ident w ∷ ts) = parsed (w, ts)
consume_name (Token.func w ∷ ts) = parsed (func_text w, ts)
consume_name (value_kw w ∷ ts) = parsed (w, ts)
consume_name (exitcode_kw w ∷ ts) = parsed (w, ts)
consume_name (and_kw w ∷ ts) = parsed (w, ts)
consume_name (or_kw w ∷ ts) = parsed (w, ts)
consume_name (number w ∷ ts) = parsed (w, ts)
consume_name _ = syntax_error

-- `_consume_cmp`.
consume_cmp : Tokens → Parsed (Cmp × Tokens)
consume_cmp (cmp op ∷ ts) = parsed (op, ts)
consume_cmp _ = syntax_error

-- The value behind `value(...) op`: quoted, or a bare word.
consume_value : Tokens → Parsed (Text × Tokens)
unfolding consume_name
consume_value (qstring w ∷ ts) = parsed (w, ts)
consume_value ts = consume_name ts

-- `float(text)` of a NUMBER token, digit by digit: before the point, then behind it.
read_fraction : Bool → ℕ → ℕ → Text → Decimal
read_fraction minus n places [] = record { minus = minus; digits = n; places = places }
read_fraction minus n places (c ∷ cs) = read_fraction minus (n * 10 + (c - b'0')) (places + 1) cs

read_digits : Bool → ℕ → Text → Decimal
unfolding read_fraction
read_digits minus n [] = record { minus = minus; digits = n; places = 0 }
read_digits minus n (c ∷ cs) =
    let rest = read_digits minus (n * 10 + (c - b'0')) cs in
    if c == b'.' then read_fraction minus n 0 cs else rest

unfoldable pub read_number : Text → Decimal
unfolding read_digits
read_number [] = record { minus = false; digits = 0; places = 0 }
read_number (c ∷ cs) = if c == b'-' then read_digits true 0 cs else read_digits false 0 (c ∷ cs)

-- `name.split("^", 1)` where the name holds a "^".
unfoldable pub split_instance : Text → Text × Option Text
split_instance [] = ([], none)
split_instance (c ∷ cs) =
    let (head, rest) = split_instance cs in if c == b'^' then ([], some cs) else (c ∷ head, rest)

-- The optional `, NUMBER` of a job predicate.
consume_look_back : Tokens → Parsed (Option Decimal × Tokens)
unfolding read_number
consume_look_back (comma ∷ number w ∷ ts) = parsed (some (read_number w), ts)
consume_look_back (comma ∷ ts) = syntax_error
consume_look_back ts = parsed (none, ts)

-- `_parse_job_func`, behind its FUNC token.
unfoldable pub parse_job_func : Func → Tokens → Parsed (Node × Tokens)
unfolding consume_name split_instance consume_look_back
parse_job_func func ts = do
  ts ← expect_lparen ts
  (name, ts) ← consume_name ts
  (look_back, ts) ← consume_look_back ts
  ts ← expect_rparen ts
  parsed (job_cond func (split_instance name).0 (split_instance name).1 look_back, ts)

-- `_parse_value_cond`, behind its VALUE token.
unfoldable pub parse_value_cond : Tokens → Parsed (Node × Tokens)
unfolding consume_name consume_cmp consume_value
parse_value_cond ts = do
  ts ← expect_lparen ts
  (name, ts) ← consume_name ts
  ts ← expect_rparen ts
  (op, ts) ← consume_cmp ts
  (expected, ts) ← consume_value ts
  parsed (value_cond (upper name) op expected, ts)

consume_number : Tokens → Parsed (Decimal × Tokens)
unfolding read_number
consume_number (number w ∷ ts) = parsed (read_number w, ts)
consume_number _ = syntax_error

-- `_parse_exitcode_cond`, behind its EXITCODE token.
unfoldable pub parse_exitcode_cond : Tokens → Parsed (Node × Tokens)
unfolding consume_name consume_cmp consume_number
parse_exitcode_cond ts = do
  ts ← expect_lparen ts
  (name, ts) ← consume_name ts
  ts ← expect_rparen ts
  (op, ts) ← consume_cmp ts
  (expected, ts) ← consume_number ts
  parsed (exit_code_cond name op (truncate expected), ts)

unfoldable mutual
  unfolding parse_job_func parse_value_cond parse_exitcode_cond

  -- `_parse_or`, and its loop behind a left operand.
  pub parse_or : ℕ → Tokens → Parsed (Node × Tokens)
  parse_or zero ts = exhausted
  parse_or (suc fuel) ts = do (left, ts) ← parse_and fuel ts; or_loop fuel left ts

  pub or_loop : ℕ → Node → Tokens → Parsed (Node × Tokens)
  or_loop zero left ts = exhausted
  or_loop (suc fuel) left (or_kw w ∷ ts) = do
    (right, ts) ← parse_and fuel ts
    or_loop fuel (or_node left right) ts
  or_loop (suc fuel) left ts = parsed (left, ts)

  -- `_parse_and`, and its loop behind a left operand.
  pub parse_and : ℕ → Tokens → Parsed (Node × Tokens)
  parse_and zero ts = exhausted
  parse_and (suc fuel) ts = do (left, ts) ← parse_primary fuel ts; and_loop fuel left ts

  pub and_loop : ℕ → Node → Tokens → Parsed (Node × Tokens)
  and_loop zero left ts = exhausted
  and_loop (suc fuel) left (and_kw w ∷ ts) = do
    (right, ts) ← parse_primary fuel ts
    and_loop fuel (and_node left right) ts
  and_loop (suc fuel) left ts = parsed (left, ts)

  -- `_parse_primary`, with `_parse_grouped` and `_parse_not`.
  pub parse_primary : ℕ → Tokens → Parsed (Node × Tokens)
  parse_primary zero ts = exhausted
  parse_primary (suc fuel) (lparen ∷ ts) = do
    (inner, ts) ← parse_or fuel ts
    ts ← expect_rparen ts
    parsed (inner, ts)
  parse_primary (suc fuel) (Token.func func ∷ ts) = parse_job_func func ts
  parse_primary (suc fuel) (value_kw w ∷ ts) = parse_value_cond ts
  parse_primary (suc fuel) (exitcode_kw w ∷ ts) = parse_exitcode_cond ts
  parse_primary (suc fuel) (not_kw ∷ ts) = do
    (operand, ts) ← parse_primary fuel ts
    parsed (not_node operand, ts)
  parse_primary (suc fuel) _ = syntax_error

-- The fuel that every production needs at `ts`.
abbrev pub enough : Tokens → ℕ
enough ts = length ts * 4 + 4

-- `parse`: nothing may follow the condition.
at_end : Node × Tokens → Parsed Node
at_end (node, []) = parsed node
at_end (node, t ∷ ts) = syntax_error

unfoldable pub parse : Tokens → Parsed Node
unfolding parse_or at_end
parse ts = parse_or (enough ts) ts >>= at_end
