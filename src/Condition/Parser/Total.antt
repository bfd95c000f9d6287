-- ===== src/Condition/Parser/Total.antt =====
-- The parser ends: with fuel by the number of tokens no production runs out of it, and each
-- production consumes a token.
use autosys_clone.Prelude.{ℕ, zero, suc, ◌+◌, ◌*◌, ◌≤◌, ◌<◌, ◌≢◌, [], ◌∷◌, length, arith}
use autosys_clone.Condition.{
  Func, Node, and_node, or_node, Token, value_kw, exitcode_kw, and_kw, or_kw, lparen, rparen,
  not_kw, comma,
}
use autosys_clone.Condition.Parser.{
  Parsed, parsed, syntax_error, exhausted, ◌>>=◌, Tokens, expect_lparen, expect_rparen,
  consume_name, consume_cmp, consume_value, consume_look_back, consume_number, parse_job_func,
  parse_value_cond, parse_exitcode_cond, parse_or, or_loop, parse_and, and_loop, parse_primary,
  enough, at_end, parse,
}

-- The result leaves fewer than `n` tokens, and did not run out of fuel.
abbrev pub Leaves {ℓ} : {A : Type ℓ} → ℕ → Parsed (A × Tokens) → Type 0
Leaves n (parsed (a, rest)) = length rest < n
Leaves n syntax_error = Unit
Leaves n exhausted = ⊥

abbrev LeavesRest : ℕ → Parsed Tokens → Type 0
LeavesRest n (parsed rest) = length rest < n
LeavesRest n syntax_error = Unit
LeavesRest n exhausted = ⊥

bind-Leaves {ℓ κ} :
    {A : Type ℓ} {B : Type κ} {k : ℕ} (n : ℕ) (m : Parsed (A × Tokens))
    (f : A × Tokens → Parsed (B × Tokens))
    → Leaves k m
    → ((a : A) (rest : Tokens) → length rest < k → Leaves n (f (a, rest)))
    → Leaves n (m >>= f)
bind-Leaves n (parsed (a, rest)) f h go = go a rest h
bind-Leaves n syntax_error f h go = tt
bind-Leaves n exhausted f h go = absurd h

bind-LeavesRest {κ} :
    {B : Type κ} {k : ℕ} (n : ℕ) (m : Parsed Tokens) (f : Tokens → Parsed (B × Tokens))
    → LeavesRest k m
    → ((rest : Tokens) → length rest < k → Leaves n (f rest))
    → Leaves n (m >>= f)
bind-LeavesRest n (parsed rest) f h go = go rest h
bind-LeavesRest n syntax_error f h go = tt
bind-LeavesRest n exhausted f h go = absurd h

expect_lparen-Leaves : (ts : Tokens) → LeavesRest (length ts) (expect_lparen ts)
expect_lparen-Leaves [] = tt
expect_lparen-Leaves (lparen ∷ ts) = omega arith
expect_lparen-Leaves (_ ∷ ts) = tt

expect_rparen-Leaves : (ts : Tokens) → LeavesRest (length ts) (expect_rparen ts)
expect_rparen-Leaves [] = tt
expect_rparen-Leaves (rparen ∷ ts) = omega arith
expect_rparen-Leaves (_ ∷ ts) = tt

consume_name-Leaves : (ts : Tokens) → Leaves (length ts) (consume_name ts)
unfolding consume_name
consume_name-Leaves [] = tt
consume_name-Leaves (rparen ∷ ts) = tt
consume_name-Leaves (_ ∷ ts) = ground arith

consume_cmp-Leaves : (ts : Tokens) → Leaves (length ts) (consume_cmp ts)
unfolding consume_cmp
consume_cmp-Leaves [] = tt
consume_cmp-Leaves (rparen ∷ ts) = tt
consume_cmp-Leaves (_ ∷ ts) = ground arith

consume_value-Leaves : (ts : Tokens) → Leaves (length ts) (consume_value ts)
unfolding consume_value
consume_value-Leaves [] = tt
consume_value-Leaves (rparen ∷ ts) = tt
consume_value-Leaves (_ ∷ ts) = ground arith

consume_number-Leaves : (ts : Tokens) → Leaves (length ts) (consume_number ts)
unfolding consume_number
consume_number-Leaves [] = tt
consume_number-Leaves (rparen ∷ ts) = tt
consume_number-Leaves (_ ∷ ts) = ground arith

-- An absent lookback consumes nothing.
consume_look_back-Leaves : (ts : Tokens) → Leaves (suc (length ts)) (consume_look_back ts)
unfolding consume_look_back
consume_look_back-Leaves [] = ground arith
consume_look_back-Leaves (comma ∷ []) = tt
consume_look_back-Leaves (comma ∷ rparen ∷ ts) = tt
consume_look_back-Leaves (comma ∷ _ ∷ ts) = ground arith
consume_look_back-Leaves (_ ∷ ts) = ground arith

-- A single result at the end of a production.
expect_rparen-parsed :
    {A : Type 0} (n : ℕ) (a : A) (ts : Tokens)
    → length ts ≤ n
    → Leaves n (expect_rparen ts >>= λ rest. parsed (a, rest))
expect_rparen-parsed n a ts h =
    bind-LeavesRest n (expect_rparen ts) (λ rest. parsed (a, rest)) (expect_rparen-Leaves ts)
      (λ rest r. omega arith)

parse_job_func-Leaves : (func : Func) (ts : Tokens) → Leaves (length ts) (parse_job_func func ts)
unfolding parse_job_func
parse_job_func-Leaves func ts =
    bind-LeavesRest _ (expect_lparen ts) _ (expect_lparen-Leaves ts) λ t1 h1.
      bind-Leaves _ (consume_name t1) _ (consume_name-Leaves t1) λ name t2 h2.
        bind-Leaves _ (consume_look_back t2) _ (consume_look_back-Leaves t2)
          λ look_back t3 h3. expect_rparen-parsed _ _ t3 (omega arith)

parse_value_cond-Leaves : (ts : Tokens) → Leaves (length ts) (parse_value_cond ts)
unfolding parse_value_cond
parse_value_cond-Leaves ts =
    bind-LeavesRest _ (expect_lparen ts) _ (expect_lparen-Leaves ts) λ t1 h1.
      bind-Leaves _ (consume_name t1) _ (consume_name-Leaves t1) λ name t2 h2.
        bind-LeavesRest _ (expect_rparen t2) _ (expect_rparen-Leaves t2) λ t3 h3.
          bind-Leaves _ (consume_cmp t3) _ (consume_cmp-Leaves t3) λ op t4 h4.
            bind-Leaves _ (consume_value t4) _ (consume_value-Leaves t4)
              λ expected t5 h5. omega arith

parse_exitcode_cond-Leaves : (ts : Tokens) → Leaves (length ts) (parse_exitcode_cond ts)
unfolding parse_exitcode_cond
parse_exitcode_cond-Leaves ts =
    bind-LeavesRest _ (expect_lparen ts) _ (expect_lparen-Leaves ts) λ t1 h1.
      bind-Leaves _ (consume_name t1) _ (consume_name-Leaves t1) λ name t2 h2.
        bind-LeavesRest _ (expect_rparen t2) _ (expect_rparen-Leaves t2) λ t3 h3.
          bind-Leaves _ (consume_cmp t3) _ (consume_cmp-Leaves t3) λ op t4 h4.
            bind-Leaves _ (consume_number t4) _ (consume_number-Leaves t4)
              λ expected t5 h5. omega arith

Leaves-weaken {ℓ} :
    {A : Type ℓ} (k n : ℕ) (m : Parsed (A × Tokens)) → k ≤ n → Leaves k m → Leaves n m
Leaves-weaken k n (parsed (a, rest)) h l = omega arith
Leaves-weaken k n syntax_error h l = tt
Leaves-weaken k n exhausted h l = absurd l

mutual
  unfolding parse_or

  parse_or-Leaves :
      (fuel : ℕ) (ts : Tokens) → length ts * 4 + 3 ≤ fuel → Leaves (length ts) (parse_or fuel ts)
  parse_or-Leaves zero ts h = absurd (omega arith)
  parse_or-Leaves (suc fuel) ts h =
      bind-Leaves _ (parse_and fuel ts) _ (parse_and-Leaves fuel ts (omega arith)) λ left rest r.
        Leaves-weaken _ _ (or_loop fuel left rest) r (or_loop-Leaves fuel left rest (omega arith))

  or_loop-Leaves :
      (fuel : ℕ) (left : Node) (ts : Tokens)
      → length ts * 4 + 1 ≤ fuel
      → Leaves (suc (length ts)) (or_loop fuel left ts)
  or_loop-Leaves zero left ts h = absurd (omega arith)
  or_loop-Leaves (suc fuel) left [] h = omega arith
  or_loop-Leaves (suc fuel) left (or_kw w ∷ ts) h =
      bind-Leaves _ (parse_and fuel ts) _ (parse_and-Leaves fuel ts (omega arith)) λ right rest r.
        Leaves-weaken _ _ (or_loop fuel (or_node left right) rest) (omega arith)
          (or_loop-Leaves fuel (or_node left right) rest (omega arith))
  or_loop-Leaves (suc fuel) left (_ ∷ ts) h = omega arith

  parse_and-Leaves :
      (fuel : ℕ) (ts : Tokens) → length ts * 4 + 2 ≤ fuel → Leaves (length ts) (parse_and fuel ts)
  parse_and-Leaves zero ts h = absurd (omega arith)
  parse_and-Leaves (suc fuel) ts h =
      bind-Leaves _ (parse_primary fuel ts) _ (parse_primary-Leaves fuel ts (omega arith))
        λ left rest r.
          Leaves-weaken _ _ (and_loop fuel left rest) r
            (and_loop-Leaves fuel left rest (omega arith))

  and_loop-Leaves :
      (fuel : ℕ) (left : Node) (ts : Tokens)
      → length ts * 4 + 1 ≤ fuel
      → Leaves (suc (length ts)) (and_loop fuel left ts)
  and_loop-Leaves zero left ts h = absurd (omega arith)
  and_loop-Leaves (suc fuel) left [] h = omega arith
  and_loop-Leaves (suc fuel) left (and_kw w ∷ ts) h =
      bind-Leaves _ (parse_primary fuel ts) _ (parse_primary-Leaves fuel ts (omega arith))
        λ right rest r.
          Leaves-weaken _ _ (and_loop fuel (and_node left right) rest) (omega arith)
            (and_loop-Leaves fuel (and_node left right) rest (omega arith))
  and_loop-Leaves (suc fuel) left (_ ∷ ts) h = omega arith

  parse_primary-Leaves :
      (fuel : ℕ) (ts : Tokens)
      → length ts * 4 + 1 ≤ fuel
      → Leaves (length ts) (parse_primary fuel ts)
  parse_primary-Leaves zero ts h = absurd (omega arith)
  parse_primary-Leaves (suc fuel) [] h = tt
  parse_primary-Leaves (suc fuel) (lparen ∷ ts) h =
      bind-Leaves _ (parse_or fuel ts) _ (parse_or-Leaves fuel ts (omega arith))
        λ inner rest r. expect_rparen-parsed _ inner rest (omega arith)
  parse_primary-Leaves (suc fuel) (Token.func func ∷ ts) h =
      Leaves-weaken _ _ (parse_job_func func ts) (omega arith) (parse_job_func-Leaves func ts)
  parse_primary-Leaves (suc fuel) (value_kw w ∷ ts) h =
      Leaves-weaken _ _ (parse_value_cond ts) (omega arith) (parse_value_cond-Leaves ts)
  parse_primary-Leaves (suc fuel) (exitcode_kw w ∷ ts) h =
      Leaves-weaken _ _ (parse_exitcode_cond ts) (omega arith) (parse_exitcode_cond-Leaves ts)
  parse_primary-Leaves (suc fuel) (not_kw ∷ ts) h =
      bind-Leaves _ (parse_primary fuel ts) _ (parse_primary-Leaves fuel ts (omega arith))
        λ operand rest r. omega arith
  parse_primary-Leaves (suc fuel) (_ ∷ ts) h = tt

at_end-ne-exhausted : (n : ℕ) (m : Parsed (Node × Tokens)) → Leaves n m → (m >>= at_end) ≢ exhausted
unfolding at_end
at_end-ne-exhausted n (parsed (node, [])) l e = cc
at_end-ne-exhausted n (parsed (node, t ∷ ts)) l e = cc
at_end-ne-exhausted n syntax_error l e = cc
at_end-ne-exhausted n exhausted l e = l

-- The fuel of `parse` is enough.
pub parse-ne-exhausted : (ts : Tokens) → parse ts ≢ exhausted
unfolding parse
parse-ne-exhausted ts =
    at_end-ne-exhausted (length ts) (parse_or (enough ts) ts)
      (parse_or-Leaves (enough ts) ts (omega arith))
