-- ===== src/Jil/Writer/RoundTrip.antt =====
-- A line that the writer writes gives its attribute back (`job_to_jil` of
-- autosys/parser/jil_writer.py and `Lexer` of autosys/parser/lexer.py).
use autosys_clone.Prelude.{
  ℕ, zero, suc, ◌≡◌, refl, ap, ◌∙◌, ◌≤◌, inl, inr, Bool, true, false, Option, none, some, List, [],
  ◌∷◌, ◌++◌, Text, is_letter, is_digit, is_space, lstrip, length, All, Bool-cases, if_both, arith,
  append-nil, subst,
}
use autosys_clone.Jil.{attr_name, value, Lexed, done, and_then}
use autosys_clone.Jil.Attrs.{canonical_key}
use autosys_clone.Jil.Quotes.{quote, quote_opens, may_precede}
use autosys_clone.Jil.Comments.{drop_prefix, blob_open, strip_comments}
use autosys_clone.Jil.Comments.Kept.{NoOpen, strip_comments-kept}
use autosys_clone.Jil.Statements.{
  take_while, is_key_char, colon_behind, colon_at, with_key, key_colon, attr_start, scan_blanks,
  scan_at, takes, in_front, scan_part, scan_value, Statement, skip_blanks, blob_span, no_blob,
  blob_after, go_on, plain_statement, statement_at, statements, start_statements, split_statements,
}
use autosys_clone.Jil.Lexer.{token, emit, tokenize_entry}
use autosys_clone.Jil.Writer.{format_value, text, needs_quoting, quoted}
use autosys_clone.Jil.Writer.Values.{
  Plain, is_bare, Bare, Plain-Bare, bare_blank, bare_space, find_close_quote-Plain,
  normalize_value-quoted,
}

-- A key: a letter, then key characters.
unfoldable pub Key : Text → Type 0
Key [] = ⊥
Key (c ∷ cs) = (is_letter c ≡ true) × All (λ d. is_key_char d ≡ true) (c ∷ cs)

take_while-Key :
    (cs rest : Text)
    → All (λ d. is_key_char d ≡ true) cs
    → take_while is_key_char (cs ++ b':' ∷ rest) ≡ (cs, b':' ∷ rest)
unfolding take_while is_key_char is_letter is_digit
take_while-Key [] rest h = refl
take_while-Key (c ∷ cs) rest (h, hs) = rw (take_while-Key cs rest hs) (rw (h) refl)

letter-space : (c : ℕ) → is_letter c ≡ true → is_space c ≡ false
unfolding is_letter is_space
letter-space c h = ground arith

attr_start-Key : (key rest : Text) → Key key → attr_start (key ++ b':' ∷ rest) ≡ some (key, rest)
unfolding attr_start lstrip key_colon Key colon_behind colon_at with_key is_space
attr_start-Key [] rest h = absurd h
attr_start-Key (c ∷ cs) rest (l, h) = rw (letter-space c l, l, take_while-Key cs rest h.1) refl

take_while-Bare : (p : ℕ → Bool) (v : Text) → Bare v → Bare (take_while p v).1
unfolding take_while
take_while-Bare p [] h = tt
take_while-Bare p (c ∷ cs) (h, hs) = ground (arith, take_while-Bare p cs hs)

colon_behind-Bare : (v : Text) → Bare v → colon_behind v ≡ none
unfolding colon_behind colon_at lstrip
colon_behind-Bare [] h = refl
colon_behind-Bare (c ∷ cs) (h, hs) = ground (arith, bare_space c h)

key_colon-Bare : (v : Text) → Bare v → key_colon v ≡ none
unfolding key_colon with_key
key_colon-Bare [] h = refl
key_colon-Bare (c ∷ cs) h =
    rw
      (colon_behind-Bare (take_while is_key_char (c ∷ cs)).1
        (take_while-Bare is_key_char (c ∷ cs) h))
      (if_both (λ o. o ≡ none) (is_letter c) refl refl)

scan_at-bare :
    (header : Bool) (prev : Option ℕ) (c : ℕ) (cs : Text)
    → is_bare c ≡ true
    → scan_at header prev c cs ≡ takes (c ∷ []) c cs
unfolding scan_at is_bare
scan_at-bare header prev c cs h = ground arith

scan_value-takes :
    (fuel : ℕ) (header : Bool) (prev : Option ℕ) (c : ℕ) (cs held : Text) (last : ℕ) (rest : Text)
    → scan_at header prev c cs ≡ takes held last rest
    → scan_value (suc fuel) header prev (c ∷ cs)
      ≡ in_front held (scan_value fuel header (some last) rest)
unfolding scan_value scan_part
scan_value-takes fuel header prev c cs held last rest e = ap (scan_part (scan_value fuel header)) e

scan_value-nil :
    (fuel : ℕ) (header : Bool) (prev : Option ℕ) → scan_value fuel header prev [] ≡ ([], none)
unfolding scan_value
scan_value-nil zero header prev = refl
scan_value-nil (suc fuel) header prev = refl

scan_value-Bare :
    (fuel : ℕ) (header : Bool) (prev : Option ℕ) (v : Text)
    → Bare v
    → length v ≤ fuel
    → scan_value fuel header prev v ≡ (v, none)
scan_value-Bare fuel header prev [] h le = scan_value-nil fuel header prev
scan_value-Bare zero header prev (c ∷ cs) h le = absurd (omega arith)
scan_value-Bare (suc fuel) header prev (c ∷ cs) (h, hs) le =
    scan_value-takes fuel header prev c cs (c ∷ []) c cs (scan_at-bare header prev c cs h)
    ∙ ap (in_front (c ∷ [])) (scan_value-Bare fuel header (some c) cs hs (omega arith))

take_while-space : (v : Text) → Bare v → take_while is_space v ≡ ([], v)
unfolding take_while is_bare
take_while-space [] h = refl
take_while-space (c ∷ cs) (h, hs) = ground arith

scan_blank-Bare :
    (header : Bool) (v : Text) → Bare v → scan_at header none b' ' v ≡ takes (b' ' ∷ []) b' ' v
unfolding scan_at scan_blanks is_space
scan_blank-Bare header v h = rw (take_while-space v h, key_colon-Bare v h) refl

scan_quoted :
    (header : Bool) (v : Text)
    → Plain v
    → scan_at header (some b' ') quote (v ++ quote ∷ []) ≡ takes (quote ∷ v ++ quote ∷ []) quote []
unfolding scan_at quote_opens may_precede
scan_quoted header v h = rw (find_close_quote-Plain true v h, find_close_quote-Plain false v h) refl

scan_blank-quoted :
    (header : Bool) (v : Text)
    → scan_at header none b' ' (quote ∷ v) ≡ takes (b' ' ∷ []) b' ' (quote ∷ v)
unfolding scan_at scan_blanks is_space take_while key_colon is_letter
scan_blank-quoted header v = refl

scan_value-quotes :
    (fuel : ℕ) (v : Text)
    → Plain v
    → scan_value (suc (suc fuel)) false none (b' ' ∷ quote ∷ v ++ quote ∷ [])
      ≡ (b' ' ∷ quote ∷ v ++ quote ∷ [], none)
scan_value-quotes fuel v h =
    scan_value-takes (suc fuel) false none b' ' (quote ∷ v ++ quote ∷ []) (b' ' ∷ []) b' '
      (quote ∷ v ++ quote ∷ []) (scan_blank-quoted false (v ++ quote ∷ []))
    ∙ ap (in_front (b' ' ∷ [])) (
        scan_value-takes fuel false (some b' ') quote (v ++ quote ∷ []) (quote ∷ v ++ quote ∷ [])
          quote [] (scan_quoted false v h)
        ∙ ap (in_front (quote ∷ v ++ quote ∷ [])) (scan_value-nil fuel false (some quote))
        ∙ rw (append-nil (v ++ quote ∷ [])) refl)

scan_value-blank :
    (fuel : ℕ) (v : Text)
    → Bare v
    → length v ≤ fuel
    → scan_value (suc fuel) false none (b' ' ∷ v) ≡ (b' ' ∷ v, none)
scan_value-blank fuel v h le =
    scan_value-takes fuel false none b' ' v (b' ' ∷ []) b' ' v (scan_blank-Bare false v h)
    ∙ ap (in_front (b' ' ∷ [])) (scan_value-Bare fuel false (some b' ') v h le)

-- No blob starts in the value.
skip_blanks-Bare : (v : Text) → Bare v → skip_blanks v ≡ v
unfolding skip_blanks
skip_blanks-Bare [] h = refl
skip_blanks-Bare (c ∷ cs) (h, hs) = ground (arith, bare_blank c h)

-- A value on its own line.
statement_at-plain :
    (line : ℕ) (key : Text) (rest : Text → Text → Lexed (List Statement)) (cs : Text)
    → blob_span cs ≡ no_blob
    → scan_value (length cs) false none cs ≡ (cs, none)
    → statement_at false line key rest cs (blob_span cs)
      ≡ done (record { key = key; raw = cs; is_blob = false } ∷ [])
unfolding statement_at plain_statement go_on
statement_at-plain line key rest cs b v =
    ap (statement_at false line key rest cs) b ∙ ap (plain_statement key rest) v

statement_at-quoted :
    (line : ℕ) (key : Text) (rest : Text → Text → Lexed (List Statement)) (v : Text)
    → Plain v
    → drop_prefix blob_open v ≡ none
    → statement_at false line key rest (b' ' ∷ quoted v) (blob_span (b' ' ∷ quoted v))
      ≡ done (record { key = key; raw = b' ' ∷ quoted v; is_blob = false } ∷ [])
unfolding quoted blob_span skip_blanks
statement_at-quoted line key rest v h start = elim (Bool-cases (needs_quoting v)) [
  | inl needs ↦ rw (needs) (
      statement_at-plain line key rest (b' ' ∷ quote ∷ v ++ quote ∷ []) refl
        (scan_value-quotes (length (v ++ quote ∷ [])) v h))
  | inr bare ↦ rw (bare) (
      let b = Plain-Bare v bare h in
      statement_at-plain line key rest (b' ' ∷ v)
        (ap blob_after (ap (drop_prefix blob_open) (skip_blanks-Bare v b) ∙ start))
        (scan_value-blank (length v) v b (omega arith)))
]

split_statements-quoted :
    (line : ℕ) (key v : Text)
    → Key key
    → Plain v
    → drop_prefix blob_open v ≡ none
    → split_statements (key ++ b':' ∷ b' ' ∷ quoted v) false line
      ≡ done (record { key = key; raw = b' ' ∷ quoted v; is_blob = false } ∷ [])
unfolding split_statements start_statements statements
split_statements-quoted line key v k h start =
    let cs = key ++ b':' ∷ b' ' ∷ quoted v in
    ap (start_statements cs false line) (attr_start-Key key (b' ' ∷ quoted v) k)
    ∙ statement_at-quoted line key (statements (length cs) false line) v h start

tokenize_entry-quoted :
    (line : ℕ) (key v : Text)
    → Key key
    → Plain v
    → drop_prefix blob_open v ≡ none
    → tokenize_entry
        (record { line = line; text = key ++ b':' ∷ b' ' ∷ quoted v; is_header = false })
      ≡ done (token attr_name (canonical_key key) line ∷ token value v line ∷ [])
unfolding tokenize_entry emit
tokenize_entry-quoted line key v k h start =
    ap (λ r. and_then r (λ ss. done (emit line ss))) (split_statements-quoted line key v k h start)
    ∙ ap (λ w. done (token attr_name (canonical_key key) line ∷ token value w line ∷ []))
        (normalize_value-quoted v (canonical_key key) h)

format_value-quoted : (v written : Text) → format_value (text v) ≡ some written → quoted v ≡ written
unfolding format_value
format_value-quoted [] written h = absurd cc
format_value-quoted (c ∷ cs) written h = cc

-- The line that is written for an attribute with a text, taken through the removal of comments and
-- then read as a statement of its own behind the header, gives back the attribute, in its own case,
-- and the text. That is where the line holds no `/*`, and the text holds no quote, no backslash and
-- no white space but blanks and tabs, and does not start with `<auto_blobt>`.
pub tokenize_entry-format_value :
    (line : ℕ) (key v written : Text)
    → Key key
    → Plain v
    → drop_prefix blob_open v ≡ none
    → format_value (text v) ≡ some written
    → NoOpen (key ++ b':' ∷ b' ' ∷ written)
    → tokenize_entry (record {
      line = line;
      text = strip_comments (key ++ b':' ∷ b' ' ∷ written);
      is_header = false;
    })
      ≡ done (token attr_name (canonical_key key) line ∷ token value v line ∷ [])
tokenize_entry-format_value line key v written k h start w no_open =
    rw (strip_comments-kept (key ++ b':' ∷ b' ' ∷ written) no_open) (
      subst
        (λ t.
          tokenize_entry (record { line = line; text = key ++ b':' ∷ b' ' ∷ t; is_header = false })
          ≡ done (token attr_name (canonical_key key) line ∷ token value v line ∷ []))
        (format_value-quoted v written w) (tokenize_entry-quoted line key v k h start))
