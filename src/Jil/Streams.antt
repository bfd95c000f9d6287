-- ===== src/Jil/Streams.antt =====
-- What the strict lexer gives, for every text (`Lexer.tokenize` of autosys/parser/lexer.py).
pub mod Assembly
use autosys_clone.Prelude.{
  ℕ, zero, suc, ◌+◌, ◌≡◌, refl, sym, ap, ◌∙◌, ◌≤◌, ◌<◌, inl, inr, Bool, true, false, not, ◌&&◌,
  ◌||◌, Option, none, some, List, [], ◌∷◌, ◌++◌, Text, codes, lower, map, lstrip, strip, eq_text,
  mem_text, length, any, is_empty, ◌==◌, if◌then◌else◌, if_both, arith, All, is_some, subst,
}
use autosys_clone.Jil.{
  TokenKind, Token, directive, job_name, attr_name, value, raw, eof, Lexed, done, lex_error,
  exhausted, and_then, Total, Total-and_then, needs_name,
}
use autosys_clone.Jil.Quotes.{newline, quote, find_close_quote}
use autosys_clone.Jil.Comments.{strip_comments}
use autosys_clone.Jil.Comments.Blanks.{Blanked, strip_comments-Blanked}
use autosys_clone.Jil.Statements.{
  Statement, split_statements, attr_start, take_while, colon_behind, with_key,
}
use autosys_clone.Jil.Statements.Total.{split_statements-Total}
use autosys_clone.Jil.Lines.{
  directives, fold_case, lower_word, is_directive_char, known_sub_command, directive_match, Entry,
  Line, add_line, open_blob, open_value_quote, take_quote, take_blob, join_colon, joined_or,
  is_bare_key, starts_with_colon, logical_line, Shape, header, unknown, attribute, continued,
  shape_of, may_continue, is_skipped, with_entry, extend, assemble_line, assemble_at, assemble,
}
use autosys_clone.Jil.Lexer.{
  token, emit, object_name, found_name, plain_name, name_at, name_quote, find_char, bare_name,
  has_junk, check_header, header_statements, override_delete, delete_word, header_flag, behind_name,
  named_header, header_tokens, tokenize_header, tokenize_entry, tokenize_entries, normalize_text,
  split_lines, number, count_newlines, tokenize_lines, tokenize,
}

-- The lines 1 to `last`.
unfoldable pub Within : ℕ → ℕ → Type 0
Within last n = (1 ≤ n) × (n ≤ last)

-- A sub-command: `str.lower` of a word that is a known one but for the case, as IGNORECASE has it.
unfoldable pub IsSubCommand : Text → Type 0
IsSubCommand sub_command =
    (word : Text) × (sub_command ≡ lower_word word)
    × (mem_text (map fold_case word) directives ≡ true)

-- The two kinds of pair that a stream is made of.
unfoldable pub Pair : TokenKind → TokenKind → Text → Type 0
Pair directive job_name sub_command = IsSubCommand sub_command
Pair attr_name value attr = Unit
Pair _ _ text = ⊥

-- Pairs of tokens: a sub-command with a name, or an attribute with a value. Both tokens stand
-- on a line of the text.
unfoldable pub Paired : ℕ → List Token → Type 0
Paired last [] = Unit
Paired last (t ∷ []) = ⊥
Paired last (t ∷ u ∷ ts) =
    Pair t.kind u.kind t.text × (Within last t.line × Within last u.line) × Paired last ts

-- Pairs of tokens, and the end of the text on its last line.
unfoldable pub Stream : ℕ → List Token → Type 0
Stream last [] = ⊥
Stream last (t ∷ []) = (t.kind ≡ eof) × (t.line ≡ last)
Stream last (t ∷ u ∷ ts) =
    Pair t.kind u.kind t.text × (Within last t.line × Within last u.line) × Stream last ts

Paired-append :
    (last : ℕ) (ts us : List Token) → Paired last ts → Paired last us → Paired last (ts ++ us)
unfolding Paired
Paired-append last [] us h k = k
Paired-append last (t ∷ []) us h k = absurd h
Paired-append last (t ∷ u ∷ ts) us (p, w, h) k = (p, w, Paired-append last ts us h k)

pub Stream-append :
    (last : ℕ) (ts : List Token) (e : Token)
    → Paired last ts
    → (e.kind ≡ eof) × (e.line ≡ last)
    → Stream last (ts ++ e ∷ [])
unfolding Paired Stream
Stream-append last [] e h k = k
Stream-append last (t ∷ []) e h k = absurd h
Stream-append last (t ∷ u ∷ ts) e (p, w, h) k = (p, w, Stream-append last ts e h k)

emit-Paired : (last line : ℕ) (ss : List Statement) → Within last line → Paired last (emit line ss)
unfolding emit Paired Pair
emit-Paired last line [] w = tt
emit-Paired last line (s ∷ ss) w = (tt, (w, w), emit-Paired last line ss w)

check_header-Total :
    (line : ℕ) (ss : List Statement) → Total (λ checked. Unit) (check_header line ss)
unfolding check_header
check_header-Total line ss = if_both (Total (λ checked. Unit)) (any has_junk ss) tt tt

header_statements-Paired :
    (last line : ℕ) (cs : Text) → Within last line → Total (Paired last) (header_statements line cs)
unfolding header_statements Paired
header_statements-Paired last line [] w = tt
header_statements-Paired last line (c ∷ cs) w =
    if_both (Total (Paired last)) (is_some (attr_start (c ∷ cs)))
      (Total-and_then (λ ss. Unit) (Paired last) (split_statements (c ∷ cs) true line)
        (λ ss. and_then (check_header line ss) (λ checked. done (emit line checked)))
        (split_statements-Total (c ∷ cs) true line)
        (λ ss h.
          Total-and_then (λ ss'. Unit) (Paired last) (check_header line ss)
            (λ checked. done (emit line checked)) (check_header-Total line ss)
            (λ checked k. emit-Paired last line checked w)))
      tt

override_delete-Paired :
    (last line : ℕ) (o : Option Text) (rest : Text)
    → Within last line
    → Paired last (override_delete line o rest).0
unfolding Paired Pair
override_delete-Paired last line none rest w = tt
override_delete-Paired last line (some behind) rest w = (tt, (w, w), tt)

header_flag-Paired :
    (last : ℕ) (sub_command : Text) (line : ℕ) (rest : Text)
    → Within last line
    → Paired last (header_flag sub_command line rest).0
unfolding header_flag Paired
header_flag-Paired last sub_command line rest w =
    if_both (λ (p : List Token × Text). Paired last p.0)
      (eq_text sub_command (codes "override_job"))
      (override_delete-Paired last line (delete_word (codes "delete") rest) rest w) tt

behind_name-Paired :
    (last line : ℕ) (start : List Token × Text)
    → Within last line
    → Paired last start.0
    → Total (Paired last) (behind_name line start)
unfolding behind_name
behind_name-Paired last line (flag, left) w h =
    Total-and_then (Paired last) (Paired last) (header_statements line left)
      (λ ts. done (flag ++ ts)) (header_statements-Paired last line left w)
      (λ ts k. Paired-append last flag ts h k)

found_name-Total : (line : ℕ) (o : Option (Text × Text)) → Total (λ p. Unit) (found_name line o)
found_name-Total line none = tt
found_name-Total line (some found) = tt

plain_name-Total : (line : ℕ) (p : Text × Text) → Total (λ p'. Unit) (plain_name line p)
plain_name-Total line ([], rest) = tt
plain_name-Total line (c ∷ cs, rest) = tt

name_at-Total : (line c : ℕ) (cs : Text) (o : Option ℕ) → Total (λ p. Unit) (name_at line c cs o)
unfolding name_at
name_at-Total line c cs none = plain_name-Total line (bare_name false (c ∷ cs))
name_at-Total line c cs (some closer) =
    found_name-Total line
      (if closer == quote then find_close_quote false false cs else find_char closer cs)

object_name-Total : (line : ℕ) (cs : Text) → Total (λ p. Unit) (object_name line cs)
unfolding object_name
object_name-Total line [] = tt
object_name-Total line (c ∷ cs) = name_at-Total line c cs (name_quote c)

named_header-Paired :
    (last : ℕ) (sub_command : Text) (line : ℕ) (found : Text × Text)
    → IsSubCommand sub_command
    → Within last line
    → Total (Paired last) (named_header sub_command line found)
unfolding named_header Paired Pair
named_header-Paired last sub_command line (name, behind) known w =
    Total-and_then (Paired last) (Paired last)
      (behind_name line (header_flag sub_command line (strip behind)))
      (λ ts.
        done (token TokenKind.directive sub_command line ∷ token TokenKind.job_name name line ∷ ts))
      (behind_name-Paired last line (header_flag sub_command line (strip behind)) w
        (header_flag-Paired last sub_command line (strip behind) w))
      (λ ts k. (known, (w, w), k))

-- A match names a known sub-command.
KnownMatch : Option (Text × Text) → Type 0
KnownMatch none = Unit
KnownMatch (some (sub_command, rest)) = IsSubCommand sub_command

with_key-KnownMatch :
    (word : Text) (o : Option Text) → IsSubCommand word → KnownMatch (with_key word o)
unfolding with_key KnownMatch
with_key-KnownMatch word none known = tt
with_key-KnownMatch word (some rest) known = known

if-KnownMatch :
    (word : Text) (o : Option Text) (b : Bool)
    → mem_text (map fold_case word) directives ≡ b
    → KnownMatch (if b then with_key (lower_word word) o else none)
unfolding KnownMatch IsSubCommand
if-KnownMatch word o true known = with_key-KnownMatch (lower_word word) o (word, refl, known)
if-KnownMatch word o false known = tt

known_sub_command-KnownMatch : (p : Text × Text) → KnownMatch (known_sub_command p)
unfolding known_sub_command
known_sub_command-KnownMatch (word, rest) =
    if-KnownMatch word (colon_behind rest) (mem_text (map fold_case word) directives) refl

directive_match-KnownMatch : (cs : Text) → KnownMatch (directive_match cs)
unfolding directive_match
directive_match-KnownMatch cs =
    known_sub_command-KnownMatch (take_while is_directive_char (lstrip cs))

header_tokens-Paired :
    (last line : ℕ) (o : Option (Text × Text))
    → KnownMatch o
    → Within last line
    → Total (Paired last) (header_tokens line o)
unfolding header_tokens KnownMatch
header_tokens-Paired last line none known w = tt
header_tokens-Paired last line (some (sub_command, rest)) known w =
    Total-and_then (λ p. Unit) (Paired last) (object_name line (strip rest))
      (named_header sub_command line) (object_name-Total line (strip rest))
      (λ found u. named_header-Paired last sub_command line found known w)

-- An entry stands on a line of the text.
abbrev pub OnLine : ℕ → Entry → Type 0
OnLine last e = Within last e.line

tokenize_entry-Paired :
    (last : ℕ) (e : Entry) → OnLine last e → Total (Paired last) (tokenize_entry e)
unfolding tokenize_entry tokenize_header
tokenize_entry-Paired last e w =
    if_both (Total (Paired last)) e.is_header
      (header_tokens-Paired last e.line (directive_match e.text) (directive_match-KnownMatch e.text)
        w)
      (Total-and_then (λ ss. Unit) (Paired last) (split_statements e.text false e.line)
        (λ ss. done (emit e.line ss)) (split_statements-Total e.text false e.line)
        (λ ss u. emit-Paired last e.line ss w))

pub tokenize_entries-Paired :
    (last : ℕ) (es : List Entry) → All (OnLine last) es → Total (Paired last) (tokenize_entries es)
unfolding tokenize_entries Paired
tokenize_entries-Paired last [] ws = tt
tokenize_entries-Paired last (e ∷ es) (w, ws) =
    Total-and_then (Paired last) (Paired last) (tokenize_entry e)
      (λ ts. and_then (tokenize_entries es) (λ more. done (ts ++ more)))
      (tokenize_entry-Paired last e w)
      (λ ts h.
        Total-and_then (Paired last) (Paired last) (tokenize_entries es) (λ more. done (ts ++ more))
          (tokenize_entries-Paired last es ws) (λ more k. Paired-append last ts more h k))
