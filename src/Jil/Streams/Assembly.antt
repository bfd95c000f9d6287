-- ===== src/Jil/Streams/Assembly.antt =====
-- The statements and tokens of a text stand on its lines, and the lexer ends (`Lexer._assemble` and
-- `Lexer.tokenize` of autosys/parser/lexer.py, strict mode).
use autosys_clone.Prelude.{
  ℕ, zero, suc, ◌+◌, ◌≡◌, ◌≢◌, refl, ap, ◌≤◌, Bool, true, false, Option, none, some, List, [], ◌∷◌,
  ◌++◌, Text, strip, length, is_empty, if_both, arith, All,
}
use autosys_clone.Jil.{eof, Lexed, done, and_then, Total, Total-and_then}
use autosys_clone.Jil.Comments.{strip_comments}
use autosys_clone.Jil.Comments.Blanks.{Blanked, strip_comments-Blanked}
use autosys_clone.Jil.Lines.{
  Entry, Line, add_line, open_blob, open_value_quote, take_quote, take_blob, join_colon, joined_or,
  is_bare_key, starts_with_colon, logical_line, Shape, header, unknown, attribute, continued,
  shape_of, may_continue, is_skipped, with_entry, extend, assemble_line, assemble_at, assemble,
}
use autosys_clone.Jil.Lexer.{
  token, tokenize_entries, normalize_text, split_lines, add_char, number, count_newlines,
  tokenize_lines, tokenize,
}
use autosys_clone.Jil.Streams.{
  Within, Paired, Stream, Stream-append, OnLine, tokenize_entries-Paired,
}

-- Every line of a list stands in the text.
Numbered : ℕ → Line → Type 0
Numbered last l = Within last l.0

-- What the loops that take raw lines leave.
Taken : ℕ → ℕ → Entry × List Line → Type 0
Taken last n (e, ls) = OnLine last e × All (Numbered last) ls × (length ls ≤ n)

take_quote-Taken :
    (last n : ℕ) (e : Entry) (ls : List Line)
    → OnLine last e
    → All (Numbered last) ls
    → length ls ≤ n
    → Total (Taken last n) (take_quote e ls)
unfolding take_quote Taken
take_quote-Taken last n e [] w ws le =
    if_both (Total (Taken last n)) (open_value_quote e.text) tt (w, ws, le)
take_quote-Taken last n e ((k, t) ∷ ls) w (v, vs) le =
    if_both (Total (Taken last n)) (open_value_quote e.text)
      (take_quote-Taken last n (add_line e t) ls w vs (omega arith)) (w, (v, vs), le)

take_blob-Taken :
    (last n : ℕ) (e : Entry) (ls : List Line)
    → OnLine last e
    → All (Numbered last) ls
    → length ls ≤ n
    → Total (Taken last n) (take_blob e ls)
unfolding take_blob
take_blob-Taken last n e [] w ws le =
    if_both (Total (Taken last n)) (open_blob e.text) tt (take_quote-Taken last n e [] w ws le)
take_blob-Taken last n e ((k, t) ∷ ls) w (v, vs) le =
    if_both (Total (Taken last n)) (open_blob e.text)
      (take_blob-Taken last n (add_line e t) ls w vs (omega arith))
      (take_quote-Taken last n e ((k, t) ∷ ls) w (v, vs) le)

-- What a keyword with its colon on the next line leaves.
Joined : ℕ → ℕ → Text × List Line → Type 0
Joined last n (s, ls) = All (Numbered last) ls × (length ls ≤ n)

MayJoin : ℕ → ℕ → Option (Text × List Line) → Type 0
MayJoin last n none = Unit
MayJoin last n (some p) = Joined last n p

join_colon-MayJoin :
    (last n : ℕ) (s : Text) (ls : List Line)
    → All (Numbered last) ls
    → length ls ≤ n
    → MayJoin last n (join_colon s ls)
unfolding join_colon MayJoin Joined
join_colon-MayJoin last n s [] ws le = tt
join_colon-MayJoin last n s ((k, t) ∷ ls) (w, ws) le =
    if_both (MayJoin last n) (is_empty (strip t)) (join_colon-MayJoin last n s ls ws (omega arith))
      (if_both (MayJoin last n) (starts_with_colon (strip t)) (ws, omega arith) tt)

joined_or-Joined :
    (last n : ℕ) (s : Text) (ls : List Line) (o : Option (Text × List Line))
    → All (Numbered last) ls
    → length ls ≤ n
    → MayJoin last n o
    → Joined last n (joined_or s ls o)
unfolding Joined MayJoin
joined_or-Joined last n s ls none ws le h = (ws, le)
joined_or-Joined last n s ls (some p) ws le h = h

logical_line-Joined :
    (last n : ℕ) (s : Text) (ls : List Line)
    → All (Numbered last) ls
    → length ls ≤ n
    → Joined last n (logical_line s ls)
unfolding logical_line Joined
logical_line-Joined last n s ls ws le =
    if_both (Joined last n) (is_bare_key s)
      (joined_or-Joined last n s ls (join_colon s ls) ws le (join_colon-MayJoin last n s ls ws le))
      (ws, le)

-- The last entry, if any, stands in the text.
LastOn : ℕ → Option Entry → Type 0
LastOn last none = Unit
LastOn last (some e) = OnLine last e

with_entry-OnLine :
    (last : ℕ) (prev : Option Entry) (r : Lexed (List Entry))
    → LastOn last prev
    → Total (All (OnLine last)) r
    → Total (All (OnLine last)) (with_entry prev r)
unfolding LastOn
with_entry-OnLine last none r w h = h
with_entry-OnLine last (some e) r w h =
    Total-and_then (All (OnLine last)) (All (OnLine last)) r (λ es. done (e ∷ es)) h
      (λ es ws. (w, ws))

-- The entries of no more than `n` lines are found.
Goes : ℕ → ℕ → (Option Entry → List Line → Lexed (List Entry)) → Type 0
Goes last n rest =
    (prev : Option Entry) (ls : List Line)
    → LastOn last prev
    → All (Numbered last) ls
    → length ls ≤ n
    → Total (All (OnLine last)) (rest prev ls)

extend-OnLine :
    (last n : ℕ) (s : Text) (prev : Option Entry)
    → LastOn last prev
    → Total (OnLine last) (extend n s prev)
unfolding extend LastOn
extend-OnLine last n s none w = tt
extend-OnLine last n s (some e) w = if_both (Total (OnLine last)) (may_continue e) w tt

assemble_line-OnLine :
    (last m : ℕ) (rest : Option Entry → List Line → Lexed (List Entry)) (n : ℕ)
    (prev : Option Entry) (p : Text × List Line) (shape : Shape)
    → Goes last m rest
    → LastOn last prev
    → Within last n
    → Joined last m p
    → Total (All (OnLine last)) (assemble_line rest n prev p shape)
unfolding assemble_line Joined Goes LastOn Taken
assemble_line-OnLine last m rest n prev (s, ls) header go w v (ws, le) =
    let e : Entry = record { line = n; text = s; is_header = true } in
    with_entry-OnLine last prev (rest (some e) ls) w (go (some e) ls v ws le)
assemble_line-OnLine last m rest n prev (s, ls) unknown go w v (ws, le) = tt
assemble_line-OnLine last m rest n prev (s, ls) attribute go w v (ws, le) =
    let e : Entry = record { line = n; text = s; is_header = false } in
    Total-and_then (Taken last m) (All (OnLine last)) (take_blob e ls)
      (λ (e', left). with_entry prev (rest (some e') left)) (take_blob-Taken last m e ls v ws le)
      (λ (e', left) (on, vs, le').
        with_entry-OnLine last prev (rest (some e') left) w (go (some e') left on vs le'))
assemble_line-OnLine last m rest n prev (s, ls) continued go w v (ws, le) =
    Total-and_then (OnLine last) (All (OnLine last)) (extend n s prev)
      (λ e. and_then (take_blob e ls) (λ (e', left). rest (some e') left))
      (extend-OnLine last n s prev w)
      (λ e on.
        Total-and_then (Taken last m) (All (OnLine last)) (take_blob e ls)
          (λ (e', left). rest (some e') left) (take_blob-Taken last m e ls on ws le)
          (λ (e', left) (on', vs, le'). go (some e') left on' vs le'))

assemble_at-OnLine :
    (last m : ℕ) (rest : Option Entry → List Line → Lexed (List Entry)) (n : ℕ)
    (prev : Option Entry) (s : Text) (ls : List Line) (skipped : Bool)
    → Goes last m rest
    → LastOn last prev
    → Within last n
    → All (Numbered last) ls
    → length ls ≤ m
    → Total (All (OnLine last)) (assemble_at rest n prev s ls skipped)
unfolding assemble_at Goes
assemble_at-OnLine last m rest n prev s ls true go w v ws le = go prev ls w ws le
assemble_at-OnLine last m rest n prev s ls false go w v ws le =
    assemble_line-OnLine last m rest n prev (logical_line s ls) (shape_of (logical_line s ls).0) go
      w v (logical_line-Joined last m s ls ws le)

assemble-OnLine :
    (last fuel : ℕ) (prev : Option Entry) (ls : List Line)
    → LastOn last prev
    → All (Numbered last) ls
    → length ls ≤ fuel
    → Total (All (OnLine last)) (assemble (suc fuel) prev ls)
unfolding assemble Goes Numbered
assemble-OnLine last fuel prev [] w ws le = with_entry-OnLine last prev (done []) w tt
assemble-OnLine last zero prev ((n, t) ∷ ls) w ws le = absurd (omega arith)
assemble-OnLine last (suc fuel) prev ((n, t) ∷ ls) w (v, ws) le =
    assemble_at-OnLine last fuel (assemble (suc fuel)) n prev (strip t) ls (is_skipped (strip t))
      (assemble-OnLine last fuel) w v ws (omega arith)

number-Numbered :
    (last n : ℕ) (ls : List Text)
    → 1 ≤ n
    → n + length ls ≤ suc last
    → All (Numbered last) (number n ls)
unfolding number Numbered Within
number-Numbered last n [] h k = tt
number-Numbered last n (l ∷ ls) h k =
    ((h, omega arith), number-Numbered last (suc n) ls (omega arith) (omega arith))

length-number : (n : ℕ) (ls : List Text) → length (number n ls) ≡ length ls
unfolding number
length-number n [] = refl
length-number n (l ∷ ls) = ap suc (length-number (suc n) ls)

length-add_char : (c : ℕ) (ls : List Text) → length ls ≢ 0 → length (add_char c ls) ≡ length ls
length-add_char c [] h = absurd (h refl)
length-add_char c (l ∷ ls) h = refl

length-split_lines : (cs : Text) → length (split_lines cs) ≡ suc (count_newlines cs)
unfolding split_lines count_newlines
length-split_lines [] = refl
length-split_lines (c ∷ cs) =
    ground (arith, length-split_lines cs, length-add_char c (split_lines cs))

Blanked-newlines : (cs ds : Text) → Blanked cs ds → count_newlines ds ≡ count_newlines cs
unfolding Blanked count_newlines
Blanked-newlines [] [] h = refl
Blanked-newlines [] (d ∷ ds) h = absurd h
Blanked-newlines (c ∷ cs) [] h = absurd h
Blanked-newlines (c ∷ cs) (d ∷ ds) (h, hs) = ground (arith, Blanked-newlines cs ds hs)

tokenize_lines-Stream :
    (last : ℕ) (ls : List Line)
    → All (Numbered last) ls
    → Total (Stream last) (tokenize_lines last ls)
unfolding tokenize_lines LastOn
tokenize_lines-Stream last ls ws =
    Total-and_then (All (OnLine last)) (Stream last) (assemble (suc (length ls)) none ls)
      (λ es. and_then (tokenize_entries es) (λ ts. done (ts ++ token eof [] last ∷ [])))
      (assemble-OnLine last (length ls) none ls tt ws (omega arith))
      (λ es on.
        Total-and_then (Paired last) (Stream last) (tokenize_entries es)
          (λ ts. done (ts ++ token eof [] last ∷ [])) (tokenize_entries-Paired last es on)
          (λ ts h. Stream-append last ts (token eof [] last) h (refl, refl)))

-- The strict lexer ends on every text, with a LexError or with a stream: pairs of a sub-command and
-- a name or of an attribute and a value, each on a line of the text, then the end of the text on its
-- last line. A sub-command is `str.lower` of a word that is a known one if the case of letters is
-- ignored the way a regular expression does it, so the word may hold a dotless i or a long s.
pub tokenize-Stream :
    (cs : Text) → Total (Stream (suc (count_newlines (normalize_text cs)))) (tokenize cs)
unfolding tokenize
tokenize-Stream cs =
    let t = normalize_text cs in
    tokenize_lines-Stream (suc (count_newlines t)) (number 1 (split_lines (strip_comments t))) (
      number-Numbered (suc (count_newlines t)) 1 (split_lines (strip_comments t)) (omega arith) (
        omega (
          arith,
          length-split_lines (strip_comments t),
          Blanked-newlines t (strip_comments t) (strip_comments-Blanked t),
        )))
