-- ===== src/Jil/Comments/Steps.antt =====
-- The loop of `strip_comments` (autosys/parser/lexer.py) takes a step for each character at most.
use autosys_clone.Prelude.{
  ℕ, zero, suc, ◌+◌, ◌≡◌, refl, ap, ◌≤◌, Bool, true, false, not, ◌&&◌, Option, none, some, [], ◌∷◌,
  ◌++◌, Text, codes, length, ◌==◌, if_both, arith,
}
use autosys_clone.Jil.Quotes.{newline, backslash, quote, after}
use autosys_clone.Jil.Comments.{
  blob_open, blob_close, or_later, comment_at, comment_part, blob_at, blob_part, escaped,
  drop_prefix, find_text, behind_colon, starts_line, comment_end, blanks, Part, line_end, escape,
  quote_mark, blob, comment, unclosed, plain, part_at, back_over, strip_part, strip_from,
  strip_comments,
}

-- The text behind a match is `k` characters shorter than `n`, or more.
unfoldable pub Past : ℕ → ℕ → Option (Text × Text) → Type 0
Past k n none = Unit
Past k n (some (held, rest)) = length rest + k ≤ n

Past-after : (k c m n : ℕ) (o : Option (Text × Text)) → m ≤ n → Past k m o → Past k n (after c o)
unfolding Past
Past-after k c m n none le h = tt
Past-after k c m n (some (held, rest)) le h = omega arith

pub drop_prefix-shorter :
    (prefix cs rest : Text)
    → drop_prefix prefix cs ≡ some rest
    → length rest + length prefix ≤ length cs
unfolding drop_prefix
drop_prefix-shorter [] cs rest h = ground arith
drop_prefix-shorter (p ∷ ps) [] rest h = absurd cc
drop_prefix-shorter (p ∷ ps) (c ∷ cs) rest h = ground (arith, drop_prefix-shorter ps cs rest)

or_later-Past :
    (pattern : Text) (c : ℕ) (cs : Text) (o : Option Text) (later : Option (Text × Text))
    → drop_prefix pattern (c ∷ cs) ≡ o
    → Past (length pattern) (length cs) later
    → Past (length pattern) (suc (length cs)) (or_later c o later)
unfolding Past
or_later-Past pattern c cs none later e h =
    Past-after (length pattern) c (length cs) (suc (length cs)) later (omega arith) h
or_later-Past pattern c cs (some behind) later e h = drop_prefix-shorter pattern (c ∷ cs) behind e

pub find_text-Past : (pattern cs : Text) → Past (length pattern) (length cs) (find_text pattern cs)
unfolding find_text Past
find_text-Past pattern [] = tt
find_text-Past pattern (c ∷ cs) =
    or_later-Past pattern c cs (drop_prefix pattern (c ∷ cs)) (find_text pattern cs) refl
      (find_text-Past pattern cs)

comment_end-Past : (cs : Text) → Past 0 (length cs) (comment_end cs)
unfolding comment_end Past
comment_end-Past [] = tt
comment_end-Past (c ∷ []) = tt
comment_end-Past (c ∷ d ∷ cs) =
    if_both (Past 0 (suc (suc (length cs)))) (c == b'*' && d == b'/' && starts_line cs)
      (omega arith)
      (Past-after 0 c (suc (length cs)) (suc (suc (length cs))) (comment_end (d ∷ cs)) (omega arith)
        (comment_end-Past (d ∷ cs)))

-- A part leaves no more than `n` characters behind it.
Leaves : ℕ → Part → Type 0
Leaves n line_end = Unit
Leaves n (escape d ds) = length ds ≤ n
Leaves n (quote_mark opens) = Unit
Leaves n (blob held behind) = length behind ≤ n
Leaves n (comment held behind) = length behind ≤ n
Leaves n unclosed = Unit
Leaves n plain = Unit

Leaves-escaped : (cs : Text) → Leaves (length cs) (escaped cs plain)
unfolding Leaves
Leaves-escaped [] = tt
Leaves-escaped (d ∷ ds) = if_both (Leaves (suc (length ds))) (d == newline) tt (omega arith)

Leaves-comment_part : (n : ℕ) (o : Option (Text × Text)) → Past 0 n o → Leaves n (comment_part o)
unfolding Leaves Past
Leaves-comment_part n none h = tt
Leaves-comment_part n (some (held, rest)) h = omega arith

Leaves-comment_at :
    (no_close : Bool) (before : Text) (c : ℕ) (cs : Text) (o : Option Text)
    → drop_prefix (codes "/*") (c ∷ cs) ≡ o
    → Leaves (length cs) (comment_at no_close before o)
unfolding Leaves
Leaves-comment_at no_close before c cs none e = tt
Leaves-comment_at no_close before c cs (some behind) e =
    let shorter : length behind + 2 ≤ suc (length cs) =
      drop_prefix-shorter (codes "/*") (c ∷ cs) behind e in
    if_both (Leaves (length cs)) (not no_close && starts_line before)
      (Leaves-comment_part (length cs) (after b'/' (after b'*' (comment_end behind))) (
        Past-after 0 b'/' (length behind) (length cs) (after b'*' (comment_end behind))
          (omega arith)
          (Past-after 0 b'*' (length behind) (length behind) (comment_end behind) (omega arith)
            (comment_end-Past behind))))
      tt

Leaves-blob_part :
    (c : ℕ) (cs : Text) (o : Option (Text × Text))
    → Past (length blob_close) (suc (length cs)) o
    → Leaves (length cs) (blob_part (c ∷ cs) o)
unfolding Leaves Past
Leaves-blob_part c cs none h = omega arith
Leaves-blob_part c cs (some (held, rest)) h = omega arith

Leaves-blob_at :
    (before : Text) (c : ℕ) (cs : Text) (other : Part) (o : Option Text)
    → Leaves (length cs) other
    → Leaves (length cs) (blob_at before (c ∷ cs) other o)
unfolding Leaves
Leaves-blob_at before c cs other none h = h
Leaves-blob_at before c cs other (some behind) h =
    if_both (Leaves (length cs)) (behind_colon before)
      (Leaves-blob_part c cs (find_text blob_close (c ∷ cs)) (find_text-Past blob_close (c ∷ cs)))
      tt

part_at-Leaves :
    (in_quote no_close : Bool) (before : Text) (c : ℕ) (cs : Text)
    → Leaves (length cs) (part_at in_quote no_close before c cs)
unfolding part_at Leaves
part_at-Leaves in_quote no_close before c cs =
    let opening = drop_prefix (codes "/*") (c ∷ cs) in
    if_both (Leaves (length cs)) (c == newline) tt (
      if_both (Leaves (length cs)) (c == backslash) (Leaves-escaped cs) (
        if_both (Leaves (length cs)) (c == quote) tt (
          if_both (Leaves (length cs)) in_quote tt (
            Leaves-blob_at before c cs (comment_at no_close before opening)
              (drop_prefix blob_open (c ∷ cs))
              (Leaves-comment_at no_close before c cs opening refl)))))

-- Two ways to go on agree on each text of at most `n` characters.
Agree : ℕ → (Bool → Bool → Text → Text → Text) → (Bool → Bool → Text → Text → Text) → Type 0
Agree n r s = (q f : Bool) (b t : Text) → length t ≤ n → r q f b t ≡ s q f b t

strip_part-Agree :
    (r s : Bool → Bool → Text → Text → Text) (in_quote no_close : Bool) (before : Text) (c : ℕ)
    (cs : Text) (part : Part)
    → Agree (length cs) r s
    → Leaves (length cs) part
    → strip_part r in_quote no_close before c cs part
      ≡ strip_part s in_quote no_close before c cs part
unfolding strip_part Agree Leaves
strip_part-Agree r s in_quote no_close before c cs line_end ih h =
    ap (◌∷◌ c) (ih false no_close (c ∷ before) cs (omega arith))
strip_part-Agree r s in_quote no_close before c cs (escape d ds) ih h =
    ap (λ t. c ∷ d ∷ t) (ih in_quote no_close (d ∷ c ∷ before) ds h)
strip_part-Agree r s in_quote no_close before c cs (quote_mark opens) ih h =
    ap (◌∷◌ c) (ih opens no_close (c ∷ before) cs (omega arith))
strip_part-Agree r s in_quote no_close before c cs (blob held behind) ih h =
    ap (◌++◌ held) (ih in_quote no_close (back_over held before) behind h)
strip_part-Agree r s in_quote no_close before c cs (comment held behind) ih h =
    ap (◌++◌ (blanks held)) (ih in_quote no_close (back_over held before) behind h)
strip_part-Agree r s in_quote no_close before c cs unclosed ih h =
    ap (◌∷◌ c) (ih in_quote true (c ∷ before) cs (omega arith))
strip_part-Agree r s in_quote no_close before c cs plain ih h =
    ap (◌∷◌ c) (ih in_quote no_close (c ∷ before) cs (omega arith))

strip_from-Agree : (f g n : ℕ) → n ≤ f → n ≤ g → Agree n (strip_from f) (strip_from g)
unfolding strip_from Agree
strip_from-Agree zero zero n hf hg q m b cs h = refl
strip_from-Agree zero (suc g) n hf hg q m b [] h = refl
strip_from-Agree zero (suc g) n hf hg q m b (c ∷ cs) h = absurd (omega arith)
strip_from-Agree (suc f) zero n hf hg q m b [] h = refl
strip_from-Agree (suc f) zero n hf hg q m b (c ∷ cs) h = absurd (omega arith)
strip_from-Agree (suc f) (suc g) n hf hg q m b [] h = refl
strip_from-Agree (suc f) (suc g) n hf hg q m b (c ∷ cs) h =
    strip_part-Agree (strip_from f) (strip_from g) q m b c cs (part_at q m b c cs)
      (strip_from-Agree f g (length cs) (omega arith) (omega arith)) (part_at-Leaves q m b c cs)

-- The fuel of `strip_comments`, the length of the text, is enough: any greater fuel gives the same
-- text.
strip_comments-fuel :
    (fuel : ℕ) (cs : Text)
    → length cs ≤ fuel
    → strip_from fuel false false [] cs ≡ strip_comments cs
unfolding strip_comments Agree
strip_comments-fuel fuel cs h =
    strip_from-Agree fuel (length cs) (length cs) h (omega arith) false false [] cs (omega arith)
