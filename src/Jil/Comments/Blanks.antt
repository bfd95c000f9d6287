-- ===== src/Jil/Comments/Blanks.antt =====
-- Characters become blanks at most, and lines keep their ends (`strip_comments` of
-- autosys/parser/lexer.py).
use autosys_clone.Prelude.{
  ℕ, zero, suc, ◌≡◌, ◌≢◌, refl, sym, ap, ◌∙◌, ◌⊎◌, inl, Bool, true, false, not, ◌&&◌, Option, none,
  some, [], ◌∷◌, ◌++◌, Text, codes, length, append_assoc, append-nil, ◌==◌, if_both, arith, subst,
}
use autosys_clone.Jil.Quotes.{newline, backslash, quote, after}
use autosys_clone.Jil.Comments.{
  blob_open, blob_close, or_later, comment_at, comment_part, blob_at, blob_part, escaped,
  drop_prefix, find_text, behind_colon, starts_line, comment_end, blanks, Part, line_end, escape,
  quote_mark, blob, comment, unclosed, plain, part_at, back_over, strip_part, strip_from,
  strip_comments,
}

-- The second text is the first, with some characters that end no line replaced by blanks.
unfoldable pub Blanked : Text → Text → Type 0
Blanked [] [] = Unit
Blanked [] (d ∷ ds) = ⊥
Blanked (c ∷ cs) [] = ⊥
Blanked (c ∷ cs) (d ∷ ds) = ((d ≡ c) ⊎ ((d ≡ b' ') × (c ≢ newline))) × Blanked cs ds

Blanked-refl : (cs : Text) → Blanked cs cs
unfolding Blanked
Blanked-refl [] = tt
Blanked-refl (c ∷ cs) = (inl refl, Blanked-refl cs)

Blanked-blanks : (cs : Text) → Blanked cs (blanks cs)
unfolding Blanked
Blanked-blanks [] = tt
Blanked-blanks (c ∷ cs) = (ground arith, Blanked-blanks cs)

Blanked-append :
    (xs bs cs ds : Text) → Blanked xs bs → Blanked cs ds → Blanked (xs ++ cs) (bs ++ ds)
unfolding Blanked
Blanked-append [] [] cs ds h k = k
Blanked-append [] (b ∷ bs) cs ds h k = absurd h
Blanked-append (a ∷ xs) [] cs ds h k = absurd h
Blanked-append (a ∷ xs) (b ∷ bs) cs ds (h, hs) k = (h, Blanked-append xs bs cs ds hs k)

drop_prefix-some : (prefix cs rest : Text) → drop_prefix prefix cs ≡ some rest → cs ≡ prefix ++ rest
unfolding drop_prefix
drop_prefix-some [] cs rest h = ground arith
drop_prefix-some (p ∷ ps) [] rest h = absurd cc
drop_prefix-some (p ∷ ps) (c ∷ cs) rest h = ground (arith, drop_prefix-some ps cs rest)

-- A place inside a text, with a separator between the two sides.
Splits : Text → Text → Option (Text × Text) → Type 0
Splits cs sep none = Unit
Splits cs sep (some (held, rest)) = cs ≡ held ++ (sep ++ rest)

Splits-after :
    (c : ℕ) (cs sep : Text) (o : Option (Text × Text))
    → Splits cs sep o
    → Splits (c ∷ cs) sep (after c o)
unfolding Splits
Splits-after c cs sep none h = tt
Splits-after c cs sep (some (held, rest)) h = ap (◌∷◌ c) h

or_later-Splits :
    (pattern : Text) (c : ℕ) (cs : Text) (o : Option Text) (later : Option (Text × Text))
    → drop_prefix pattern (c ∷ cs) ≡ o
    → Splits cs pattern later
    → Splits (c ∷ cs) pattern (or_later c o later)
unfolding Splits
or_later-Splits pattern c cs none later e h = Splits-after c cs pattern later h
or_later-Splits pattern c cs (some behind) later e h = drop_prefix-some pattern (c ∷ cs) behind e

find_text-Splits : (pattern cs : Text) → Splits cs pattern (find_text pattern cs)
unfolding find_text Splits
find_text-Splits pattern [] = tt
find_text-Splits pattern (c ∷ cs) =
    or_later-Splits pattern c cs (drop_prefix pattern (c ∷ cs)) (find_text pattern cs) refl
      (find_text-Splits pattern cs)

comment_end-Splits : (cs : Text) → Splits cs [] (comment_end cs)
unfolding comment_end Splits
comment_end-Splits [] = tt
comment_end-Splits (c ∷ []) = tt
comment_end-Splits (c ∷ d ∷ cs) =
    if_both (Splits (c ∷ d ∷ cs) []) (c == b'*' && d == b'/' && starts_line cs) refl
      (Splits-after c (d ∷ cs) [] (comment_end (d ∷ cs)) (comment_end-Splits (d ∷ cs)))

-- What a part says of the text at its position.
unfoldable pub Reads : ℕ → Text → Part → Type 0
Reads c cs line_end = Unit
Reads c cs (escape d ds) = cs ≡ d ∷ ds
Reads c cs (quote_mark opens) = Unit
Reads c cs (blob held behind) = c ∷ cs ≡ held ++ behind
Reads c cs (comment held behind) = c ∷ cs ≡ held ++ behind
Reads c cs unclosed = Unit
Reads c cs plain = Unit

Reads-escaped : (c : ℕ) (cs : Text) → Reads c cs (escaped cs plain)
unfolding Reads
Reads-escaped c [] = tt
Reads-escaped c (d ∷ ds) = if_both (Reads c (d ∷ ds)) (d == newline) tt refl

Reads-comment_part :
    (c : ℕ) (cs : Text) (o : Option (Text × Text))
    → Splits (c ∷ cs) [] o
    → Reads c cs (comment_part o)
unfolding Reads Splits
Reads-comment_part c cs none h = tt
Reads-comment_part c cs (some (held, rest)) h = h

Reads-comment_at :
    (no_close : Bool) (before : Text) (c : ℕ) (cs : Text) (o : Option Text)
    → drop_prefix (codes "/*") (c ∷ cs) ≡ o
    → Reads c cs (comment_at no_close before o)
unfolding Reads
Reads-comment_at no_close before c cs none e = tt
Reads-comment_at no_close before c cs (some behind) e =
    if_both (Reads c cs) (not no_close && starts_line before)
      (Reads-comment_part c cs (after b'/' (after b'*' (comment_end behind))) (
        subst (λ t. Splits t [] (after b'/' (after b'*' (comment_end behind))))
          (sym (drop_prefix-some (codes "/*") (c ∷ cs) behind e))
          (Splits-after b'/' (b'*' ∷ behind) [] (after b'*' (comment_end behind))
            (Splits-after b'*' behind [] (comment_end behind) (comment_end-Splits behind)))))
      tt

Reads-blob_part :
    (c : ℕ) (cs : Text) (o : Option (Text × Text))
    → Splits (c ∷ cs) blob_close o
    → Reads c cs (blob_part (c ∷ cs) o)
unfolding Reads Splits
Reads-blob_part c cs none h = sym (append-nil (c ∷ cs))
Reads-blob_part c cs (some (held, rest)) h = h ∙ sym (append_assoc held blob_close rest)

Reads-blob_at :
    (before : Text) (c : ℕ) (cs : Text) (other : Part) (o : Option Text)
    → Reads c cs other
    → Reads c cs (blob_at before (c ∷ cs) other o)
unfolding Reads
Reads-blob_at before c cs other none h = h
Reads-blob_at before c cs other (some behind) h =
    if_both (Reads c cs) (behind_colon before)
      (Reads-blob_part c cs (find_text blob_close (c ∷ cs)) (find_text-Splits blob_close (c ∷ cs)))
      tt

pub part_at-Reads :
    (in_quote no_close : Bool) (before : Text) (c : ℕ) (cs : Text)
    → Reads c cs (part_at in_quote no_close before c cs)
unfolding part_at Reads
part_at-Reads in_quote no_close before c cs = if_both (Reads c cs) (c == newline) tt (
    if_both (Reads c cs) (c == backslash) (Reads-escaped c cs) (
      if_both (Reads c cs) (c == quote) tt (
        if_both (Reads c cs) in_quote tt (
          Reads-blob_at before c cs (comment_at no_close before (drop_prefix (codes "/*") (c ∷ cs)))
            (drop_prefix blob_open (c ∷ cs))
            (Reads-comment_at no_close before c cs (drop_prefix (codes "/*") (c ∷ cs)) refl)))))

-- Each part takes some text.
strip_part-Blanked :
    (rest : Bool → Bool → Text → Text → Text) (in_quote no_close : Bool) (before : Text) (c : ℕ)
    (cs : Text) (part : Part)
    → ((q n : Bool) (b t : Text) → Blanked t (rest q n b t))
    → Reads c cs part
    → Blanked (c ∷ cs) (strip_part rest in_quote no_close before c cs part)
unfolding strip_part Blanked Reads
strip_part-Blanked rest in_quote no_close before c cs line_end ih r =
    (inl refl, ih false no_close (c ∷ before) cs)
strip_part-Blanked rest in_quote no_close before c cs (escape d ds) ih r =
    subst (λ t. Blanked (c ∷ t) (c ∷ d ∷ rest in_quote no_close (d ∷ c ∷ before) ds)) (sym r)
      (inl refl, (inl refl, ih in_quote no_close (d ∷ c ∷ before) ds))
strip_part-Blanked rest in_quote no_close before c cs (quote_mark opens) ih r =
    (inl refl, ih opens no_close (c ∷ before) cs)
strip_part-Blanked rest in_quote no_close before c cs (blob held behind) ih r =
    subst (λ t. Blanked t (held ++ rest in_quote no_close (back_over held before) behind)) (sym r)
      (Blanked-append held held behind (rest in_quote no_close (back_over held before) behind)
        (Blanked-refl held) (ih in_quote no_close (back_over held before) behind))
strip_part-Blanked rest in_quote no_close before c cs (comment held behind) ih r =
    subst (λ t. Blanked t (blanks held ++ rest in_quote no_close (back_over held before) behind))
      (sym r)
      (Blanked-append held (blanks held) behind
        (rest in_quote no_close (back_over held before) behind) (Blanked-blanks held)
        (ih in_quote no_close (back_over held before) behind))
strip_part-Blanked rest in_quote no_close before c cs unclosed ih r =
    (inl refl, ih in_quote true (c ∷ before) cs)
strip_part-Blanked rest in_quote no_close before c cs plain ih r =
    (inl refl, ih in_quote no_close (c ∷ before) cs)

strip_from-Blanked :
    (fuel : ℕ) (in_quote no_close : Bool) (before cs : Text)
    → Blanked cs (strip_from fuel in_quote no_close before cs)
unfolding strip_from Blanked
strip_from-Blanked zero in_quote no_close before cs = Blanked-refl cs
strip_from-Blanked (suc fuel) in_quote no_close before [] = tt
strip_from-Blanked (suc fuel) in_quote no_close before (c ∷ cs) =
    strip_part-Blanked (strip_from fuel) in_quote no_close before c cs
      (part_at in_quote no_close before c cs) (strip_from-Blanked fuel)
      (part_at-Reads in_quote no_close before c cs)

-- A text keeps its length, and each character stays as it is or, where it ends no line, becomes a
-- blank.
pub strip_comments-Blanked : (cs : Text) → Blanked cs (strip_comments cs)
unfolding strip_comments
strip_comments-Blanked cs = strip_from-Blanked (length cs) false false [] cs
