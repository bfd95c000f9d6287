-- ===== src/Jil/Comments/Kept.antt =====
-- A text that opens no comment (`strip_comments` of autosys/parser/lexer.py).
use autosys_clone.Prelude.{
  ℕ, zero, suc, ◌≡◌, refl, sym, ap, ◌∙◌, Bool, true, false, Option, none, some, [], ◌∷◌, ◌++◌, Text,
  codes, length, is_space, arith, ◌==◌, if_both, subst,
}
use autosys_clone.Jil.Quotes.{newline, backslash, quote}
use autosys_clone.Jil.Comments.{
  blob_open, blob_close, comment_at, blob_at, blob_part, escaped, drop_prefix, find_text,
  behind_colon, Part, line_end, escape, quote_mark, blob, comment, unclosed, plain, part_at,
  back_over, strip_part, strip_from, strip_comments, comment_end, blanks,
}
use autosys_clone.Jil.Comments.Blanks.{Reads, part_at-Reads}

-- No `/*` stands in the text.
unfoldable pub NoOpen : Text → Type 0
NoOpen [] = Unit
NoOpen (c ∷ cs) = (drop_prefix (codes "/*") (c ∷ cs) ≡ none) × NoOpen cs

NoOpen-behind : (xs ys : Text) → NoOpen (xs ++ ys) → NoOpen ys
unfolding NoOpen
NoOpen-behind [] ys h = h
NoOpen-behind (x ∷ xs) ys (h, hs) = NoOpen-behind xs ys hs

-- A part other than a comment.
NotComment : Part → Type 0
NotComment (comment held behind) = ⊥
NotComment _ = Unit

NotComment-escaped : (cs : Text) → NotComment (escaped cs plain)
unfolding NotComment
NotComment-escaped [] = tt
NotComment-escaped (d ∷ ds) = if_both NotComment (d == newline) tt tt

NotComment-blob_part : (cs : Text) (o : Option (Text × Text)) → NotComment (blob_part cs o)
unfolding NotComment
NotComment-blob_part cs none = tt
NotComment-blob_part cs (some (held, behind)) = tt

NotComment-blob_at :
    (before cs : Text) (other : Part) (o : Option Text)
    → NotComment other
    → NotComment (blob_at before cs other o)
unfolding NotComment
NotComment-blob_at before cs other none h = h
NotComment-blob_at before cs other (some behind) h =
    if_both NotComment (behind_colon before) (NotComment-blob_part cs (find_text blob_close cs)) tt

part_at-NotComment :
    (in_quote no_close : Bool) (before : Text) (c : ℕ) (cs : Text)
    → drop_prefix (codes "/*") (c ∷ cs) ≡ none
    → NotComment (part_at in_quote no_close before c cs)
unfolding part_at NotComment
part_at-NotComment in_quote no_close before c cs h = if_both NotComment (c == newline) tt (
    if_both NotComment (c == backslash) (NotComment-escaped cs) (
      if_both NotComment (c == quote) tt (
        if_both NotComment in_quote tt (
          NotComment-blob_at before (c ∷ cs)
            (comment_at no_close before (drop_prefix (codes "/*") (c ∷ cs)))
            (drop_prefix blob_open (c ∷ cs))
            (subst (λ o. NotComment (comment_at no_close before o)) (sym h) tt)))))

-- The rest of the loop leaves a text without `/*` as it is.
Leaves : (Bool → Bool → Text → Text → Text) → Type 0
Leaves rest = (q n : Bool) (b t : Text) → NoOpen t → rest q n b t ≡ t

strip_part-kept :
    (rest : Bool → Bool → Text → Text → Text) (in_quote no_close : Bool) (before : Text) (c : ℕ)
    (cs : Text) (part : Part)
    → Leaves rest
    → Reads c cs part
    → NotComment part
    → NoOpen (c ∷ cs)
    → strip_part rest in_quote no_close before c cs part ≡ c ∷ cs
unfolding strip_part Leaves Reads NotComment NoOpen
strip_part-kept rest in_quote no_close before c cs line_end ih r k (h, hs) =
    ap (◌∷◌ c) (ih false no_close (c ∷ before) cs hs)
strip_part-kept rest in_quote no_close before c cs (escape d ds) ih r k (h, hs) =
    let (h', hs') : NoOpen (d ∷ ds) = subst NoOpen r hs in
    ap (λ t. c ∷ d ∷ t) (ih in_quote no_close (d ∷ c ∷ before) ds hs') ∙ ap (◌∷◌ c) (sym r)
strip_part-kept rest in_quote no_close before c cs (quote_mark opens) ih r k (h, hs) =
    ap (◌∷◌ c) (ih opens no_close (c ∷ before) cs hs)
strip_part-kept rest in_quote no_close before c cs (blob held behind) ih r k o =
    ap (◌++◌ held) (
      ih in_quote no_close (back_over held before) behind
        (NoOpen-behind held behind (subst NoOpen r o)))
    ∙ sym r
strip_part-kept rest in_quote no_close before c cs (comment held behind) ih r k o = absurd k
strip_part-kept rest in_quote no_close before c cs unclosed ih r k (h, hs) =
    ap (◌∷◌ c) (ih in_quote true (c ∷ before) cs hs)
strip_part-kept rest in_quote no_close before c cs plain ih r k (h, hs) =
    ap (◌∷◌ c) (ih in_quote no_close (c ∷ before) cs hs)

strip_from-kept : (fuel : ℕ) → Leaves (strip_from fuel)
unfolding strip_from Leaves NoOpen
strip_from-kept zero q n b cs h = refl
strip_from-kept (suc fuel) q n b [] h = refl
strip_from-kept (suc fuel) q n b (c ∷ cs) h =
    strip_part-kept (strip_from fuel) q n b c cs (part_at q n b c cs) (strip_from-kept fuel)
      (part_at-Reads q n b c cs) (part_at-NotComment q n b c cs h.0) h

-- A text without `/*` is left as it is.
pub strip_comments-kept : (cs : Text) → NoOpen cs → strip_comments cs ≡ cs
unfolding strip_comments Leaves
strip_comments-kept cs h = strip_from-kept (length cs) false false [] cs h

-- No `*/` stands in the text.
unfoldable pub NoClose : Text → Type 0
NoClose [] = Unit
NoClose (c ∷ cs) = (drop_prefix (codes "*/") (c ∷ cs) ≡ none) × NoClose cs

comment_end-NoClose :
    (body rest : Text)
    → NoClose body
    → comment_end (body ++ b'*' ∷ b'/' ∷ newline ∷ rest)
      ≡ some (body ++ b'*' ∷ b'/' ∷ [], newline ∷ rest)
unfolding comment_end NoClose drop_prefix is_space
comment_end-NoClose [] rest h = refl
comment_end-NoClose (c ∷ []) rest h = ground arith
comment_end-NoClose (c ∷ d ∷ ds) rest (h, hs) = ground (arith, comment_end-NoClose (d ∷ ds) rest hs)

-- A comment that starts a text, with no `*/` inside and a line end behind it, becomes blanks up to
-- that line end, its own line ends apart; the lines behind it stay, where they open no comment.
pub strip_comments-comment :
    (body rest : Text)
    → NoClose body
    → NoOpen rest
    → strip_comments (b'/' ∷ b'*' ∷ body ++ b'*' ∷ b'/' ∷ newline ∷ rest)
      ≡ blanks (b'/' ∷ b'*' ∷ body ++ b'*' ∷ b'/' ∷ []) ++ newline ∷ rest
unfolding strip_comments strip_from strip_part part_at NoOpen Leaves drop_prefix
strip_comments-comment body rest h k =
    let held = b'/' ∷ b'*' ∷ body ++ b'*' ∷ b'/' ∷ [] in
    let behind = body ++ b'*' ∷ b'/' ∷ newline ∷ rest in
    rw (comment_end-NoClose body rest h) (
      ap (λ t. blanks held ++ t)
        (strip_from-kept (suc (length behind)) false false (back_over held []) (newline ∷ rest)
          (refl, k)))
