-- ===== src/Substitute/Pieces.antt =====
-- The pieces of a template put together are the template (`_VAR_RE` in
-- autosys/parser/variable_sub.py).
use autosys_clone.Prelude.{
  ℕ, zero, suc, ◌≡◌, refl, sym, ap, ◌∙◌, ◌≤◌, ◌<◌, Option, none, some, List, [], ◌∷◌, ◌++◌, Text,
  length, length-append, arith, append_assoc,
}
use autosys_clone.Substitute.{
  Piece, variable, take_word, drop_percents, match_end, match_inner, match_variable, cut_piece, cut,
  pieces, source_of,
}

-- The text that the pieces stand for.
abbrev pub joined : List Piece → Text
joined [] = []
joined (p ∷ ps) = source_of p ++ joined ps

take_word-append : (cs : Text) → (take_word cs).0 ++ (take_word cs).1 ≡ cs
unfolding take_word
take_word-append [] = refl
take_word-append (c ∷ cs) = ground (arith, take_word-append cs)

drop_percents-some : (cs rest : Text) → drop_percents cs ≡ some rest → cs ≡ b'%' ∷ b'%' ∷ rest
unfolding drop_percents
drop_percents-some [] rest h = cc
drop_percents-some (a ∷ []) rest h = cc
drop_percents-some (a ∷ b ∷ cs) rest h = ground arith

match_end-some :
    (word name rest : Text) (o : Option Text)
    → match_end word o ≡ some (name, rest)
    → (name ≡ word) × (o ≡ some rest)
unfolding match_end
match_end-some word name rest none h = cc
match_end-some [] name rest (some r) h = cc
match_end-some (c ∷ cs) name rest (some r) h = (cc, cc)

match_inner-some :
    (name rest : Text) (o : Option Text)
    → match_inner o ≡ some (name, rest)
    → o ≡ some (name ++ b'%' ∷ b'%' ∷ rest)
unfolding match_inner
match_inner-some name rest none h = cc
match_inner-some name rest (some inner) h =
    let (word, tail) =
      match_end-some (take_word inner).0 name rest (drop_percents (take_word inner).1) h in
    ap some (
      sym (take_word-append inner)
      ∙ rw (← word, drop_percents-some (take_word inner).1 rest tail) refl)

-- A match is the source of its variable.
match_variable-some :
    (cs name rest : Text)
    → match_variable cs ≡ some (name, rest)
    → cs ≡ source_of (variable name) ++ rest
unfolding match_variable
match_variable-some cs name rest h =
    drop_percents-some cs (name ++ b'%' ∷ b'%' ∷ rest)
      (match_inner-some name rest (drop_percents cs) h)
    ∙ rw (append_assoc name (b'%' ∷ b'%' ∷ []) rest) refl

-- Behind a variable less is left.
match_variable-shorter :
    (cs name rest : Text) → match_variable cs ≡ some (name, rest) → length rest < length cs
match_variable-shorter cs name rest h =
    rw (match_variable-some cs name rest h)
      (omega (arith, length-append (name ++ b'%' ∷ b'%' ∷ []) rest))

joined-cut_piece :
    (rest : Text → List Piece) (c : ℕ) (cs : Text) (o : Option (Text × Text))
    → match_variable (c ∷ cs) ≡ o
    → ((t : Text) → length t < length (c ∷ cs) → joined (rest t) ≡ t)
    → joined (cut_piece rest c cs o) ≡ c ∷ cs
unfolding cut_piece
joined-cut_piece rest c cs none e ih = ap (◌∷◌ c) (ih cs (omega arith))
joined-cut_piece rest c cs (some (name, behind)) e ih =
    ap (λ t. source_of (variable name) ++ t)
      (ih behind (match_variable-shorter (c ∷ cs) name behind e))
    ∙ sym (match_variable-some (c ∷ cs) name behind e)

joined-cut : (fuel : ℕ) (cs : Text) → length cs ≤ fuel → joined (cut fuel cs) ≡ cs
unfolding cut
joined-cut zero [] h = refl
joined-cut zero (c ∷ cs) h = absurd (omega arith)
joined-cut (suc fuel) [] h = refl
joined-cut (suc fuel) (c ∷ cs) h =
    joined-cut_piece (cut fuel) c cs (match_variable (c ∷ cs)) refl
      (λ t shorter. joined-cut fuel t (omega arith))

-- The pieces of a template, each with its percent signs, are together the template.
pub joined-pieces : (template : Text) → joined (pieces template) ≡ template
unfolding pieces
joined-pieces template = joined-cut (length template) template (omega arith)
