-- ===== src/Substitute/Strict.antt =====
-- Undefined variables (`substitute` and `list_variables` in autosys/parser/variable_sub.py).
use autosys_clone.Prelude.{
  if◌then◌else◌, Bool, ◌≡◌, refl, sym, ap, ◌∙◌, ◌⊎◌, inl, inr, true, false, Option, none, some,
  List, [], ◌∷◌, ◌++◌, Text, upper, eq_text, eq_text_iff, mem_text, arith, Bool-cases, All,
}
use autosys_clone.Substitute.{
  Piece, literal, variable, Context, value_of, Substituted, expanded, undefined, prepend, replace,
  replace_all, pieces, substitute, names_from, list_variables,
}
use autosys_clone.Substitute.Pieces.{joined, joined-pieces}

unfoldable first_of : Text → Option Text → Option Text → Option Text
first_of name none rest = some name
first_of name (some v) rest = rest

-- The first of the names that has no value.
unfoldable pub first_undefined : Context → List Text → Option Text
unfolding first_of
first_undefined ctx [] = none
first_undefined ctx (name ∷ names) = first_of name (value_of ctx name) (first_undefined ctx names)

-- What a strict substitution gives, from the lax one.
abbrev pub strict_result : Option Text → Substituted → Substituted
strict_result none lax = lax
strict_result (some name) lax = undefined name

-- The names of the pieces, with repetitions.
abbrev all_names : List Piece → List Text
all_names [] = []
all_names (literal c ∷ ps) = all_names ps
all_names (variable name ∷ ps) = upper name ∷ all_names ps

strict_result-prepend :
    (o : Option Text) (s : Text) (r : Substituted)
    → prepend s (strict_result o r) ≡ strict_result o (prepend s r)
strict_result-prepend none s r = refl
strict_result-prepend (some name) s r = refl

replace-strict :
    (name : Text) (o missing : Option Text) (rest : Substituted)
    → replace true name o (strict_result missing rest)
      ≡ strict_result (first_of (upper name) o missing) (replace false name o rest)
unfolding replace first_of
replace-strict name none missing rest = refl
replace-strict name (some v) missing rest = strict_result-prepend missing v rest

replace_all-strict :
    (ctx : Context) (ps : List Piece)
    → replace_all true ctx ps
      ≡ strict_result (first_undefined ctx (all_names ps)) (replace_all false ctx ps)
unfolding replace_all first_undefined
replace_all-strict ctx [] = refl
replace_all-strict ctx (literal c ∷ ps) =
    ap (prepend (c ∷ [])) (replace_all-strict ctx ps)
    ∙ strict_result-prepend (first_undefined ctx (all_names ps)) (c ∷ []) (replace_all false ctx ps)
replace_all-strict ctx (variable name ∷ ps) =
    ap (replace true name (value_of ctx (upper name))) (replace_all-strict ctx ps)
    ∙ replace-strict name (value_of ctx (upper name)) (first_undefined ctx (all_names ps))
        (replace_all false ctx ps)

-- The first of two searches that finds something.
abbrev or_else : Option Text → Option Text → Option Text
or_else none o = o
or_else (some name) o = some name

or_else-none : (o : Option Text) → or_else o none ≡ o
or_else-none none = refl
or_else-none (some name) = refl

first_of-or_else :
    (name : Text) (v a b : Option Text)
    → first_of name v (or_else a b) ≡ or_else (first_of name v a) b
unfolding first_of
first_of-or_else name none a b = refl
first_of-or_else name (some v) a b = refl

or_else-first_of :
    (a : Option Text) (name : Text) (v b : Option Text)
    → or_else (or_else a (first_of name v none)) b ≡ or_else a (first_of name v b)
unfolding first_of
or_else-first_of (some n) name v b = refl
or_else-first_of none name none b = refl
or_else-first_of none name (some v) b = refl

first_undefined-append :
    (ctx : Context) (xs ys : List Text)
    → first_undefined ctx (xs ++ ys) ≡ or_else (first_undefined ctx xs) (first_undefined ctx ys)
unfolding first_undefined
first_undefined-append ctx [] ys = refl
first_undefined-append ctx (x ∷ xs) ys =
    ap (first_of x (value_of ctx x)) (first_undefined-append ctx xs ys)
    ∙ first_of-or_else x (value_of ctx x) (first_undefined ctx xs) (first_undefined ctx ys)

first_of-again :
    (ctx : Context) (name n : Text) (v a r : Option Text)
    → value_of ctx n ≡ v
    → (eq_text name n ≡ true) ⊎ (or_else a (first_of name (value_of ctx name) r) ≡ or_else a r)
    → or_else (first_of n v a) (first_of name (value_of ctx name) r) ≡ or_else (first_of n v a) r
unfolding first_of
first_of-again ctx name n none a r e seen = refl
first_of-again ctx name n (some v) a r e (inr same) = same
first_of-again ctx name n (some v) a r e (inl equal) = rw ((eq_text_iff name n).0 equal, e) refl

-- A name that was searched already adds nothing.
first_undefined-mem :
    (ctx : Context) (name : Text) (names : List Text) (r : Option Text)
    → mem_text name names ≡ true
    → or_else (first_undefined ctx names) (first_of name (value_of ctx name) r)
      ≡ or_else (first_undefined ctx names) r
unfolding first_undefined
first_undefined-mem ctx name [] r mem = absurd cc
first_undefined-mem ctx name (n ∷ names) r mem =
    first_of-again ctx name n (value_of ctx n) (first_undefined ctx names) r refl
      (elim (Bool-cases (eq_text name n)) [
        | inl equal ↦ inl equal
        | inr differs ↦ inr (first_undefined-mem ctx name names r (ground arith))
      ])

names_from-first_undefined :
    (ctx : Context) (seen : List Text) (ps : List Piece)
    → first_undefined ctx (names_from seen ps)
      ≡ or_else (first_undefined ctx seen) (first_undefined ctx (all_names ps))
unfolding names_from first_undefined
names_from-first_undefined ctx seen [] = sym (or_else-none (first_undefined ctx seen))
names_from-first_undefined ctx seen (literal c ∷ ps) = names_from-first_undefined ctx seen ps
names_from-first_undefined ctx seen (variable name ∷ ps) =
    elim (Bool-cases (mem_text (upper name) seen)) [
      | inl old ↦ rw (old) (
          names_from-first_undefined ctx seen ps
          ∙ sym
              (first_undefined-mem ctx (upper name) seen (first_undefined ctx (all_names ps)) old))
      | inr new ↦ rw (new) (
          names_from-first_undefined ctx (seen ++ upper name ∷ []) ps
          ∙ rw (first_undefined-append ctx seen (upper name ∷ [])) (
              or_else-first_of (first_undefined ctx seen) (upper name) (value_of ctx (upper name))
                (first_undefined ctx (all_names ps))))
    ]

-- A strict substitution raises UndefinedVariableError with the first name of `list_variables` that
-- has no value, and where each of them has one it gives what the lax substitution gives.
pub substitute-strict :
    (ctx : Context) (template : Text)
    → substitute true ctx template
      ≡ strict_result
          (first_undefined ctx (list_variables template))
          (substitute false ctx template)
unfolding substitute list_variables first_undefined
substitute-strict ctx template =
    replace_all-strict ctx (pieces template)
    ∙ rw (names_from-first_undefined ctx [] (pieces template)) refl

-- No name has a value.
abbrev pub Undefined : Context → List Text → Type 0
Undefined ctx names = All (λ name. value_of ctx name ≡ none) names

replace_all-lax :
    (ctx : Context) (ps : List Piece)
    → Undefined ctx (all_names ps)
    → replace_all false ctx ps ≡ expanded (joined ps)
unfolding replace_all replace
replace_all-lax ctx [] h = refl
replace_all-lax ctx (literal c ∷ ps) h = rw (replace_all-lax ctx ps h) refl
replace_all-lax ctx (variable name ∷ ps) (missing, h) = rw (missing, replace_all-lax ctx ps h) refl

Undefined-append :
    (ctx : Context) (xs ys : List Text)
    → Undefined ctx (xs ++ ys)
    → Undefined ctx xs × Undefined ctx ys
Undefined-append ctx [] ys h = (tt, h)
Undefined-append ctx (x ∷ xs) ys (h, hs) = let (l, r) = Undefined-append ctx xs ys hs in ((h, l), r)

Undefined-mem_text :
    (ctx : Context) (name : Text) (names : List Text)
    → mem_text name names ≡ true
    → Undefined ctx names
    → value_of ctx name ≡ none
Undefined-mem_text ctx name [] mem h = absurd cc
Undefined-mem_text ctx name (n ∷ names) mem (h, hs) = elim (Bool-cases (eq_text name n)) [
  | inl same ↦ rw ((eq_text_iff name n).0 same) h
  | inr differs ↦ Undefined-mem_text ctx name names (ground arith) hs
]

names_from-Undefined :
    (ctx : Context) (seen : List Text) (ps : List Piece)
    → Undefined ctx (names_from seen ps)
    → Undefined ctx seen × Undefined ctx (all_names ps)
unfolding names_from
names_from-Undefined ctx seen [] h = (h, tt)
names_from-Undefined ctx seen (literal c ∷ ps) h = names_from-Undefined ctx seen ps h
names_from-Undefined ctx seen (variable name ∷ ps) h = kept (mem_text (upper name) seen) refl (
    names_from-Undefined ctx (if mem_text (upper name) seen then seen else seen ++ upper name ∷ [])
      ps h)
  where
    kept :
        (b : Bool)
        → mem_text (upper name) seen ≡ b
        → Undefined ctx (if b then seen else seen ++ upper name ∷ []) × Undefined ctx (all_names ps)
        → Undefined ctx seen × Undefined ctx (all_names (variable name ∷ ps))
    kept true mem (l, r) = (l, (Undefined-mem_text ctx (upper name) seen mem l, r))
    kept false mem (l, r) =
        let (old, new) = Undefined-append ctx seen (upper name ∷ []) l in (old, (new.0, r))

-- A lax substitution leaves a template as it is, where none of its names has a value.
pub substitute-lax :
    (ctx : Context) (template : Text)
    → Undefined ctx (list_variables template)
    → substitute false ctx template ≡ expanded template
unfolding substitute list_variables
substitute-lax ctx template h =
    replace_all-lax ctx (pieces template) (names_from-Undefined ctx [] (pieces template) h).1
    ∙ ap expanded (joined-pieces template)
