-- ===== src/Substitute.antt =====
-- The %%VAR%% substitution (autosys/parser/variable_sub.py). A template is read as the pieces that
-- the iteration of `_VAR_RE` cuts it into.
pub mod Pieces
pub mod Strict
pub mod JobAttrs
use autosys_clone.Prelude.{
  ℕ, zero, suc, ◌+◌, ◌/◌, ◌%◌, Bool, true, false, not, ◌&&◌, ◌||◌, Option, none, some, List, [],
  ◌∷◌, ◌++◌, Text, codes, upper, is_letter, is_digit, is_empty, length, lookup, mem_text, ◌==◌,
  if◌then◌else◌,
}
use autosys_clone.Condition.Eval.{upper_keys}

-- A character that is copied, or a variable with the name as it is written.
pub data Piece : Type 0 where
  literal : ℕ → Piece
  variable : Text → Piece

-- `[A-Za-z0-9_]`.
unfoldable pub is_word : ℕ → Bool
unfolding is_letter is_digit
is_word c = is_letter c || is_digit c || c == b'_'

-- The longest run of word characters, and what is left. It cannot hold a percent sign, so a match
-- never takes less of it.
unfoldable pub take_word : Text → Text × Text
unfolding is_word
take_word [] = ([], [])
take_word (c ∷ cs) =
    let (word, rest) = take_word cs in if is_word c then (c ∷ word, rest) else ([], c ∷ cs)

-- `%%` at the start of a text.
unfoldable pub drop_percents : Text → Option Text
drop_percents (a ∷ b ∷ rest) = if a == b'%' && b == b'%' then some rest else none
drop_percents cs = none

-- A match of `_VAR_RE` at the start of a text: the name, and the text behind.
unfoldable pub match_end : Text → Option Text → Option (Text × Text)
match_end word none = none
match_end [] (some rest) = none
match_end (c ∷ cs) (some rest) = some (c ∷ cs, rest)

unfoldable pub match_inner : Option Text → Option (Text × Text)
unfolding match_end drop_percents take_word
match_inner none = none
match_inner (some inner) = match_end (take_word inner).0 (drop_percents (take_word inner).1)

unfoldable pub match_variable : Text → Option (Text × Text)
unfolding match_inner drop_percents
match_variable cs = match_inner (drop_percents cs)

-- The piece at the start of a text, and those that `rest` finds behind it.
unfoldable pub cut_piece : (Text → List Piece) → ℕ → Text → Option (Text × Text) → List Piece
cut_piece rest c cs none = literal c ∷ rest cs
cut_piece rest c cs (some (name, behind)) = variable name ∷ rest behind

-- The pieces, on fuel for the length.
unfoldable pub cut : ℕ → Text → List Piece
unfolding cut_piece match_variable
cut zero cs = []
cut (suc fuel) [] = []
cut (suc fuel) (c ∷ cs) = cut_piece (cut fuel) c cs (match_variable (c ∷ cs))

unfoldable pub pieces : Text → List Piece
unfolding cut
pieces template = cut (length template) template

-- `run_date` and `dispatch_time`.
pub record Moment : Type 0 where
  pub year : ℕ
  pub month : ℕ
  pub day : ℕ
  pub hour : ℕ
  pub minute : ℕ

abbrev digit : ℕ → ℕ
digit n = b'0' + n % 10

abbrev two : ℕ → Text
two n = digit (n / 10) ∷ digit n ∷ []

abbrev four : ℕ → Text
four n = two (n / 100) ++ two n

-- `build_builtins`.
unfoldable pub build_builtins : Moment → Bool → List (Text × Text)
build_builtins t autorun =
    (codes "DATE", two t.month ++ two t.day ++ four t.year)
    ∷ (codes "YYYY", four t.year)
    ∷ (codes "MM", two t.month)
    ∷ (codes "DD", two t.day)
    ∷ (codes "TIME", two t.hour ++ two t.minute)
    ∷ (codes "AUTORUN", if autorun then codes "Y" else codes "N")
    ∷ []

-- What the names have as values: the globals, the built-in variables and whether an undefined name
-- is an error.
pub record Context : Type 0 where
  pub globs : List (Text × Text)
  pub moment : Moment
  pub autorun : Bool

-- The value of an upper-cased name.
unfoldable pub value_of : Context → Text → Option Text
unfolding build_builtins upper_keys lookup
value_of ctx name = elim (lookup name (build_builtins ctx.moment ctx.autorun)) [
  | some v ↦ some v
  | none ↦ lookup name (upper_keys [] ctx.globs)
]

-- The text, or the name of an UndefinedVariableError.
pub data Substituted : Type 0 where
  expanded : Text → Substituted
  undefined : Text → Substituted

abbrev pub prepend : Text → Substituted → Substituted
prepend s (expanded t) = expanded (s ++ t)
prepend s (undefined name) = undefined name

-- The text of a piece in the template.
abbrev pub source_of : Piece → Text
source_of (literal c) = c ∷ []
source_of (variable name) = b'%' ∷ b'%' ∷ name ++ b'%' ∷ b'%' ∷ []

-- `_replace`: the text that stands for a variable with its value, in front of what the rest gives.
unfoldable pub replace : Bool → Text → Option Text → Substituted → Substituted
replace strict name (some v) rest = prepend v rest
replace true name none rest = undefined (upper name)
replace false name none rest = prepend (source_of (variable name)) rest

-- `_VAR_RE.sub(_replace, template)`.
unfoldable pub replace_all : Bool → Context → List Piece → Substituted
unfolding value_of replace
replace_all strict ctx [] = expanded []
replace_all strict ctx (literal c ∷ ps) = prepend (c ∷ []) (replace_all strict ctx ps)
replace_all strict ctx (variable name ∷ ps) =
    replace strict name (value_of ctx (upper name)) (replace_all strict ctx ps)

-- `substitute`.
unfoldable pub substitute : Bool → Context → Text → Substituted
unfolding replace_all pieces
substitute strict ctx template = replace_all strict ctx (pieces template)

-- `seen[name] = None` over the matches, in the order of first appearance.
unfoldable pub names_from : List Text → List Piece → List Text
names_from seen [] = seen
names_from seen (literal c ∷ ps) = names_from seen ps
names_from seen (variable name ∷ ps) =
    names_from (if mem_text (upper name) seen then seen else seen ++ upper name ∷ []) ps

-- `list_variables`.
unfoldable pub list_variables : Text → List Text
unfolding names_from pieces
list_variables template = names_from [] (pieces template)
