-- ===== src/Jil/Quotes.antt =====
-- Quotes, escapes and values (`_find_close_quote`, `_quote_opens`, `_unescape` and
-- `_normalize_value` of autosys/parser/lexer.py). A position in a text is the text behind it.
use autosys_clone.Prelude.{
  ℕ, Bool, true, false, ◌&&◌, ◌||◌, Option, none, some, List, [], ◌∷◌, Text, codes, is_some, strip,
  mem_text, ◌==◌, if◌then◌else◌,
}

abbrev pub newline : ℕ
newline = 10

abbrev pub tab : ℕ
tab = 9

abbrev pub backslash : ℕ
backslash = 92

abbrev pub quote : ℕ
quote = 34

-- A result behind one more character.
abbrev pub after {ℓ} : {A : Type ℓ} → ℕ → Option (Text × A) → Option (Text × A)
after c none = none
after c (some (held, rest)) = some (c ∷ held, rest)

-- `_find_close_quote`: the text up to the quote, and the text behind it. `skip` holds behind a
-- backslash, where the next character is passed over.
unfoldable pub find_close_quote : Bool → Bool → Text → Option (Text × Text)
find_close_quote stop skip [] = none
find_close_quote stop true (c ∷ cs) = after c (find_close_quote stop false cs)
find_close_quote stop false (c ∷ cs) =
    let rest = find_close_quote stop (c == backslash) cs in
    if c == backslash
    then after c rest
    else if c == quote
    then some ([], cs)
    else if stop && c == newline
    then none
    else after c rest

-- `text[i - 1] in " \t=,("`.
unfoldable pub may_precede : ℕ → Bool
may_precede c = c == b' ' || c == tab || c == b'=' || c == b',' || c == b'('

-- `_quote_opens`: whether a quote opens a string, from the character in front of it (none at
-- `start`) and the text behind it.
unfoldable pub quote_opens : Option ℕ → Text → Bool
unfolding find_close_quote may_precede
quote_opens none cs = is_some (find_close_quote true false cs)
quote_opens (some p) cs = may_precede p && is_some (find_close_quote true false cs)

abbrev starts_char : ℕ → Text → Bool
starts_char c [] = false
starts_char c (x ∷ xs) = x == c

-- `v.replace("\\c", "c")`, for a character that is not a backslash.
unfoldable pub drop_escape : ℕ → Text → Text
drop_escape c [] = []
drop_escape c (x ∷ xs) =
    let rest = drop_escape c xs in if x == backslash && starts_char c xs then rest else x ∷ rest

-- `_SHELL_KEYS`.
abbrev pub shell_keys : List Text
shell_keys = codes "command" ∷ codes "sql_command" ∷ []

-- `_unescape`.
unfoldable pub unescape : Text → Text → Text
unfolding drop_escape
unescape v key =
    let plain = drop_escape b',' (drop_escape b':' v) in
    if mem_text key shell_keys then plain else drop_escape quote plain

-- A text that is one quoted token, without its quotes.
unfoldable pub quoted_token : Text → Option Text
unfolding find_close_quote
quoted_token [] = none
quoted_token (c ∷ cs) = if c == quote then whole (find_close_quote false false cs) else none
  where
    whole : Option (Text × Text) → Option Text
    whole (some (held, [])) = some held
    whole (some (held, x ∷ xs)) = none
    whole none = none

-- `_normalize_value`.
unfoldable pub normalize_stripped : Text → Text → Option Text → Text
unfolding drop_escape unescape
normalize_stripped v key (some held) = drop_escape quote held
normalize_stripped v key none = unescape v key

unfoldable pub normalize_value : Text → Text → Text
unfolding normalize_stripped quoted_token
normalize_value raw key = normalize_stripped (strip raw) key (quoted_token (strip raw))
