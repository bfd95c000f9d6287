-- ===== src/Jil/Writer/Values.antt =====
-- A written value reads back (`_format_value` of autosys/parser/jil_writer.py and
-- `_normalize_value` of autosys/parser/lexer.py).
use autosys_clone.Prelude.{
  ℕ, ◌≡◌, refl, inl, inr, Bool, true, false, not, ◌&&◌, ◌||◌, none, some, [], ◌∷◌, ◌++◌, Text,
  ==_iff, ap, is_space, is_empty, lstrip, rstrip, strip, mem_text, All, Bool-cases, ◌==◌, if_both,
  arith,
}
use autosys_clone.Jil.Quotes.{
  newline, tab, backslash, quote, find_close_quote, drop_escape, shell_keys, unescape, quoted_token,
  normalize_stripped, normalize_value,
}
use autosys_clone.Jil.Writer.{needs_quoting, quoted}

-- A character that a value may hold to be read back: no quote, no backslash and, of the white space,
-- blanks and tabs alone.
unfoldable pub is_plain : ℕ → Bool
is_plain c = not (c == quote) && not (c == backslash) && (not (is_space c) || c == b' ' || c == tab)

abbrev pub Plain : Text → Type 0
Plain v = All (λ c. is_plain c ≡ true) v

-- A character of a value that is written without quotes.
unfoldable pub is_bare : ℕ → Bool
unfolding is_space
is_bare c = not (c == quote) && not (c == backslash) && not (is_space c) && not (c == b':')

abbrev pub Bare : Text → Type 0
Bare v = All (λ c. is_bare c ≡ true) v

pub Plain-Bare : (v : Text) → needs_quoting v ≡ false → Plain v → Bare v
unfolding needs_quoting is_plain is_bare is_space
Plain-Bare [] h k = tt
Plain-Bare (c ∷ cs) h (k, ks) = (ground arith, Plain-Bare cs (ground arith) ks)

-- A character that passes a test is none that does not.
not_char : (p : ℕ → Bool) (c d : ℕ) → p d ≡ false → p c ≡ true → (c == d) ≡ false
not_char p c d fails passes = elim (Bool-cases (c == d)) [
  | inl same ↦ absurd (let e = ap p ((==_iff c d).0 same) in cc)
  | inr other ↦ other
]

plain_ends :
    (c : ℕ)
    → is_plain c ≡ true
    → ((c == quote) ≡ false) × ((c == backslash) ≡ false) × ((c == newline) ≡ false)
unfolding is_plain is_space
plain_ends c h = (
  not_char is_plain c quote refl h,
  not_char is_plain c backslash refl h,
  not_char is_plain c newline refl h,
)

pub bare_blank : (c : ℕ) → is_bare c ≡ true → ((c == b' ') ≡ false) × ((c == tab) ≡ false)
unfolding is_bare is_space
bare_blank c h = (not_char is_bare c b' ' refl h, not_char is_bare c tab refl h)

third_test : (a b s d : Bool) → (a && b && not s && d) ≡ true → (s ≡ false) × (d ≡ true)
third_test a b s d h = ground arith

pub bare_space : (c : ℕ) → is_bare c ≡ true → (is_space c ≡ false) × ((c == b':') ≡ false)
unfolding is_bare
bare_space c h = (
  (third_test (not (c == quote)) (not (c == backslash)) (is_space c) (not (c == b':')) h).0,
  not_char is_bare c b':' refl h,
)

-- Behind the text, a quote closes.
pub find_close_quote-Plain :
    (stop : Bool) (v : Text)
    → Plain v
    → find_close_quote stop false (v ++ quote ∷ []) ≡ some (v, [])
unfolding find_close_quote
find_close_quote-Plain stop [] h = refl
find_close_quote-Plain stop (c ∷ cs) (h, hs) =
    ground (arith, plain_ends c h, find_close_quote-Plain stop cs hs)

pub drop_escape-Plain : (c : ℕ) (v : Text) → Plain v → drop_escape c v ≡ v
unfolding drop_escape is_plain
drop_escape-Plain c [] h = refl
drop_escape-Plain c (x ∷ xs) (h, hs) = ground (arith, drop_escape-Plain c xs hs)

append-ne-nil : (v : Text) (c : ℕ) → is_empty (v ++ c ∷ []) ≡ false
append-ne-nil [] c = refl
append-ne-nil (x ∷ xs) c = refl

rstrip-last : (v : Text) (c : ℕ) → is_space c ≡ false → rstrip (v ++ c ∷ []) ≡ v ++ c ∷ []
unfolding rstrip
rstrip-last [] c h = rw (h) refl
rstrip-last (x ∷ xs) c h = rw (rstrip-last xs c h) (ground (arith, append-ne-nil xs c))

rstrip-Bare : (v : Text) → Bare v → rstrip v ≡ v
unfolding rstrip is_bare
rstrip-Bare [] h = refl
rstrip-Bare (x ∷ xs) (h, hs) = ground (arith, rstrip-Bare xs hs)

lstrip-Bare : (v : Text) → Bare v → lstrip v ≡ v
unfolding lstrip is_bare
lstrip-Bare [] h = refl
lstrip-Bare (x ∷ xs) (h, hs) = ground arith

drop_escape-Bare : (c : ℕ) (v : Text) → Bare v → drop_escape c v ≡ v
unfolding drop_escape is_bare
drop_escape-Bare c [] h = refl
drop_escape-Bare c (x ∷ xs) (h, hs) = ground (arith, drop_escape-Bare c xs hs)

unescape-Bare : (v key : Text) → Bare v → unescape v key ≡ v
unfolding unescape
unescape-Bare v key h =
    rw (drop_escape-Bare b':' v h, drop_escape-Bare b',' v h, drop_escape-Bare quote v h)
      (if_both (λ w. w ≡ v) (mem_text key shell_keys) refl refl)

quoted_token-Bare : (v : Text) → Bare v → quoted_token v ≡ none
unfolding quoted_token is_bare
quoted_token-Bare [] h = refl
quoted_token-Bare (x ∷ xs) (h, hs) = ground arith

strip-quoted : (v : Text) → strip (b' ' ∷ quote ∷ v ++ quote ∷ []) ≡ quote ∷ v ++ quote ∷ []
unfolding lstrip is_space
strip-quoted v = rstrip-last (quote ∷ v) quote refl

strip-Bare : (v : Text) → Bare v → strip (b' ' ∷ v) ≡ v
unfolding lstrip is_space
strip-Bare v h = rw (lstrip-Bare v h) (rstrip-Bare v h)

quoted_token-quoted : (v : Text) → Plain v → quoted_token (quote ∷ v ++ quote ∷ []) ≡ some v
unfolding quoted_token
quoted_token-quoted v h = rw (find_close_quote-Plain false v h) refl

-- A value that is written reads back as it was.
pub normalize_value-quoted : (v key : Text) → Plain v → normalize_value (b' ' ∷ quoted v) key ≡ v
unfolding normalize_value quoted normalize_stripped
normalize_value-quoted v key h = elim (Bool-cases (needs_quoting v)) [
  | inl needs ↦
      rw (needs) (rw (strip-quoted v, quoted_token-quoted v h) (drop_escape-Plain quote v h))
  | inr bare ↦
      (let b = Plain-Bare v bare h in
        rw (bare, strip-Bare v b, quoted_token-Bare v b) (unescape-Bare v key b))
]
