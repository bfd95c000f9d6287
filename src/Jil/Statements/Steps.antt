-- ===== src/Jil/Statements/Steps.antt =====
-- The scan of a value takes a step for each character at most (`_scan_value` of
-- autosys/parser/lexer.py).
use autosys_clone.Prelude.{
  ℕ, zero, suc, ◌≡◌, refl, ap, ◌≤◌, ◌<◌, Bool, true, false, ◌&&◌, Option, none, some, [], ◌∷◌, Text,
  is_letter, is_space, lstrip, length, ◌==◌, if◌then◌else◌, if_both, arith,
}
use autosys_clone.Jil.Quotes.{backslash, quote, find_close_quote, quote_opens, after, newline}
use autosys_clone.Jil.Statements.{
  take_while, is_key_char, colon_at, colon_behind, with_key, key_colon, attr_start, is_boundary,
  Scan, ends, takes, scan_escape, scan_blanks, scan_quote, scan_at, scan_part, scan_value, in_front,
  skip_blanks,
}

-- The text behind a match is shorter than `n`.
unfoldable pub Behind : ℕ → Option (Text × Text) → Type 0
Behind n none = Unit
Behind n (some (held, behind)) = length behind < n

pub Behind-≤ : (m n : ℕ) (o : Option (Text × Text)) → m ≤ n → Behind m o → Behind n o
unfolding Behind
Behind-≤ m n none le h = tt
Behind-≤ m n (some (held, behind)) le h = omega arith

take_while-length : (p : ℕ → Bool) (cs : Text) → length (take_while p cs).1 ≤ length cs
unfolding take_while
take_while-length p [] = omega arith
take_while-length p (c ∷ cs) = ground (arith, take_while-length p cs)

pub lstrip-length : (cs : Text) → length (lstrip cs) ≤ length cs
unfolding lstrip
lstrip-length [] = omega arith
lstrip-length (c ∷ cs) = ground (arith, lstrip-length cs)

pub skip_blanks-length : (cs : Text) → length (skip_blanks cs) ≤ length cs
unfolding skip_blanks
skip_blanks-length [] = omega arith
skip_blanks-length (c ∷ cs) = ground (arith, skip_blanks-length cs)

with_key-Behind :
    (key : Text) (n : ℕ) (cs : Text) → length cs ≤ n → Behind n (with_key key (colon_at cs))
unfolding with_key colon_at Behind
with_key-Behind key n [] h = tt
with_key-Behind key n (c ∷ cs) h =
    elim (c == b':') as (λ b. Behind n (with_key key (if b then some cs else none))) [
      | true ↦ omega arith
      | false ↦ tt
    ]

pub key_colon-Behind : (cs : Text) → Behind (length cs) (key_colon cs)
unfolding key_colon Behind colon_behind
key_colon-Behind [] = tt
key_colon-Behind (c ∷ cs) =
    if_both (Behind (length (c ∷ cs))) (is_letter c)
      (with_key-Behind (take_while is_key_char (c ∷ cs)).0 (length (c ∷ cs))
        (lstrip (take_while is_key_char (c ∷ cs)).1)
        (omega (
          arith,
          lstrip-length (take_while is_key_char (c ∷ cs)).1,
          take_while-length is_key_char (c ∷ cs),
        )))
      tt

pub attr_start-Behind : (cs : Text) → Behind (length cs) (attr_start cs)
unfolding attr_start
attr_start-Behind cs =
    Behind-≤ (length (lstrip cs)) (length cs) (key_colon (lstrip cs)) (lstrip-length cs)
      (key_colon-Behind (lstrip cs))

-- A step of the scan leaves no more than `n` characters.
Leaves : ℕ → Scan → Type 0
Leaves n (ends key behind) = length behind ≤ n
Leaves n (takes held last rest) = length rest ≤ n

after-Behind : (c n : ℕ) (o : Option (Text × Text)) → Behind n o → Behind n (after c o)
unfolding Behind
after-Behind c n none h = tt
after-Behind c n (some (held, rest)) h = h

find_close_quote-Behind :
    (stop skip : Bool) (cs : Text) → Behind (length cs) (find_close_quote stop skip cs)
unfolding find_close_quote Behind
find_close_quote-Behind stop skip [] = tt
find_close_quote-Behind stop true (c ∷ cs) =
    after-Behind c (suc (length cs)) (find_close_quote stop false cs) (
      Behind-≤ (length cs) (suc (length cs)) (find_close_quote stop false cs) (omega arith)
        (find_close_quote-Behind stop false cs))
find_close_quote-Behind stop false (c ∷ cs) =
    let rest = after-Behind c (suc (length cs)) (find_close_quote stop (c == backslash) cs) (
      Behind-≤ (length cs) (suc (length cs)) (find_close_quote stop (c == backslash) cs)
        (omega arith) (find_close_quote-Behind stop (c == backslash) cs)) in
    if_both (Behind (suc (length cs))) (c == backslash) rest (
      if_both (Behind (suc (length cs))) (c == quote) (omega arith)
        (if_both (Behind (suc (length cs))) (stop && c == newline) tt rest))

scan_quote-Leaves :
    (cs : Text) (o : Option (Text × Text))
    → Behind (length cs) o
    → Leaves (length cs) (scan_quote cs o)
unfolding Behind Leaves
scan_quote-Leaves cs none h = omega arith
scan_quote-Leaves cs (some (held, rest)) h = omega arith

scan_escape-Leaves : (cs : Text) → Leaves (length cs) (scan_escape cs)
unfolding Leaves
scan_escape-Leaves [] = omega arith
scan_escape-Leaves (d ∷ ds) = omega arith

scan_blanks-Leaves :
    (header : Bool) (c : ℕ) (w : Text × Text) (n : ℕ) (o : Option (Text × Text))
    → length w.1 ≤ n
    → Behind (length w.1) o
    → Leaves n (scan_blanks header c w o)
unfolding scan_blanks Leaves Behind
scan_blanks-Leaves header c (held, rest) n none h k = h
scan_blanks-Leaves header c (held, rest) n (some (key, behind)) h k =
    if_both (Leaves n) (is_boundary key header) (omega arith) h

scan_at-Leaves :
    (header : Bool) (prev : Option ℕ) (c : ℕ) (cs : Text)
    → Leaves (length cs) (scan_at header prev c cs)
unfolding scan_at Leaves
scan_at-Leaves header prev c cs =
    let blanks = take_while is_space cs in
    if_both (Leaves (length cs)) (c == backslash) (scan_escape-Leaves cs) (
      if_both (Leaves (length cs)) (c == quote && quote_opens prev cs)
        (scan_quote-Leaves cs (find_close_quote false false cs)
          (find_close_quote-Behind false false cs))
        (if_both (Leaves (length cs)) (is_space c)
          (scan_blanks-Leaves header c blanks (length cs) (key_colon blanks.1)
            (take_while-length is_space cs) (key_colon-Behind blanks.1))
          (omega arith)))

scan_part-Behind :
    (rest : Option ℕ → Text → Text × Option (Text × Text)) (n : ℕ) (scan : Scan)
    → ((prev : Option ℕ) (cs : Text) → Behind (length cs) (rest prev cs).1)
    → Leaves n scan
    → Behind (suc n) (scan_part rest scan).1
unfolding scan_part Behind Leaves
scan_part-Behind rest n (ends key behind) ih h = omega arith
scan_part-Behind rest n (takes held last behind) ih h =
    Behind-≤ (length behind) (suc n) (rest (some last) behind).1 (omega arith)
      (ih (some last) behind)

pub scan_value-Behind :
    (fuel : ℕ) (header : Bool) (prev : Option ℕ) (cs : Text)
    → Behind (length cs) (scan_value fuel header prev cs).1
unfolding scan_value Behind
scan_value-Behind zero header prev cs = tt
scan_value-Behind (suc fuel) header prev [] = tt
scan_value-Behind (suc fuel) header prev (c ∷ cs) =
    scan_part-Behind (scan_value fuel header) (length cs) (scan_at header prev c cs)
      (scan_value-Behind fuel header) (scan_at-Leaves header prev c cs)

-- Two ways to go on agree on each text of at most `n` characters.
Agree :
    ℕ
    → (Option ℕ → Text → Text × Option (Text × Text))
    → (Option ℕ → Text → Text × Option (Text × Text))
    → Type 0
Agree n r s = (prev : Option ℕ) (cs : Text) → length cs ≤ n → r prev cs ≡ s prev cs

scan_part-Agree :
    (r s : Option ℕ → Text → Text × Option (Text × Text)) (n : ℕ) (scan : Scan)
    → Agree n r s
    → Leaves n scan
    → scan_part r scan ≡ scan_part s scan
unfolding scan_part Leaves Agree
scan_part-Agree r s n (ends key behind) ih h = refl
scan_part-Agree r s n (takes held last behind) ih h = ap (in_front held) (ih (some last) behind h)

scan_value-Agree :
    (f g n : ℕ) (header : Bool)
    → n ≤ f
    → n ≤ g
    → Agree n (scan_value f header) (scan_value g header)
unfolding scan_value Agree
scan_value-Agree zero zero n header hf hg prev cs h = refl
scan_value-Agree zero (suc g) n header hf hg prev [] h = refl
scan_value-Agree zero (suc g) n header hf hg prev (c ∷ cs) h = absurd (omega arith)
scan_value-Agree (suc f) zero n header hf hg prev [] h = refl
scan_value-Agree (suc f) zero n header hf hg prev (c ∷ cs) h = absurd (omega arith)
scan_value-Agree (suc f) (suc g) n header hf hg prev [] h = refl
scan_value-Agree (suc f) (suc g) n header hf hg prev (c ∷ cs) h =
    scan_part-Agree (scan_value f header) (scan_value g header) (length cs)
      (scan_at header prev c cs)
      (scan_value-Agree f g (length cs) header (omega arith) (omega arith))
      (scan_at-Leaves header prev c cs)

-- The fuel with which a value is scanned, the length of the text, is enough: any greater fuel gives
-- the same value, and the same key and text behind it.
scan_value-fuel :
    (fuel : ℕ) (header : Bool) (prev : Option ℕ) (cs : Text)
    → length cs ≤ fuel
    → scan_value fuel header prev cs ≡ scan_value (length cs) header prev cs
unfolding Agree
scan_value-fuel fuel header prev cs h =
    scan_value-Agree fuel (length cs) (length cs) header h (omega arith) prev cs (omega arith)
