-- ===== src/Jil/Parser/Errors.antt =====
-- What the strict parser can refuse on the tokens of the lexer (`JILParser.parse_text` of
-- autosys/parser/jil_parser.py).
use autosys_clone.Prelude.{ℕ, ◌≡◌, ◌≤◌, none, List, lookup, length, All}
use autosys_clone.Jil.{Token}
use autosys_clone.Jil.Stanza.{Parsed, Attrs}
use autosys_clone.Jil.Streams.{Within, Stream}
use autosys_clone.Jil.Parser.{JilOperation, Models}
use autosys_clone.Jil.Parser.Reports.{Ends}

module _ {ℓ κ} {J : Type ℓ} {M : Type κ} where
  -- An operation stands on a line of the text, and the attributes that it clears have no value.
  pub IsSound : ℕ → JilOperation J M → Type 0
  IsSound last op = Within last op.source_line × All (λ a. lookup a op.coerced ≡ none) op.null_attrs

module _ {ℓ κ} {J : Type ℓ} {M : Type κ} (models : Models J M) where
  -- An operation, and the tokens left.
  Parsed1 : ℕ → ℕ → JilOperation J M × List Token → Type 0
  Parsed1 last n (op, ts) = IsSound last op × Stream last ts × (length ts ≤ n)

  -- The operations of the tokens behind are found.
  Continues : ℕ → ℕ → (List Token → Parsed (List (JilOperation J M))) → Type 0
  Continues last n rest =
      (ts : List Token) → Stream last ts → length ts ≤ n → Ends last (All (IsSound last)) (rest ts)
