-- ===== src/Jil/Parser.antt =====
-- Operations out of tokens (`JILParser.parse` of autosys/parser/jil_parser.py, strict mode). The
-- pydantic models of the jobs and machines, and Python's `float()`, are parameters.
pub mod Reports
pub mod Errors
use autosys_clone.Prelude.{
  ℕ, zero, suc, Bool, true, false, not, ◌&&◌, ◌||◌, Option, none, some, List, [], ◌∷◌, Text, codes,
  eq_text, mem_text, lookup, is_some, length, Decimal, if◌then◌else◌,
}
use autosys_clone.Jil.{
  and_then, Token, TokenKind, directive, job_name, attr_name, value, raw, eof, Lexed, done,
}
use autosys_clone.Jil.Attrs.{words_of}
use autosys_clone.Jil.Values.{text, job_ops, directive_to_op}
use autosys_clone.Jil.Stanza.{
  Dict, unexpected_token, outside_stanza, validation_error, value_error, key_error, index_error,
  raised, Parsed, parsed, parse_error, out_of_fuel, bind, contains, name_key, Attrs, apply_pairs,
  stanza_op, erase_all,
}
use autosys_clone.Jil.Lexer.{tokenize}
use autosys_clone.Jil.Machine.{machine_members, machine_dict}

-- `_consume` with an expected kind, from the kind of the next token.
unfoldable pub expect : TokenKind → TokenKind → Bool
expect directive directive = true
expect job_name job_name = true
expect attr_name attr_name = true
expect value value = true
expect raw raw = true
expect eof eof = true
expect _ _ = false

unfoldable pub consume : TokenKind → List Token → Parsed (Token × List Token)
unfolding expect
consume kind [] = raised index_error
consume kind (t ∷ ts) =
    if expect kind t.kind then parsed (t, ts) else parse_error unexpected_token t.line

-- An attribute with its value in front of the other pairs, or the end of the pairs.
unfoldable pub take_pair :
    TokenKind
    → TokenKind
    → Token
    → Token
    → List Token
    → Parsed (List (Text × Text) × List Token)
    → Parsed (List (Text × Text) × List Token)
take_pair attr_name value t v ts rest =
    bind rest (λ (pairs, left). parsed ((t.text, v.text) ∷ pairs, left))
take_pair attr_name _ t v ts rest = parse_error unexpected_token v.line
take_pair _ _ t v ts rest = parsed ([], t ∷ v ∷ ts)

unfoldable pub last_token : TokenKind → Token → Parsed (List (Text × Text) × List Token)
last_token attr_name t = raised index_error
last_token _ t = parsed ([], t ∷ [])

-- The pairs behind a name, and the tokens left.
unfoldable pub take_pairs : List Token → Parsed (List (Text × Text) × List Token)
unfolding take_pair last_token
take_pairs [] = raised index_error
take_pairs (t ∷ []) = last_token t.kind t
take_pairs (t ∷ v ∷ ts) = take_pair t.kind v.kind t v ts (take_pairs ts)

-- A `JILOperation`, without the source that only the tolerant mode attaches.
pub record JilOperation {ℓ κ} (J : Type ℓ) (M : Type κ) : Type (ℓ ⊔ κ) where
  pub op : Text
  pub job : Option J
  pub machine : Option M
  pub raw_attrs : List (Text × Text)
  pub source_line : ℕ
  pub attr_pairs : List (Text × Text)
  pub null_attrs : List Text
  pub coerced : Dict

-- What a model makes of a dictionary: an object, or a ValidationError, or a ValueError, which
-- `parse_job` raises where `extra_attrs` is no dictionary.
pub data Validated {ℓ} (A : Type ℓ) : Type ℓ where
  object : A → Validated A
  invalid : Validated A
  no_dictionary : Validated A

-- The models: `parse_job`, `_partial_job`, `MachineDef` and `float()`.
pub record Models {ℓ κ} (J : Type ℓ) (M : Type κ) : Type (ℓ ⊔ κ) where
  pub parse_job : Dict → Validated J
  pub partial_job : Dict → J
  pub machine_def : Dict → Validated M
  pub float_of : Text → Option Decimal

-- A result, or the exception of the models.
abbrev pub valid {ι} : {A : Type ι} → Validated A → Parsed A
valid (object a) = parsed a
valid invalid = raised validation_error
valid no_dictionary = raised value_error

-- `_DIRECTIVE_TO_OP[...]`.
abbrev pub op_of : Text → Option Text → Parsed Text
op_of sub_command none = raised (key_error sub_command)
op_of sub_command (some op) = parsed op

-- The start of the loop over the pairs.
abbrev pub start_attrs : Text → Text → Attrs
start_attrs key name = record {
  raw_attrs = (key, name) ∷ [];
  coerced = (key, text name) ∷ [];
  null_attrs = [];
  seen = [];
}

module _ {ℓ κ} {J : Type ℓ} {M : Type κ} (models : Models J M) where
  abbrev pub or_partial : Dict → Validated J → J
  or_partial d (object job) = job
  or_partial d _ = models.partial_job d

  -- `_build_job`.
  unfoldable pub build_job : Text → Dict → Parsed J
  unfolding lookup
  build_job op d =
      if eq_text op (codes "insert")
      then valid (models.parse_job d)
      else if mem_text op (words_of (codes "delete delete_box rename override_delete"))
      then parsed (models.partial_job d)
      else if eq_text op (codes "update") && not (is_some (lookup (codes "job_type") d))
      then parsed (models.partial_job d)
      else parsed (or_partial d (models.parse_job d))

  abbrev pub operation :
      Text → ℕ → List (Text × Text) → Dict → Attrs → Option J → Option M → JilOperation J M
  operation op line pairs d st job machine = record {
    op = op;
    job = job;
    machine = machine;
    raw_attrs = st.raw_attrs;
    source_line = line;
    attr_pairs = pairs;
    null_attrs = st.null_attrs;
    coerced = d;
  }

  -- The operation of a stanza, from its attributes.
  unfoldable pub build_operation :
      Text → ℕ → Text → Text → List (Text × Text) → Attrs → Parsed (JilOperation J M)
  unfolding contains build_job machine_dict machine_members erase_all job_ops
  build_operation op line key name pairs st =
      let d = erase_all st.null_attrs st.coerced in
      let make = operation op line ((key, name) ∷ pairs) d st in
      if contains (codes "machine") op
      then bind
          (valid (
            models.machine_def
              (machine_dict key name (machine_members models.float_of pairs ([], [])))))
          (λ m. parsed (make none (some m)))
      else if mem_text op job_ops
      then bind (build_job op d) (λ j. parsed (make (some j) none))
      else parsed (make none none)

  -- A stanza, from its operation, the name and the pairs.
  unfoldable pub stanza : ℕ → Text → Text × List (Text × Text) → Text → Parsed (JilOperation J M)
  unfolding apply_pairs build_operation
  stanza line key (op, pairs) name =
      bind (apply_pairs op line pairs (start_attrs key name))
        (build_operation op line key name pairs)

  -- `_parse_stanza`, from the end: behind the pairs, the operation's name, the name and the
  -- directive.
  unfoldable pub behind_pairs :
      ℕ → Text → Text → List (Text × Text) × List Token → Parsed (JilOperation J M × List Token)
  unfolding stanza stanza_op name_key
  behind_pairs line op name (pairs, left) =
      bind (stanza line (name_key op) (stanza_op op pairs) name)
        (λ operation'. parsed (operation', left))

  unfoldable pub behind_op : ℕ → Text → List Token → Text → Parsed (JilOperation J M × List Token)
  unfolding take_pairs behind_pairs
  behind_op line name ts op = bind (take_pairs ts) (behind_pairs line op name)

  unfoldable pub behind_job_name :
      Token → Token × List Token → Parsed (JilOperation J M × List Token)
  unfolding directive_to_op behind_op
  behind_job_name d (name, ts) =
      bind (op_of d.text (directive_to_op d.text)) (behind_op d.line name.text ts)

  unfoldable pub behind_directive : Token × List Token → Parsed (JilOperation J M × List Token)
  unfolding consume behind_job_name
  behind_directive (d, ts) = bind (consume job_name ts) (behind_job_name d)

  -- `_parse_stanza`: the operation, and the tokens left.
  unfoldable pub parse_stanza : List Token → Parsed (JilOperation J M × List Token)
  unfolding consume behind_directive
  parse_stanza ts = bind (consume directive ts) behind_directive

  -- The operation of a RAW token, without the directive and the name that it may show.
  abbrev pub raw_op : Token → JilOperation J M
  raw_op t =
      operation (codes "raw") t.line [] []
        (record { raw_attrs = []; coerced = []; null_attrs = []; seen = [] }) none none

  -- The tokens behind a RAW token that belong to nothing.
  unfoldable pub skip_orphans : List Token → List Token
  unfolding expect
  skip_orphans [] = []
  skip_orphans (t ∷ ts) =
      let rest = skip_orphans ts in
      if expect attr_name t.kind || expect value t.kind then rest else t ∷ ts

  -- The operation at a token of the given kind; `rest` parses the tokens behind.
  unfoldable pub parse_at :
      (List Token → Parsed (List (JilOperation J M)))
      → Token
      → List Token
      → TokenKind
      → Parsed (List (JilOperation J M))
  unfolding parse_stanza skip_orphans
  parse_at rest t ts eof = parsed []
  parse_at rest t ts raw = bind (rest (skip_orphans ts)) (λ ops. parsed (raw_op t ∷ ops))
  parse_at rest t ts directive =
      bind (parse_stanza (t ∷ ts)) (λ (op, left). bind (rest left) (λ ops. parsed (op ∷ ops)))
  parse_at rest t ts _ = parse_error outside_stanza t.line

  -- `parse`, strict. Fuel for the number of tokens.
  unfoldable pub parse_tokens : ℕ → List Token → Parsed (List (JilOperation J M))
  unfolding parse_at
  parse_tokens zero ts = out_of_fuel
  parse_tokens (suc fuel) [] = raised index_error
  parse_tokens (suc fuel) (t ∷ ts) = parse_at (parse_tokens fuel) t ts t.kind

  unfoldable pub parse : List Token → Parsed (List (JilOperation J M))
  unfolding parse_tokens
  parse ts = parse_tokens (suc (length ts)) ts

  -- `parse_text`, strict: the lexer's error, or what the parser gives.
  unfoldable pub parse_text : Text → Lexed (Parsed (List (JilOperation J M)))
  unfolding tokenize parse
  parse_text cs = and_then (tokenize cs) (λ ts. done (parse ts))
