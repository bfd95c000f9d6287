-- ===== src/Jil.antt =====
-- The JIL language (autosys/parser/lexer.py, jil_attrs.py, jil_parser.py and jil_writer.py): the
-- tokens and errors of the lexer, which the modules below share.
pub mod Attrs
pub mod Quotes
pub mod Comments
pub mod Statements
pub mod Lines
pub mod Lexer
pub mod Streams
pub mod Values
pub mod Stanza
pub mod Machine
pub mod Parser
pub mod Writer
use autosys_clone.Prelude.{ℕ, List, Text}

pub data TokenKind : Type 0 where
  directive : TokenKind
  job_name : TokenKind
  attr_name : TokenKind
  value : TokenKind
  raw : TokenKind
  eof : TokenKind

pub record Token : Type 0 where
  pub kind : TokenKind
  pub text : Text
  pub line : ℕ

-- What a LexError complains of.
pub data Complaint : Type 0 where
  unterminated_blob : Complaint
  unterminated_quote : Complaint
  expected_statement : Complaint
  text_after_blob : Complaint
  unknown_sub_command : Complaint
  cannot_tokenise : Complaint
  needs_name : Complaint
  unterminated_name : Complaint
  invalid_name : Complaint
  text_after_header : Complaint
  text_after_value : Complaint

-- A result, or a LexError with its line. `exhausted` is no result of the program.
pub data Lexed {ℓ} (A : Type ℓ) : Type ℓ where
  done : A → Lexed A
  lex_error : Complaint → ℕ → Lexed A
  exhausted : Lexed A

abbrev pub and_then {ℓ κ} : {A : Type ℓ} {B : Type κ} → Lexed A → (A → Lexed B) → Lexed B
and_then (done a) f = f a
and_then (lex_error what line) f = lex_error what line
and_then exhausted f = exhausted

-- A computation that ends, with a result of the given kind or an error.
abbrev pub Total {ℓ} : {A : Type ℓ} → (A → Type 0) → Lexed A → Type 0
Total P (done a) = P a
Total P (lex_error what line) = Unit
Total P exhausted = ⊥

pub Total-and_then {ℓ μ} :
    {A : Type ℓ} {B : Type μ} (P : A → Type 0) (Q : B → Type 0) (r : Lexed A) (f : A → Lexed B)
    → Total P r
    → ((a : A) → P a → Total Q (f a))
    → Total Q (and_then r f)
Total-and_then P Q (done a) f h k = k a h
Total-and_then P Q (lex_error what line) f h k = tt
Total-and_then P Q exhausted f h k = absurd h
