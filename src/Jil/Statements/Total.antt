-- ===== src/Jil/Statements/Total.antt =====
-- The statements of a line are found in as many steps as it has characters (`_scan_value` and
-- `_split_statements` of autosys/parser/lexer.py).
use autosys_clone.Prelude.{
  ℕ, zero, suc, ◌≡◌, refl, ◌≤◌, ◌<◌, Bool, true, false, Option, none, some, List, [], ◌∷◌, Text,
  lstrip, length, arith,
}
use autosys_clone.Jil.{Lexed, done, Total, Total-and_then}
use autosys_clone.Jil.Comments.{drop_prefix, find_text, blob_open, blob_close}
use autosys_clone.Jil.Statements.{
  key_colon, attr_start, scan_value, Statement, skip_blanks, Blob, no_blob, blob_text, endless,
  blob_body, blob_after, blob_span, go_on, behind_blob, plain_statement, statement_at, statements,
  start_statements, split_statements,
}
use autosys_clone.Jil.Comments.Steps.{Past, drop_prefix-shorter, find_text-Past}
use autosys_clone.Jil.Statements.Steps.{
  Behind, Behind-≤, lstrip-length, skip_blanks-length, key_colon-Behind, attr_start-Behind,
  scan_value-Behind,
}

-- What a blob leaves.
BlobLeaves : ℕ → Blob → Type 0
BlobLeaves n no_blob = Unit
BlobLeaves n (blob_text held rest) = length rest ≤ n
BlobLeaves n endless = Unit

blob_body-BlobLeaves :
    (k m n : ℕ) (o : Option (Text × Text)) → m ≤ n → Past k m o → BlobLeaves n (blob_body o)
unfolding BlobLeaves Past
blob_body-BlobLeaves k m n none le h = tt
blob_body-BlobLeaves k m n (some (held, rest)) le h = omega arith

blob_after-BlobLeaves :
    (cs : Text) (o : Option Text)
    → drop_prefix blob_open (skip_blanks cs) ≡ o
    → BlobLeaves (length cs) (blob_after o)
unfolding blob_after BlobLeaves
blob_after-BlobLeaves cs none e = tt
blob_after-BlobLeaves cs (some inside) e =
    blob_body-BlobLeaves (length blob_close) (length inside) (length cs)
      (find_text blob_close inside)
      (omega
        (arith, drop_prefix-shorter blob_open (skip_blanks cs) inside e, skip_blanks-length cs))
      (find_text-Past blob_close inside)

blob_span-BlobLeaves : (cs : Text) → BlobLeaves (length cs) (blob_span cs)
unfolding blob_span
blob_span-BlobLeaves cs = blob_after-BlobLeaves cs (drop_prefix blob_open (skip_blanks cs)) refl

-- The rest of the statements is found where it is shorter than `n`.
Found : ℕ → (Text → Text → Lexed (List Statement)) → Type 0
Found n rest = (key cs : Text) → length cs < n → Total (λ ss. Unit) (rest key cs)

go_on-Total :
    (s : Statement) (rest : Text → Text → Lexed (List Statement)) (n : ℕ) (o : Option (Text × Text))
    → Found n rest
    → Behind n o
    → Total (λ ss. Unit) (go_on s rest o)
unfolding go_on Found Behind
go_on-Total s rest n none h k = tt
go_on-Total s rest n (some (key, behind)) h k =
    Total-and_then (λ ss. Unit) (λ ss. Unit) (rest key behind) (λ ss. done (s ∷ ss))
      (h key behind k) (λ ss t. tt)

behind_blob-Total :
    (line : ℕ) (s : Statement) (rest : Text → Text → Lexed (List Statement)) (n : ℕ) (cs : Text)
    (o : Option (Text × Text))
    → Found n rest
    → Behind n o
    → Total (λ ss. Unit) (behind_blob line s rest cs o)
unfolding behind_blob
behind_blob-Total line s rest n [] o h k = tt
behind_blob-Total line s rest n (x ∷ xs) none h k = tt
behind_blob-Total line s rest n (x ∷ xs) (some next) h k = go_on-Total s rest n (some next) h k

plain_statement-Total :
    (key : Text) (rest : Text → Text → Lexed (List Statement)) (n : ℕ)
    (scan : Text × Option (Text × Text))
    → Found n rest
    → Behind n scan.1
    → Total (λ ss. Unit) (plain_statement key rest scan)
unfolding plain_statement
plain_statement-Total key rest n (v, o) h k =
    go_on-Total (record { key = key; raw = v; is_blob = false }) rest n o h k

statement_at-Total :
    (header : Bool) (line : ℕ) (key : Text) (rest : Text → Text → Lexed (List Statement))
    (cs : Text) (blob : Blob)
    → Found (length cs) rest
    → BlobLeaves (length cs) blob
    → Total (λ ss. Unit) (statement_at header line key rest cs blob)
unfolding statement_at BlobLeaves
statement_at-Total header line key rest cs endless h k = tt
statement_at-Total header line key rest cs (blob_text held behind) h k =
    behind_blob-Total line (record { key = key; raw = held; is_blob = true }) rest (length cs)
      (lstrip behind) (key_colon (lstrip behind)) h
      (Behind-≤ (length (lstrip behind)) (length cs) (key_colon (lstrip behind))
        (omega (arith, lstrip-length behind)) (key_colon-Behind (lstrip behind)))
statement_at-Total header line key rest cs no_blob h k =
    plain_statement-Total key rest (length cs) (scan_value (length cs) header none cs) h
      (scan_value-Behind (length cs) header none cs)

statements-Total :
    (fuel : ℕ) (header : Bool) (line : ℕ) (key cs : Text)
    → length cs < fuel
    → Total (λ ss. Unit) (statements fuel header line key cs)
unfolding statements Found
statements-Total zero header line key cs h = absurd (omega arith)
statements-Total (suc fuel) header line key cs h =
    statement_at-Total header line key (statements fuel header line) cs (blob_span cs)
      (λ k t shorter. statements-Total fuel header line k t (omega arith)) (blob_span-BlobLeaves cs)

start_statements-Total :
    (text : Text) (header : Bool) (line : ℕ) (o : Option (Text × Text))
    → Behind (length text) o
    → Total (λ ss. Unit) (start_statements text header line o)
unfolding start_statements Behind
start_statements-Total text header line none h = tt
start_statements-Total text header line (some (key, rest)) h =
    statements-Total (suc (length text)) header line key rest (omega arith)

-- The statements of a text are found, or it is refused.
pub split_statements-Total :
    (text : Text) (header : Bool) (line : ℕ)
    → Total (λ ss. Unit) (split_statements text header line)
unfolding split_statements
split_statements-Total text header line =
    start_statements-Total text header line (attr_start text) (attr_start-Behind text)
