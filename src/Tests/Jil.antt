-- ===== src/Tests/Jil.antt =====
-- Runs of the JIL language at concrete inputs.
use autosys_clone.Prelude.{
  length, arith, false, is_space, ℕ, suc, Text, map, Option, none, some, is_letter, ◌≡◌, refl, Bool,
  true, List, [], ◌∷◌, codes, ◌++◌,
}
use autosys_clone.Jil.{Lexed, Total, Token, attr_name, value, eof, TokenKind, done}
use autosys_clone.Jil.Comments.{strip_comments, drop_prefix, blob_open}
use autosys_clone.Jil.Comments.Kept.{NoOpen, NoClose, strip_comments-comment}
use autosys_clone.Jil.Attrs.{canonical_key}
use autosys_clone.Jil.Statements.{is_key_char}
use autosys_clone.Jil.Streams.{Stream}
use autosys_clone.Jil.Streams.Assembly.{tokenize-Stream}
use autosys_clone.Jil.Stanza.{raised, key_error, Dict, Parsed, parsed}
use autosys_clone.Jil.Parser.{object, Models, JilOperation, parse_text}
use autosys_clone.Jil.Writer.{format_value, text}
use autosys_clone.Jil.Writer.Values.{is_plain, Plain}
use autosys_clone.Jil.Writer.RoundTrip.{Key, tokenize_entry-format_value}
use autosys_clone.Jil.Lexer.{token, tokenize, tokenize_entry, count_newlines, normalize_text}

comments_test : strip_comments (codes "a: 1  /* inline */ b: 2") ≡ codes "a: 1               b: 2"
unfolding strip_comments
comments_test = refl

abbrev script : List ℕ
script =
    codes "insert_job: extract_sales   job_type: CMD"
    ++ 10 ∷ codes "command: \"echo: hi\"  owner: svc"

tokenize_test :
    tokenize script
    ≡ done (
        token TokenKind.directive (codes "insert_job") 1
        ∷ token TokenKind.job_name (codes "extract_sales") 1
        ∷ token TokenKind.attr_name (codes "job_type") 1
        ∷ token TokenKind.value (codes "CMD") 1
        ∷ token TokenKind.attr_name (codes "command") 2
        ∷ token TokenKind.value (codes "echo: hi") 2
        ∷ token TokenKind.attr_name (codes "owner") 2
        ∷ token TokenKind.value (codes "svc") 2
        ∷ token TokenKind.eof [] 2
        ∷ [])
unfolding tokenize autosys_clone.Prelude.rstrip autosys_clone.Prelude.eq_text
    autosys_clone.Prelude.to_lower
tokenize_test = refl

-- Models that take every job and machine.
abbrev models : Models Dict Dict
models = record {
  parse_job = λ d. object d;
  partial_job = λ d. d;
  machine_def = λ d. object d;
  float_of = λ t. none;
}

abbrev operations :
    Lexed (Parsed (List (JilOperation Dict Dict))) → List (Text × List (Text × Text))
operations (done (parsed ops)) = map (λ op. (op.op, op.attr_pairs)) ops
operations _ = []

parse_text_test :
    operations (parse_text models script)
    ≡ (
      codes "insert",
      (codes "job_name", codes "extract_sales")
          ∷ (codes "job_type", codes "CMD")
          ∷ (codes "command", codes "echo: hi")
          ∷ (codes "owner", codes "svc")
          ∷ [],
    )
      ∷ []
unfolding parse_text autosys_clone.Prelude.rstrip autosys_clone.Prelude.eq_text
    autosys_clone.Prelude.to_lower autosys_clone.Jil.Values.repeatable_attrs
    autosys_clone.Prelude.to_upper
parse_text_test = refl

tokenize-Stream_example :
    Total (Stream (suc (count_newlines (normalize_text script)))) (tokenize script)
tokenize-Stream_example = tokenize-Stream script

abbrev shell : Text
shell = codes "run.sh -v a:b"

abbrev shell_written : Text
shell_written = 34 ∷ shell ++ 34 ∷ []

shell_formatted : format_value (text shell) ≡ some shell_written
unfolding format_value
shell_formatted = refl

command_Key : Key (codes "command")
unfolding Key is_letter is_key_char
command_Key = (refl, (refl, (refl, (refl, (refl, (refl, (refl, (refl, tt))))))))

shell-Plain : Plain shell
unfolding is_plain is_space
shell-Plain = (
  refl,
  (
    refl,
    (refl, (refl, (refl, (refl, (refl, (refl, (refl, (refl, (refl, (refl, (refl, tt))))))))))),
  ),
)

shell_no_blob : drop_prefix blob_open shell ≡ none
unfolding drop_prefix
shell_no_blob = refl

shell-NoOpen : NoOpen (codes "command" ++ b':' ∷ b' ' ∷ shell_written)
unfolding NoOpen drop_prefix
shell-NoOpen = ground arith

tokenize_entry-format_value_example :
    tokenize_entry (record {
      line = 3;
      text = strip_comments (codes "command" ++ b':' ∷ b' ' ∷ shell_written);
      is_header = false;
    })
    ≡ done (token attr_name (canonical_key (codes "command")) 3 ∷ token value shell 3 ∷ [])
tokenize_entry-format_value_example =
    tokenize_entry-format_value 3 (codes "command") shell shell_written command_Key shell-Plain
      shell_no_blob shell_formatted shell-NoOpen

-- A text that looks like a comment is written without quotes, and is lost with the comments.
comment_test :
    (format_value (text (codes "/*x*/")) ≡ some (codes "/*x*/"))
    × (strip_comments (codes "owner: /*x*/") ≡ codes "owner:      ")
unfolding format_value strip_comments
comment_test = (refl, refl)

-- A quote in the value does not come back: the writer escapes none.
abbrev greeting : Text
greeting = codes "say " ++ 34 ∷ codes "hi" ++ 34 ∷ []

greeting_written : format_value (text greeting) ≡ some (34 ∷ greeting ++ 34 ∷ [])
unfolding format_value
greeting_written = refl

greeting_test :
    tokenize (codes "description: " ++ 34 ∷ greeting ++ 34 ∷ [])
    ≡ done (
        token attr_name (codes "description") 1
        ∷ token value (34 ∷ greeting ++ 34 ∷ []) 1
        ∷ token eof [] 1
        ∷ [])
unfolding tokenize autosys_clone.Prelude.rstrip autosys_clone.Prelude.eq_text
    autosys_clone.Prelude.to_lower
greeting_test = refl

-- A dotless i in the sub-command: the lexer takes it, and the parser has no operation for it.
abbrev dotless : Text
dotless = 305 ∷ codes "nsert_job: j"

dotless_test : parse_text models dotless ≡ done (raised (key_error (305 ∷ codes "nsert_job")))
unfolding parse_text autosys_clone.Prelude.rstrip autosys_clone.Prelude.lstrip
    autosys_clone.Prelude.is_space autosys_clone.Prelude.eq_text
dotless_test = refl

two_lines-NoClose : NoClose (codes " two" ++ 10 ∷ codes "lines ")
unfolding NoClose drop_prefix
two_lines-NoClose = ground arith

owner-NoOpen : NoOpen (codes "owner: svc")
unfolding NoOpen drop_prefix
owner-NoOpen = ground arith

strip_comments-comment_example :
    strip_comments (codes "/* two" ++ 10 ∷ codes "lines */" ++ 10 ∷ codes "owner: svc")
    ≡ codes "      " ++ 10 ∷ codes "        " ++ 10 ∷ codes "owner: svc"
strip_comments-comment_example =
    strip_comments-comment (codes " two" ++ 10 ∷ codes "lines ") (codes "owner: svc")
      two_lines-NoClose owner-NoOpen
