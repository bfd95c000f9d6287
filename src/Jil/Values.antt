-- ===== src/Jil/Values.antt =====
-- The values of attributes (the tables and `_coerce` of autosys/parser/jil_parser.py).
use autosys_clone.Prelude.{
  ℕ, ◌+◌, ◌-◌, ◌*◌, Bool, true, false, not, ◌&&◌, Option, none, some, List, [], ◌∷◌, ◌++◌, Text,
  codes, lower, upper, is_digit, eq_text, strip, mem_text, lookup, ℤ, Decimal, signed, ◌==◌,
  if◌then◌else◌,
}
use autosys_clone.Jil.Attrs.{words_of}

-- A member of a virtual machine, with its `max_load` and `factor`.
pub record Member : Type 0 where
  pub machine : Text
  pub max_load : Option ℤ
  pub factor : Option Decimal

-- The values of `coerced`: those of the attributes, and the members of a machine.
pub data Value : Type 0 where
  text : Text → Value
  number : ℤ → Value
  flag : Bool → Value
  members : List Member → Value

unfoldable pub bool_attrs : List Text
bool_attrs =
    words_of (codes "alarm_if_fail alarm_if_terminated box_terminator job_terminator send_report")
    ++ words_of (codes "date_conditions auto_delete continuous")

unfoldable pub int_attrs : List Text
int_attrs =
    words_of (codes "n_retrys max_exit_success max_run_alarm min_run_alarm term_run_time job_load")
    ++ words_of (codes "max_load watch_file_min_size watch_interval command_timeout")
    ++ words_of (codes "connection_retry connection_timeout")

unfoldable pub true_tokens : List Text
true_tokens = words_of (codes "1 y yes t true")

-- Digits, of which single underscores may stand between two. `fresh` holds where a digit must come.
unfoldable pub read_digits : Bool → ℕ → Text → Option ℕ
unfolding is_digit
read_digits fresh n [] = if fresh then none else some n
read_digits fresh n (c ∷ cs) = elim (is_digit c) [
  | true ↦ read_digits false (10 * n + (c - b'0')) cs
  | false ↦ elim (not fresh && c == b'_') [ true ↦ read_digits true n cs | false ↦ none ]
]

abbrev with_sign : Bool → Option ℕ → Option ℤ
with_sign minus none = none
with_sign minus (some n) = some (signed minus n)

-- `int(s)`, on a stripped text.
unfoldable pub int_of : Text → Option ℤ
unfolding read_digits
int_of [] = none
int_of (c ∷ cs) =
    if c == b'-'
    then with_sign true (read_digits true 0 cs)
    else if c == b'+'
    then with_sign false (read_digits true 0 cs)
    else with_sign false (read_digits true 0 (c ∷ cs))

unfoldable pub int_or_text : Text → Option ℤ → Value
int_or_text raw none = text raw
int_or_text raw (some n) = number n

-- `_coerce`.
unfoldable pub coerce : Text → Text → Value
unfolding bool_attrs int_attrs true_tokens int_of int_or_text
coerce attr raw =
    if mem_text attr bool_attrs
    then flag (mem_text (lower (strip raw)) true_tokens)
    else if mem_text attr int_attrs
    then int_or_text raw (int_of (strip raw))
    else text raw

-- `_REPEATABLE_ATTRS`: the separator of each.
unfoldable pub repeatable_attrs : List (Text × Text)
repeatable_attrs =
    (codes "envvars", codes ", ")
    ∷ (codes "sp_arg", 10 ∷ [])
    ∷ (codes "sap_step_parms", 10 ∷ [])
    ∷ (codes "ws_parameter", 10 ∷ [])
    ∷ (codes "j2ee_parameter", 10 ∷ [])
    ∷ []

-- `_DIRECTIVE_TO_OP`: the sub-commands that are not their own operation, then the others.
unfoldable pub renamed_ops : List (Text × Text)
renamed_ops =
    (codes "insert_job", codes "insert")
    ∷ (codes "update_job", codes "update")
    ∷ (codes "delete_job", codes "delete")
    ∷ (codes "override_job", codes "override")
    ∷ (codes "rename_job", codes "rename")
    ∷ []

unfoldable pub own_ops : List Text
own_ops =
    words_of (codes "insert_machine update_machine delete_machine insert_job_type update_job_type")
    ++ words_of (codes "delete_job_type insert_monbro update_monbro delete_monbro insert_blob")
    ++ words_of (codes "delete_blob insert_glob delete_glob insert_xinst update_xinst delete_xinst")
    ++ words_of (codes "insert_resource update_resource delete_resource insert_connectionprofile")
    ++ words_of (codes "delete_connectionprofile insert_calendar update_calendar delete_calendar")
    ++ words_of (codes "delete_box update_blob update_glob update_connectionprofile insert_view")
    ++ words_of (codes "modify_view delete_view insert_filter modify_filter delete_filter")
    ++ words_of (codes "insert_alert_policy modify_alert_policy delete_alert_policy delete_user")

unfoldable pub directive_to_op : Text → Option Text
unfolding renamed_ops own_ops lookup
directive_to_op name = elim (lookup name renamed_ops) [
  | some op ↦ some op
  | none ↦ if mem_text name own_ops then some name else none
]

-- `_JOB_OPS`.
unfoldable pub job_ops : List Text
job_ops = words_of (codes "insert update delete override override_delete rename delete_box")

-- `value.strip().upper() == "NULL"`.
abbrev pub is_null : Text → Bool
is_null v = eq_text (upper (strip v)) (codes "NULL")
