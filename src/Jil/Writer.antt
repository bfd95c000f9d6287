-- ===== src/Jil/Writer.antt =====
-- JIL text out of a job (autosys/parser/jil_writer.py). A job is its name, its type and what
-- `model_dump()` gives.
pub mod Values
pub mod RoundTrip
use autosys_clone.Prelude.{
  ℕ, zero, suc, ◌+◌, ◌/◌, ◌%◌, ◌≡◌, Bool, true, false, not, ◌&&◌, ◌||◌, Option, none, some, List,
  [], ◌∷◌, ◌++◌, Text, codes, lower, eq_text, lt_text, mem_text, lookup, erase, get_or_default,
  is_empty, is_some, length, any, ℤ, pos, negsuc, eqb_ℤ, ltb, ◌==◌, if◌then◌else◌,
}
use autosys_clone.Jil.Attrs.{words_of}
use autosys_clone.Jil.Quotes.{newline, tab, quote}
use autosys_clone.Jil.Lexer.{split_lines}

-- A value of `model_dump()`.
pub data Field : Type 0 where
  null : Field
  flag : Bool → Field
  number : ℤ → Field
  text : Text → Field
  items : List Text → Field

-- `_needs_quoting`.
unfoldable pub needs_quoting : Text → Bool
needs_quoting v = any (λ c. c == b' ' || c == tab || c == b':') v

-- The digits of a number, on fuel for its size.
unfoldable pub digits : ℕ → ℕ → Text → Text
digits zero n behind = behind
digits (suc fuel) n behind =
    let behind' = (b'0' + n % 10) ∷ behind in
    let rest = digits fuel (n / 10) behind' in if ltb n 10 then behind' else rest

abbrev decimal : ℕ → Text
decimal n = digits (suc n) n []

unfoldable pub integer_text : ℤ → Text
unfolding digits
integer_text (pos n) = decimal n
integer_text (negsuc n) = b'-' ∷ decimal (suc n)

-- `",".join(...)`.
unfoldable pub joined_items : List Text → Text
joined_items [] = []
joined_items (v ∷ []) = v
joined_items (v ∷ w ∷ vs) = v ++ b',' ∷ joined_items (w ∷ vs)

unfoldable pub quoted : Text → Text
unfolding needs_quoting
quoted v = if needs_quoting v then quote ∷ v ++ quote ∷ [] else v

abbrev non_empty : Text → Option Text
non_empty [] = none
non_empty (c ∷ cs) = some (quoted (c ∷ cs))

-- `_format_value`.
unfoldable pub format_value : Field → Option Text
unfolding integer_text joined_items quoted
format_value null = none
format_value (flag b) = some (if b then codes "1" else codes "0")
format_value (number n) = some (integer_text n)
format_value (items []) = none
format_value (items (v ∷ vs)) = some (quoted (joined_items (v ∷ vs)))
format_value (text v) = non_empty v

-- `_ATTR_ORDER`.
unfoldable pub attr_order : List Text
attr_order =
    words_of (codes "owner permission description box_name box_success box_failure box_terminator")
    ++ words_of
        (codes "job_terminator command machine run_window profile std_out_file std_err_file")
    ++ words_of
        (codes "std_in_file start_times start_mins days_of_week run_calendar exclude_calendar")
    ++ words_of
        (codes "date_conditions term_run_time priority timezone condition n_retrys max_run_alarm")
    ++ words_of
        (codes "min_run_alarm alarm_if_fail alarm_if_terminated job_load max_load auto_delete")
    ++ words_of
        (codes "application sub_application command_timeout continuous cpu_usage disk_space")
    ++ words_of (codes "auth_string connection_retry connection_timeout notification_msg")
    ++ words_of (
        codes
          "notification_emailaddress notification_type send_report ftp_server ftp_user ftp_type")
    ++ words_of (codes "ftp_src ftp_dest ftp_server_name ftp_server_port ftp_transfer_direction")
    ++ words_of (codes "ftp_transfer_type ftp_remote_name ftp_local_name ftp_use_SSL watch_file")
    ++ words_of (codes "watch_file_min_size watch_interval resources")

unfoldable pub bool_defaults : List Text
bool_defaults =
    words_of (codes "alarm_if_fail alarm_if_terminated box_terminator job_terminator")
    ++ words_of (codes "date_conditions send_report auto_delete continuous")

unfoldable pub int_defaults : List (Text × ℤ)
int_defaults =
    (codes "n_retrys", pos 0)
    ∷ (codes "job_load", pos 1)
    ∷ (codes "watch_file_min_size", pos 0)
    ∷ (codes "watch_interval", pos 60)
    ∷ []

unfoldable pub skip_always : List Text
skip_always =
    words_of
      (codes "job_name job_type status last_start last_end last_run_date created_at updated_at")
    ++ words_of (codes "extra_attrs")

unfoldable pub legacy_ftp : List Text
legacy_ftp = words_of (codes "ftp_server ftp_user ftp_type ftp_src ftp_dest")

-- The integer that a value is, where it is one: True is 1.
abbrev as_int : Field → Option ℤ
as_int (flag b) = some (if b then pos 1 else pos 0)
as_int (number n) = some n
as_int null = none
as_int (text t) = none
as_int (items vs) = none

abbrev equals_int : Option ℤ → Option ℤ → Bool
equals_int (some n) (some m) = eqb_ℤ n m
equals_int _ _ = false

-- What is written for an attribute with a formatted value; none where it has its default.
unfoldable pub written : Text → Field → Text → Option Text
unfolding bool_defaults int_defaults lookup
written attr v formatted =
    if mem_text attr bool_defaults
    then (if equals_int (as_int v) (some (pos 1)) then some (codes "1") else none)
    else if equals_int (as_int v) (lookup attr int_defaults)
    then none
    else some formatted

unfoldable pub write_field : Text → Field → Option Text → Option Text
unfolding written
write_field attr v none = none
write_field attr v (some formatted) = written attr v formatted

abbrev add_attr : Text → Option Text → List (Text × Text) → List (Text × Text)
add_attr attr none rest = rest
add_attr attr (some w) rest = (attr, w) ∷ rest

-- The known attributes that are written.
unfoldable pub known_attrs : Bool → List (Text × Field) → List (Text × Text)
unfolding skip_always legacy_ftp write_field format_value
known_attrs pdf_ftp [] = []
known_attrs pdf_ftp ((attr, v) ∷ fields) =
    let rest = known_attrs pdf_ftp fields in
    if mem_text attr skip_always || (pdf_ftp && mem_text attr legacy_ftp)
    then rest
    else add_attr attr (write_field attr v (format_value v)) rest

-- The sort key: the place in `_ATTR_ORDER`, then the name.
unfoldable pub place : Text → List Text → ℕ
place attr [] = 0
place attr (a ∷ order) = let rest = place attr order in if eq_text attr a then 0 else suc rest

unfoldable pub comes_before : Text → Text → Bool
unfolding place attr_order lt_text
comes_before a b =
    let m = place a attr_order in let n = place b attr_order in ltb m n || (m == n && lt_text a b)

-- `attrs.sort(key=_sort_key)`, which is stable.
unfoldable pub sort_in : Text × Text → List (Text × Text) → List (Text × Text)
unfolding comes_before
sort_in p [] = p ∷ []
sort_in p (q ∷ qs) =
    let rest = sort_in p qs in if comes_before q.0 p.0 then q ∷ rest else p ∷ q ∷ qs

unfoldable pub sort_attrs : List (Text × Text) → List (Text × Text)
unfolding sort_in
sort_attrs [] = []
sort_attrs (p ∷ ps) = sort_in p (sort_attrs ps)

-- The lines of an extra attribute.
unfoldable pub part_lines : Text → List Text → List (Text × Text)
unfolding format_value
part_lines k [] = []
part_lines k (part ∷ parts) =
    (k, get_or_default (codes "\"\"") (format_value (text part))) ∷ part_lines k parts

unfoldable pub extra_lines : List (Text × Option Text) → List (Text × Text)
unfolding part_lines split_lines
extra_lines [] = []
extra_lines ((k, none) ∷ extras) = (k, codes "\"\"") ∷ extra_lines extras
extra_lines ((k, some v) ∷ extras) = part_lines k (split_lines v) ++ extra_lines extras

-- A job, with `extra_attrs` apart.
pub record Dump : Type 0 where
  pub job_name : Text
  pub job_type : Text
  pub fields : List (Text × Field)
  pub extras : List (Text × Option Text)

unfoldable pub op_directive : Text → Text
op_directive op =
    if eq_text op (codes "update")
    then codes "update_job"
    else if eq_text op (codes "delete")
    then codes "delete_job"
    else if eq_text op (codes "override")
    then codes "override_job"
    else codes "insert_job"

-- The type in the header: the writer's code of a type, or the type that the user defines.
abbrev user_type : Text → Option (Option Text) → Text
user_type jt (some (some (c ∷ cs))) = c ∷ cs
user_type jt (some (some [])) = jt
user_type jt (some none) = jt
user_type jt none = jt

unfoldable pub header_type : Text → List (Text × Option Text) → Text
unfolding lookup
header_type job_type extras =
    if eq_text job_type (codes "FILEWATCH")
    then codes "FW"
    else if eq_text job_type (codes "USERDEFINED")
    then user_type job_type (lookup (codes "user_job_type") extras)
    else job_type

unfoldable pub attr_lines : List (Text × Text) → Text
attr_lines [] = []
attr_lines ((attr, v) ∷ attrs) = newline ∷ attr ++ b':' ∷ b' ' ∷ v ++ attr_lines attrs

abbrev has_ftp_name : List (Text × Option Text) → Bool
has_ftp_name extras = any (λ (k, v). eq_text (lower k) (codes "ftp_server_name")) extras

-- `job_to_jil`.
unfoldable pub job_to_jil : Dump → Text → Text
unfolding op_directive header_type known_attrs sort_attrs extra_lines attr_lines erase
job_to_jil job op =
    let extras = erase (codes "user_job_type") job.extras in
    op_directive op
    ++ codes ": "
    ++ job.job_name
    ++ codes "   job_type: "
    ++ header_type job.job_type job.extras
    ++ attr_lines (sort_attrs (known_attrs (has_ftp_name extras) job.fields) ++ extra_lines extras)
