-- ===== src/Jil/Stanza.antt =====
-- The attributes of a stanza (`_parse_stanza` of autosys/parser/jil_parser.py, strict mode).
use autosys_clone.Prelude.{
  ℕ, Bool, false, not, ◌&&◌, ◌||◌, Option, none, some, List, [], ◌∷◌, ◌++◌, Text, codes, upper,
  eq_text, strip, mem_text, lookup, insert, erase, is_some, get_or_default, pos, if◌then◌else◌,
}
use autosys_clone.Status.{
  JobStatus, failure, inactive, on_hold, on_ice, on_noexec, success, terminated,
}
use autosys_clone.Status
use autosys_clone.Jil.Comments.{find_text}
use autosys_clone.Jil.Attrs.{words_of}
use autosys_clone.Jil.Values.{
  Value, text, number, flag, members, coerce, repeatable_attrs, job_ops, is_null,
}

-- A dictionary from attributes.
abbrev pub Dict : Type 0
Dict = List (Text × Value)

-- What a JILParseError complains of.
pub data Refusal : Type 0 where
  unexpected_token : Refusal
  outside_stanza : Refusal
  status_not_insert : Refusal
  invalid_status : Refusal

-- Exceptions that name no line: a ValidationError of the pydantic models, a ValueError out of
-- `parse_job`, the KeyError of a sub-command, and the IndexError behind the last token.
pub data Exception : Type 0 where
  validation_error : Exception
  value_error : Exception
  key_error : Text → Exception
  index_error : Exception

pub data Parsed {ℓ} (A : Type ℓ) : Type ℓ where
  parsed : A → Parsed A
  parse_error : Refusal → ℕ → Parsed A
  raised : Exception → Parsed A
  out_of_fuel : Parsed A

abbrev pub bind {ℓ κ} : {A : Type ℓ} {B : Type κ} → Parsed A → (A → Parsed B) → Parsed B
bind (parsed a) f = f a
bind (parse_error what line) f = parse_error what line
bind (raised e) f = raised e
bind out_of_fuel f = out_of_fuel

-- `needle in text`.
unfoldable pub contains : Text → Text → Bool
unfolding find_text
contains needle cs = is_some (find_text needle cs)

-- `_name_key`: the key of the first needle that is in the operation's name.
unfoldable pub name_keys : List (Text × Text)
name_keys =
    (codes "machine", codes "machine_name")
    ∷ (codes "resource", codes "resource_name")
    ∷ (codes "calendar", codes "calendar_name")
    ∷ (codes "glob", codes "global_name")
    ∷ (codes "blob", codes "blob_name")
    ∷ (codes "xinst", codes "xinst_name")
    ∷ (codes "monbro", codes "monbro_name")
    ∷ (codes "job_type", codes "job_type_name")
    ∷ (codes "connectionprofile", codes "profile_name")
    ∷ (codes "alert_policy", codes "policy_name")
    ∷ (codes "view", codes "view_name")
    ∷ (codes "filter", codes "filter_name")
    ∷ (codes "user", codes "user_name")
    ∷ []

first_key : Text → List (Text × Text) → Text
unfolding contains
first_key op [] = codes "job_name"
first_key op ((needle, key) ∷ rest) = if contains needle op then key else first_key op rest

unfoldable pub name_key : Text → Text
unfolding first_key name_keys
name_key op = first_key op name_keys

-- The initial statuses that `insert_job` takes, by their names.
unfoldable pub initial_statuses : List (Text × JobStatus)
initial_statuses =
    (codes "FAILURE", failure)
    ∷ (codes "INACTIVE", inactive)
    ∷ (codes "ON_HOLD", on_hold)
    ∷ (codes "ON_ICE", on_ice)
    ∷ (codes "ON_NOEXEC", on_noexec)
    ∷ (codes "SUCCESS", success)
    ∷ (codes "TERMINATED", terminated)
    ∷ []

unfoldable pub status_result : ℕ → Option JobStatus → Parsed Value
unfolding autosys_clone.Status.value
status_result line none = parse_error invalid_status line
status_result line (some s) = parsed (number (pos (autosys_clone.Status.value s)))

-- `_initial_status`.
unfoldable pub initial_status : Text → Text → ℕ → Parsed Value
unfolding initial_statuses lookup status_result
initial_status op v line =
    if eq_text op (codes "insert")
    then status_result line (lookup (upper (strip v)) initial_statuses)
    else parse_error status_not_insert line

-- The state of the loop over the pairs.
pub record Attrs : Type 0 where
  pub raw_attrs : List (Text × Text)
  pub coerced : Dict
  pub null_attrs : List Text
  pub seen : List Text

-- What a pair does.
pub data Role : Type 0 where
  repeats : Text → Text → Role
  clears : Role
  sets_status : Role
  sets : Role

-- The value that an attribute has so far, where it may be repeated: its text is kept as it is.
unfoldable pub so_far : Text → Dict → Option Text
unfolding lookup
so_far attr d = elim (lookup attr d) [
  | some v ↦ elim v [ text t ↦ some t | number n ↦ none | flag b ↦ none | members ms ↦ none ]
  | none ↦ none
]

unfoldable pub is_clearing : Text → Text → Bool
is_clearing op v = mem_text op (words_of (codes "insert update override")) && is_null v

unfoldable pub role_of : Text → Attrs → Text → Text → Role
unfolding so_far is_clearing job_ops
role_of op st attr v =
    let other =
      if is_clearing op v
      then clears
      else if eq_text attr (codes "status") && mem_text op job_ops
      then sets_status
      else sets in
    elim (lookup attr repeatable_attrs) [
      | none ↦ other
      | some sep ↦ elim (so_far attr st.coerced) [
        | none ↦ other
        | some t ↦ if mem_text attr st.seen && not (is_null v) then repeats sep t else other
      ]
    ]

abbrev add_null : Text → Text → List Text → List Text
add_null op attr nulls =
    if eq_text op (codes "insert") || mem_text attr nulls then nulls else nulls ++ attr ∷ []

-- The body of the loop.
unfoldable pub apply_role : Text → ℕ → Attrs → Text → Text → Role → Parsed Attrs
unfolding insert erase lookup initial_status coerce
apply_role op line st attr v (repeats sep t) = parsed (record {
  raw_attrs = insert attr (get_or_default [] (lookup attr st.raw_attrs) ++ sep ++ v) st.raw_attrs;
  coerced = insert attr (text (t ++ sep ++ v)) st.coerced;
  null_attrs = st.null_attrs;
  seen = attr ∷ st.seen;
})
apply_role op line st attr v clears = parsed (record {
  raw_attrs = insert attr v st.raw_attrs;
  coerced = erase attr st.coerced;
  null_attrs = add_null op attr st.null_attrs;
  seen = attr ∷ st.seen;
})
apply_role op line st attr v sets_status = bind (initial_status op v line) (λ s. parsed (record {
  raw_attrs = insert attr v st.raw_attrs;
  coerced = insert attr s st.coerced;
  null_attrs = st.null_attrs;
  seen = attr ∷ st.seen;
}))
apply_role op line st attr v sets = parsed (record {
  raw_attrs = insert attr v st.raw_attrs;
  coerced = insert attr (coerce attr v) st.coerced;
  null_attrs = st.null_attrs;
  seen = attr ∷ st.seen;
})

unfoldable pub apply_pairs : Text → ℕ → List (Text × Text) → Attrs → Parsed Attrs
unfolding role_of apply_role
apply_pairs op line [] st = parsed st
apply_pairs op line ((attr, v) ∷ pairs) st =
    bind (apply_role op line st attr v (role_of op st attr v)) (apply_pairs op line pairs)

-- The pairs of `override ... delete`, without the flag.
unfoldable pub without_delete : List (Text × Text) → List (Text × Text)
without_delete [] = []
without_delete ((k, v) ∷ pairs) =
    let rest = without_delete pairs in if eq_text k (codes "delete") then rest else (k, v) ∷ rest

unfoldable pub has_delete : List (Text × Text) → Bool
has_delete [] = false
has_delete ((k, v) ∷ pairs) = eq_text k (codes "delete") || has_delete pairs

-- The operation and the pairs, where an override deletes.
unfoldable pub stanza_op : Text → List (Text × Text) → Text × List (Text × Text)
unfolding has_delete without_delete
stanza_op op pairs =
    if eq_text op (codes "override") && has_delete pairs
    then (codes "override_delete", without_delete pairs)
    else (op, pairs)

unfoldable pub erase_all : List Text → Dict → Dict
unfolding erase
erase_all [] d = d
erase_all (attr ∷ attrs) d = erase_all attrs (erase attr d)
