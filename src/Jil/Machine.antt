-- ===== src/Jil/Machine.antt =====
-- The definition of a machine (`_machine_members` and the machines of `_parse_stanza` in
-- autosys/parser/jil_parser.py). Python's `float()` is a parameter.
use autosys_clone.Prelude.{
  Option, none, some, List, [], ◌∷◌, Text, codes, eq_text, strip, mem_text, lookup, insert, erase,
  Decimal, if◌then◌else◌,
}
use autosys_clone.Jil.Attrs.{words_of}
use autosys_clone.Jil.Values.{text, number, flag, members, Member, coerce, int_of, int_or_text}
use autosys_clone.Jil.Stanza.{Dict}

-- `_machine_members`: the members, the last one first, and the other pairs, backwards.
abbrev pub Sorted : Type 0
Sorted = List Member × List (Text × Text)

unfoldable pub set_member : (Text → Option Decimal) → Text → Text → Member → Member
unfolding int_of
set_member float_of attr v m =
    if eq_text attr (codes "max_load")
    then record { machine = m.machine; max_load = int_of (strip v); factor = m.factor }
    else record { machine = m.machine; max_load = m.max_load; factor = float_of v }

unfoldable pub sort_pair : (Text → Option Decimal) → Text → Text → Sorted → Sorted
unfolding set_member
sort_pair float_of attr v ([], top) =
    if eq_text attr (codes "machine")
    then (record { machine = v; max_load = none; factor = none } ∷ [], top)
    else ([], (attr, v) ∷ top)
sort_pair float_of attr v (m ∷ ms, top) =
    if eq_text attr (codes "machine")
    then (record { machine = v; max_load = none; factor = none } ∷ m ∷ ms, top)
    else if mem_text attr (words_of (codes "max_load factor"))
    then (set_member float_of attr v m ∷ ms, top)
    else (m ∷ ms, (attr, v) ∷ top)

unfoldable pub machine_members : (Text → Option Decimal) → List (Text × Text) → Sorted → Sorted
unfolding sort_pair
machine_members float_of [] st = st
machine_members float_of ((attr, v) ∷ pairs) st =
    machine_members float_of pairs (sort_pair float_of attr v st)

abbrev pub onto {ℓ} : {A : Type ℓ} → List A → List A → List A
onto [] ys = ys
onto (x ∷ xs) ys = onto xs (x ∷ ys)

unfoldable pub coerce_top : List (Text × Text) → Dict → Dict
unfolding coerce insert
coerce_top [] d = d
coerce_top ((attr, v) ∷ pairs) d = coerce_top pairs (insert attr (coerce attr v) d)

-- The attributes that `MachineDef` takes as integers.
unfoldable pub to_int : Text → Dict → Dict
unfolding lookup insert int_of int_or_text
to_int attr d = elim (lookup attr d) [
  | none ↦ d
  | some v ↦ elim v [
    | text t ↦ insert attr (int_or_text t (int_of (strip t))) d
    | number n ↦ d
    | flag b ↦ d
    | members ms ↦ d
  ]
]

unfoldable pub with_members : List Member → Dict → Dict
unfolding insert erase
with_members [] d = d
with_members (m ∷ ms) d =
    erase (codes "machine") (insert (codes "members") (members (onto (m ∷ ms) [])) d)

-- `MachineDef.model_fields`.
unfoldable pub machine_fields : List Text
machine_fields = words_of (codes "machine_name type host port max_load description members")

unfoldable pub known_fields : Dict → Dict
unfolding machine_fields
known_fields [] = []
known_fields ((k, v) ∷ d) =
    let rest = known_fields d in if mem_text k machine_fields then (k, v) ∷ rest else rest

unfoldable pub machine_dict : Text → Text → Sorted → Dict
unfolding with_members to_int known_fields coerce_top insert erase
machine_dict key name (ms, top) = known_fields (
    with_members ms (
      to_int (codes "max_load")
        (to_int (codes "port") (coerce_top (onto top []) ((key, text name) ∷ [])))))
