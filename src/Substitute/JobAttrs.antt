-- ===== src/Substitute/JobAttrs.antt =====
-- The substitution in the attributes of a job (`substitute_job_attrs` in
-- autosys/parser/variable_sub.py). Python takes the members of a set of texts in no fixed order, so
-- the order is an argument.
use autosys_clone.Prelude.{
  ◌⊎◌, subst, ◌≡◌, refl, sym, ap, ◌∙◌, inl, inr, Bool, true, false, Option, none, some, List, [],
  ◌∷◌, Text, codes, eq_text, eq_text_iff, eq_text_self, mem_text, lookup, insert, lookup-insert,
  arith, Bool-cases,
}
use autosys_clone.Substitute.{Context, Substituted, expanded, undefined, substitute}

-- `_EXPANDABLE_ATTRS`, in one of its orders.
abbrev pub expandable_attrs : List Text
expandable_attrs =
    codes "command"
    ∷ codes "std_out_file"
    ∷ codes "std_err_file"
    ∷ codes "std_in_file"
    ∷ codes "watch_file"
    ∷ codes "ftp_src"
    ∷ codes "ftp_dest"
    ∷ codes "notification_msg"
    ∷ []

abbrev pub Attrs : Type 0
Attrs = List (Text × Text)

-- The attributes, or the name of an UndefinedVariableError.
pub data Expanded : Type 0 where
  attributes : Attrs → Expanded
  missing : Text → Expanded

unfoldable pub store : Text → Attrs → Substituted → Expanded
unfolding insert
store key d (expanded v) = attributes (insert key v d)
store key d (undefined name) = missing name

-- One attribute, from its value.
unfoldable pub expand_value : Bool → Context → Text → Attrs → Option Text → Expanded
unfolding store substitute
expand_value strict ctx key d none = attributes d
expand_value strict ctx key d (some []) = attributes d
expand_value strict ctx key d (some (c ∷ cs)) = store key d (substitute strict ctx (c ∷ cs))

abbrev pub and_next : Expanded → (Attrs → Expanded) → Expanded
and_next (attributes d) f = f d
and_next (missing name) f = missing name

-- `substitute_job_attrs`, where `keys` are the expandable attributes.
unfoldable pub substitute_job_attrs : Bool → Context → List Text → Attrs → Expanded
unfolding expand_value lookup
substitute_job_attrs strict ctx [] d = attributes d
substitute_job_attrs strict ctx (key ∷ keys) d =
    and_next (expand_value strict ctx key d (lookup key d)) (substitute_job_attrs strict ctx keys)

-- No key stands twice.
unfoldable pub Distinct : List Text → Type 0
Distinct [] = Unit
Distinct (key ∷ keys) = (mem_text key keys ≡ false) × Distinct keys

and_next-attributes :
    (r : Expanded) (f : Attrs → Expanded) (d : Attrs)
    → and_next r f ≡ attributes d
    → (d1 : Attrs) × (r ≡ attributes d1) × (f d1 ≡ attributes d)
and_next-attributes (attributes d1) f d h = (d1, refl, h)
and_next-attributes (missing name) f d h = absurd cc

store-attributes :
    (key : Text) (d d1 : Attrs) (s : Substituted)
    → store key d s ≡ attributes d1
    → (v : Text) × (s ≡ expanded v) × (insert key v d ≡ d1)
unfolding store
store-attributes key d d1 (expanded v) h = (v, refl, cc)
store-attributes key d d1 (undefined name) h = absurd cc

-- The other attributes stay.
expand_value-other :
    (strict : Bool) (ctx : Context) (key other : Text) (d d1 : Attrs) (o : Option Text)
    → eq_text key other ≡ false
    → expand_value strict ctx key d o ≡ attributes d1
    → lookup other d1 ≡ lookup other d
unfolding expand_value
expand_value-other strict ctx key other d d1 none n h = cc
expand_value-other strict ctx key other d d1 (some []) n h = cc
expand_value-other strict ctx key other d d1 (some (c ∷ cs)) n h =
    let (v, s, e) = store-attributes key d d1 (substitute strict ctx (c ∷ cs)) h in
    sym (ap (lookup other) e) ∙ lookup-insert key other v d ∙ rw (n) refl

-- A value as it is, with what the substitution makes of it.
pub Expands : Bool → Context → Text → Option Text → Type 0
Expands strict ctx old none = ⊥
Expands strict ctx old (some new) = substitute strict ctx old ≡ expanded new

substitute_nil : (strict : Bool) (ctx : Context) → substitute strict ctx [] ≡ expanded []
unfolding substitute
substitute_nil strict ctx = refl

expand_value-Expands :
    (strict : Bool) (ctx : Context) (key : Text) (d d1 : Attrs) (old : Text) (o : Option Text)
    → o ≡ some old
    → lookup key d ≡ o
    → expand_value strict ctx key d o ≡ attributes d1
    → Expands strict ctx old (lookup key d1)
unfolding expand_value Expands
expand_value-Expands strict ctx key d d1 old none e l h = absurd cc
expand_value-Expands strict ctx key d d1 old (some []) e l h =
    let same : lookup key d1 ≡ some [] = cc in
    let empty : old ≡ [] = cc in rw (same, empty) (substitute_nil strict ctx)
expand_value-Expands strict ctx key d d1 old (some (c ∷ cs)) e l h =
    let (v, s, i) = store-attributes key d d1 (substitute strict ctx (c ∷ cs)) h in
    let found : lookup key d1 ≡ some v =
      sym (ap (lookup key) i) ∙ lookup-insert key key v d ∙ rw (eq_text_self key) refl in
    let is : old ≡ c ∷ cs = cc in rw (found, is) s

other_attr :
    (strict : Bool) (ctx : Context) (keys : List Text) (d d' : Attrs) (key : Text)
    → mem_text key keys ≡ false
    → substitute_job_attrs strict ctx keys d ≡ attributes d'
    → lookup key d' ≡ lookup key d
unfolding substitute_job_attrs
other_attr strict ctx [] d d' key absent h = cc
other_attr strict ctx (k ∷ keys) d d' key absent h =
    let (d1, first, rest) =
      and_next-attributes (expand_value strict ctx k d (lookup k d))
        (substitute_job_attrs strict ctx keys) d' h in
    other_attr strict ctx keys d1 d' key (ground arith) rest
    ∙ expand_value-other strict ctx k key d d1 (lookup k d)
        (ground (arith, eq_text_iff k key, eq_text_iff key k)) first

listed_attr :
    (strict : Bool) (ctx : Context) (keys : List Text) (d d' : Attrs) (key old : Text)
    → Distinct keys
    → mem_text key keys ≡ true
    → lookup key d ≡ some old
    → substitute_job_attrs strict ctx keys d ≡ attributes d'
    → Expands strict ctx old (lookup key d')
unfolding substitute_job_attrs Distinct
listed_attr strict ctx [] d d' key old distinct mem l h = absurd cc
listed_attr strict ctx (k ∷ keys) d d' key old (new, distinct) mem l h =
    let (d1, first, rest) =
      and_next-attributes (expand_value strict ctx k d (lookup k d))
        (substitute_job_attrs strict ctx keys) d' h in
    elim (Bool-cases (eq_text key k)) [
      | inl same ↦
          let is = (eq_text_iff key k).0 same in
          subst (Expands strict ctx old)
            (sym (other_attr strict ctx keys d1 d' key (ap (λ x. mem_text x keys) is ∙ new) rest))
            (subst (λ x. Expands strict ctx old (lookup x d1)) (sym is)
              (expand_value-Expands strict ctx k d d1 old (lookup k d)
                (ap (λ x. lookup x d) (sym is) ∙ l) refl first))
      | inr differs ↦
          listed_attr strict ctx keys d1 d' key old distinct (ground arith)
            (expand_value-other strict ctx k key d d1 (lookup k d)
                (ground (arith, eq_text_iff k key, eq_text_iff key k)) first
              ∙ l)
            rest
    ]

-- Where the substitution in the attributes succeeds, an attribute that is listed has what
-- `substitute` makes of its value, and every other attribute has the value that it had.
pub substitute_job_attrs-Expands :
    (strict : Bool) (ctx : Context) (keys : List Text) (d d' : Attrs) (key old : Text)
    → Distinct keys
    → substitute_job_attrs strict ctx keys d ≡ attributes d'
    → lookup key d ≡ some old
    → ((mem_text key keys ≡ true) × Expands strict ctx old (lookup key d'))
      ⊎ ((mem_text key keys ≡ false) × (lookup key d' ≡ some old))
substitute_job_attrs-Expands strict ctx keys d d' key old distinct h l =
    elim (Bool-cases (mem_text key keys)) [
      | inl mem ↦ inl (mem, listed_attr strict ctx keys d d' key old distinct mem l h)
      | inr absent ↦ inr (absent, other_attr strict ctx keys d d' key absent h ∙ l)
    ]
