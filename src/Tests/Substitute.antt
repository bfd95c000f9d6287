-- ===== src/Tests/Substitute.antt =====
-- The variable substitution at a concrete template.
use autosys_clone.Prelude.{
  ◌⊎◌, mem_text, lookup, some, false, ℕ, ◌≡◌, refl, Bool, true, false, Option, none, some, List, [],
  ◌∷◌, Text, codes,
}
use autosys_clone.Substitute.{Context, value_of, expanded, undefined, substitute, list_variables}
use autosys_clone.Substitute.JobAttrs.{
  Attrs, attributes, Expands, Distinct, expandable_attrs, substitute_job_attrs,
  substitute_job_attrs-Expands,
}
use autosys_clone.Substitute.Strict.{
  first_undefined, strict_result, substitute-strict, Undefined, substitute-lax,
}

abbrev template : Text
template = codes "run %%DATE%% %%env%% 100%%"

abbrev morning : Context
morning = record {
  globs = (codes "Region", codes "EU") ∷ [];
  moment = record { year = 2024; month = 3; day = 9; hour = 6; minute = 5 };
  autorun = true;
}

strict_test : substitute true morning template ≡ undefined (codes "ENV")
unfolding substitute autosys_clone.Prelude.eq_text autosys_clone.Prelude.to_upper
    autosys_clone.Prelude.insert
strict_test = refl

lax_test : substitute false morning template ≡ expanded (codes "run 03092024 %%env%% 100%%")
unfolding substitute autosys_clone.Prelude.eq_text autosys_clone.Prelude.to_upper
    autosys_clone.Prelude.insert
lax_test = refl

substitute-strict_example :
    substitute true morning template
    ≡ strict_result
        (first_undefined morning (list_variables template))
        (substitute false morning template)
substitute-strict_example = substitute-strict morning template

abbrev unset : Text
unset = codes "%%A%% or %%b%%"

unset-Undefined : Undefined morning (list_variables unset)
unfolding list_variables value_of autosys_clone.Prelude.eq_text autosys_clone.Prelude.to_upper
    autosys_clone.Prelude.insert
unset-Undefined = (refl, (refl, tt))

substitute-lax_example : substitute false morning unset ≡ expanded unset
substitute-lax_example = substitute-lax morning unset unset-Undefined

abbrev attrs : Attrs
attrs = (codes "machine", codes "%%env%%") ∷ (codes "command", codes "run %%DD%%") ∷ []

abbrev expanded_attrs : Attrs
expanded_attrs = (codes "machine", codes "%%env%%") ∷ (codes "command", codes "run 09") ∷ []

attrs_test : substitute_job_attrs true morning expandable_attrs attrs ≡ attributes expanded_attrs
unfolding substitute_job_attrs autosys_clone.Prelude.eq_text autosys_clone.Prelude.to_upper
attrs_test = refl

keys-Distinct : Distinct expandable_attrs
unfolding Distinct autosys_clone.Prelude.eq_text
keys-Distinct = (refl, (refl, (refl, (refl, (refl, (refl, (refl, (refl, tt))))))))

command_found : lookup (codes "command") attrs ≡ some (codes "run %%DD%%")
unfolding lookup autosys_clone.Prelude.eq_text
command_found = refl

substitute_job_attrs-Expands_example :
    ((mem_text (codes "command") expandable_attrs ≡ true)
      × Expands true morning (codes "run %%DD%%") (lookup (codes "command") expanded_attrs))
    ⊎ ((mem_text (codes "command") expandable_attrs ≡ false)
        × (lookup (codes "command") expanded_attrs ≡ some (codes "run %%DD%%")))
substitute_job_attrs-Expands_example =
    substitute_job_attrs-Expands true morning expandable_attrs attrs expanded_attrs
      (codes "command") (codes "run %%DD%%") keys-Distinct attrs_test command_found
