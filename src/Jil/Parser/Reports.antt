-- ===== src/Jil/Parser/Reports.antt =====
-- The reports that the strict parser makes over tokens and attributes (`_parse_stanza` of
-- autosys/parser/jil_parser.py).
use autosys_clone.Prelude.{
  ℕ, ◌≡◌, refl, sym, ap, ◌∙◌, ◌≤◌, ◌⊎◌, inl, inr, Bool, true, false, Option, none, some, List, [],
  ◌∷◌, Text, codes, eq_text, eq_text_iff, Bool-cases, upper, strip, mem_text, lookup, erase, length,
  all, is_some, if◌then◌else◌, if_both, arith, All, subst,
}
use autosys_clone.Jil.{TokenKind, Token, directive, job_name, attr_name, value, raw, eof}
use autosys_clone.Status.{JobStatus}
use autosys_clone.Jil.Values.{directive_to_op}
use autosys_clone.Jil.Lines.{directives}
use autosys_clone.Jil.Stanza.{
  Dict, Refusal, unexpected_token, outside_stanza, status_not_insert, invalid_status, Exception,
  validation_error, value_error, key_error, index_error, raised, Parsed, parsed, parse_error,
  out_of_fuel, bind, initial_status, status_result, initial_statuses, Attrs, Role, repeats, clears,
  sets_status, sets, role_of, apply_role, apply_pairs, erase_all,
}
use autosys_clone.Jil.Streams.{Within, Pair, Stream, IsSubCommand}
use autosys_clone.Jil.Parser.{
  expect, consume, take_pair, last_token, take_pairs, Validated, object, invalid, no_dictionary,
  valid, op_of,
}

-- The refusals that name a fault of the text: a token outside of a stanza, a status that is no
-- initial one or stands in no insert_job.
unfoldable pub IsReport : Refusal → Type 0
IsReport outside_stanza = Unit
IsReport status_not_insert = Unit
IsReport invalid_status = Unit
IsReport _ = ⊥

-- The exceptions that get through: those of the models, and the KeyError of a sub-command that is
-- not in the list of the sub-commands, since it matches only by the case of other letters.
unfoldable pub GetsThrough : Exception → Type 0
GetsThrough validation_error = Unit
GetsThrough value_error = Unit
GetsThrough (key_error word) = IsSubCommand word × (mem_text word directives ≡ false)
GetsThrough index_error = ⊥

-- The parser ends, with a result of the given kind, a report on a line of the text, or one of these
-- exceptions.
unfoldable pub Ends {ℓ} : {A : Type ℓ} → ℕ → (A → Type 0) → Parsed A → Type 0
Ends last P (parsed a) = P a
Ends last P (parse_error what line) = Within last line × IsReport what
Ends last P (raised e) = GetsThrough e
Ends last P out_of_fuel = ⊥

pub Ends-bind {ℓ κ} :
    {A : Type ℓ} {B : Type κ} (last : ℕ) (P : A → Type 0) (Q : B → Type 0) (r : Parsed A)
    (f : A → Parsed B)
    → Ends last P r
    → ((a : A) → P a → Ends last Q (f a))
    → Ends last Q (bind r f)
unfolding Ends
Ends-bind last P Q (parsed a) f h k = k a h
Ends-bind last P Q (parse_error what line) f h k = h
Ends-bind last P Q (raised e) f h k = h
Ends-bind last P Q out_of_fuel f h k = absurd h

pub Pair-cases :
    (k l : TokenKind) (name : Text)
    → Pair k l name
    → ((k ≡ directive) × (l ≡ job_name) × IsSubCommand name) ⊎ ((k ≡ attr_name) × (l ≡ value))
unfolding Pair
Pair-cases directive job_name name h = inl (refl, refl, h)
Pair-cases attr_name value name h = inr (refl, refl)
Pair-cases _ _ name h = absurd h

-- The tokens left are a stream that is no longer.
unfoldable pub Left : ℕ → ℕ → List (Text × Text) × List Token → Type 0
Left last n (pairs, ts) = Stream last ts × (length ts ≤ n)

last_token-Ends :
    (last n : ℕ) (t : Token) (k : TokenKind)
    → k ≡ eof
    → Left last n ([], t ∷ [])
    → Ends last (Left last n) (last_token k t)
unfolding last_token Ends
last_token-Ends last n t k end h =
    subst (λ k'. Ends last (Left last n) (last_token k' t)) (sym end) h

take_pair-Ends :
    (last n : ℕ) (t v : Token) (ts : List Token) (k l : TokenKind) (name : Text)
    (rest : Parsed (List (Text × Text) × List Token))
    → Pair k l name
    → Left last n ([], t ∷ v ∷ ts)
    → Ends last (Left last n) rest
    → Ends last (Left last n) (take_pair k l t v ts rest)
unfolding take_pair Ends Pair Left
take_pair-Ends last n t v ts directive job_name name rest p h r = h
take_pair-Ends last n t v ts attr_name value name rest p h r =
    Ends-bind last (Left last n) (Left last n) rest
      (λ (pairs, left). parsed ((t.text, v.text) ∷ pairs, left)) r (λ (pairs, left) q. q)
take_pair-Ends last n t v ts _ _ name rest p h r = absurd p

pub take_pairs-Ends :
    (last n : ℕ) (ts : List Token)
    → Stream last ts
    → length ts ≤ n
    → Ends last (Left last n) (take_pairs ts)
unfolding take_pairs Stream Left
take_pairs-Ends last n [] h le = absurd h
take_pairs-Ends last n (t ∷ []) (end, on) le = last_token-Ends last n t t.kind end ((end, on), le)
take_pairs-Ends last n (t ∷ v ∷ ts) (p, w, h) le =
    take_pair-Ends last n t v ts t.kind v.kind t.text (take_pairs ts) p ((p, w, h), le)
      (take_pairs-Ends last n ts h (omega arith))

status_result-Ends :
    (last line : ℕ) (o : Option JobStatus)
    → Within last line
    → Ends last (λ s. Unit) (status_result line o)
unfolding status_result Ends IsReport
status_result-Ends last line none w = (w, tt)
status_result-Ends last line (some s) w = tt

initial_status-Ends :
    (last : ℕ) (op v : Text) (line : ℕ)
    → Within last line
    → Ends last (λ s. Unit) (initial_status op v line)
unfolding initial_status Ends IsReport
initial_status-Ends last op v line w =
    if_both (Ends last (λ s. Unit)) (eq_text op (codes "insert"))
      (status_result-Ends last line (lookup (upper (strip v)) initial_statuses) w) (w, tt)

apply_role-Ends :
    (last : ℕ) (op : Text) (line : ℕ) (st : Attrs) (attr v : Text) (role : Role)
    → Within last line
    → Ends last (λ st'. Unit) (apply_role op line st attr v role)
unfolding apply_role Ends
apply_role-Ends last op line st attr v (repeats sep t) w = tt
apply_role-Ends last op line st attr v clears w = tt
apply_role-Ends last op line st attr v sets w = tt
apply_role-Ends last op line st attr v sets_status w =
    Ends-bind last (λ s. Unit) (λ st'. Unit) (initial_status op v line) _
      (initial_status-Ends last op v line w) (λ s u. tt)

pub apply_pairs-Ends :
    (last : ℕ) (op : Text) (line : ℕ) (pairs : List (Text × Text)) (st : Attrs)
    → Within last line
    → Ends last (λ st'. Unit) (apply_pairs op line pairs st)
unfolding apply_pairs Ends
apply_pairs-Ends last op line [] st w = tt
apply_pairs-Ends last op line ((attr, v) ∷ pairs) st w =
    Ends-bind last (λ st'. Unit) (λ st'. Unit) (apply_role op line st attr v (role_of op st attr v))
      (apply_pairs op line pairs) (apply_role-Ends last op line st attr v (role_of op st attr v) w)
      (λ st' u. apply_pairs-Ends last op line pairs st' w)

pub valid-Ends {ι} : {A : Type ι} (last : ℕ) (v : Validated A) → Ends last (λ a. Unit) (valid v)
unfolding Ends GetsThrough
valid-Ends last (object a) = tt
valid-Ends last invalid = tt
valid-Ends last no_dictionary = tt

expect_self : (k : TokenKind) → expect k k ≡ true
unfolding expect
expect_self directive = refl
expect_self job_name = refl
expect_self attr_name = refl
expect_self value = refl
expect_self raw = refl
expect_self eof = refl

pub consume-Ends :
    (last : ℕ) (k : TokenKind) (t : Token) (ts : List Token)
    → t.kind ≡ k
    → Ends {A = Token × List Token} last (λ p. p ≡ (t, ts)) (consume k (t ∷ ts))
unfolding consume Ends
consume-Ends last k t ts e =
    subst
      (λ b.
        Ends {A = Token × List Token} last (λ p. p ≡ (t, ts))
          (if b then parsed (t, ts) else parse_error unexpected_token t.line))
      (sym (ap (expect k) e ∙ expect_self k)) refl

-- A test that every member of a list passes.
all-mem_text :
    (p : Text → Bool) (x : Text) (xs : List Text)
    → mem_text x xs ≡ true
    → all p xs ≡ true
    → p x ≡ true
all-mem_text p x [] m h = absurd cc
all-mem_text p x (y ∷ ys) m h = elim (Bool-cases (eq_text x y)) [
  | inl same ↦ rw ((eq_text_iff x y).0 same) (ground arith)
  | inr differs ↦ all-mem_text p x ys (ground arith) (ground arith)
]

-- Each sub-command of the list has an operation.
directive_to_op-known :
    (name : Text) → mem_text name directives ≡ true → is_some (directive_to_op name) ≡ true
unfolding directive_to_op directives eq_text
directive_to_op-known name known =
    all-mem_text (λ d. is_some (directive_to_op d)) name directives known refl

-- A sub-command without an operation is not in the list.
pub op_of-Ends :
    (last : ℕ) (word : Text) (o : Option Text)
    → IsSubCommand word
    → directive_to_op word ≡ o
    → Ends last (λ op. Unit) (op_of word o)
unfolding Ends GetsThrough
op_of-Ends last word (some op) s e = tt
op_of-Ends last word none s e = elim (Bool-cases (mem_text word directives)) [
  | inl known ↦ absurd (let h = directive_to_op-known word known in cc)
  | inr unlisted ↦ (s, unlisted)
]

lookup-erase : (k j : Text) (d : Dict) → lookup j d ≡ none → lookup j (erase k d) ≡ none
unfolding lookup erase
lookup-erase k j [] h = refl
lookup-erase k j ((i, v) ∷ d) h = ground (arith, lookup-erase k j d)

lookup-erased : (k : Text) (d : Dict) → lookup k (erase k d) ≡ none
unfolding lookup erase
lookup-erased k [] = refl
lookup-erased k ((i, v) ∷ d) = ground (arith, lookup-erased k d)

erase_all-keeps :
    (ks : List Text) (j : Text) (d : Dict) → lookup j d ≡ none → lookup j (erase_all ks d) ≡ none
unfolding erase_all
erase_all-keeps [] j d h = h
erase_all-keeps (k ∷ ks) j d h = erase_all-keeps ks j (erase k d) (lookup-erase k j d h)

pub erase_all-erased : (ks : List Text) (d : Dict) → All (λ k. lookup k (erase_all ks d) ≡ none) ks
unfolding erase_all
erase_all-erased [] d = tt
erase_all-erased (k ∷ ks) d =
    (erase_all-keeps ks k (erase k d) (lookup-erased k d), erase_all-erased ks (erase k d))
