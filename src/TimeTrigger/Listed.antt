-- ===== src/TimeTrigger/Listed.antt =====
-- What it means that a day or a minute is listed (`_should_run_today`, `_get_matching_start_times`
-- and `_get_matching_start_mins` in autosys/scheduler/time_trigger.py).
use autosys_clone.Prelude.{
  ℕ, zero, suc, ◌+◌, ◌/◌, ◌%◌, ◌<◌, ◌≡◌, ◌↔◌, ◌⊎◌, inl, inr, refl, sym, ap, ◌∙◌, Bool, true, false,
  Bool-cases, Option, none, some, List, [], ◌∷◌, Text, codes, eq_text, eq_text_iff, mem_text, map,
  lower, any, ℤ, pos, negsuc, if◌then◌else◌, arith,
}
use autosys_clone.Condition.Eval.{Time}
use autosys_clone.Scheduler.Clock.{Date, weekday, minute}
use autosys_clone.Scheduler.Box.{is_set}
use autosys_clone.Jil.Values.{int_of}
use autosys_clone.TimeTrigger.{
  day_number, or_empty, is_day, parts, should_run_today, is_minute, matches_start_mins, zero_pad,
  drop_quotes, drop_end_quotes, current_hhmm, matches_start_times,
}

-- A member of the list has the property.
unfoldable pub AnyOf {ℓ} : {A : Type ℓ} → (A → Type 0) → List A → Type 0
AnyOf P [] = ⊥
AnyOf P (x ∷ xs) = P x ⊎ AnyOf P xs

any_iff {ℓ} :
    {A : Type ℓ} (p : A → Bool) (P : A → Type 0) (xs : List A)
    → ((x : A) → (p x ≡ true) ↔ P x)
    → (any p xs ≡ true) ↔ AnyOf P xs
unfolding AnyOf
any_iff p P [] e = ((λ h. absurd cc), (λ f. absurd f))
any_iff p P (x ∷ xs) e = (
  (λ h. elim (Bool-cases (p x)) [
    | inl found ↦ inl ((e x).0 found)
    | inr other ↦ inr ((any_iff p P xs e).0 (ground arith))
  ]),
  (λ a. elim a [
    | inl here ↦ rw ((e x).1 here) refl
    | inr later ↦ ground (arith, (any_iff p P xs e).1 later)
  ]),
)

-- The two letters of a day, 0 for Monday.
unfoldable pub day_name : ℕ → Text
day_name zero = codes "mo"
day_name (suc zero) = codes "tu"
day_name (suc (suc zero)) = codes "we"
day_name (suc (suc (suc zero))) = codes "th"
day_name (suc (suc (suc (suc zero)))) = codes "fr"
day_name (suc (suc (suc (suc (suc zero))))) = codes "sa"
day_name _ = codes "su"

day_number-name : (n : ℕ) → n < 7 → day_number (day_name n) ≡ some n
unfolding day_number day_name eq_text
day_number-name zero h = refl
day_number-name (suc zero) h = refl
day_number-name (suc (suc zero)) h = refl
day_number-name (suc (suc (suc zero))) h = refl
day_number-name (suc (suc (suc (suc zero)))) h = refl
day_number-name (suc (suc (suc (suc (suc zero))))) h = refl
day_number-name (suc (suc (suc (suc (suc (suc zero)))))) h = refl
day_number-name (suc (suc (suc (suc (suc (suc (suc n))))))) h = absurd (omega arith)

-- One test of the chain.
chain_step :
    (d name : Text) (n m : ℕ) (rest : Option ℕ)
    → day_name n ≡ name
    → (rest ≡ some m → d ≡ day_name m)
    → (if eq_text d name then some n else rest) ≡ some m
    → d ≡ day_name m
chain_step d name n m rest e go h = elim (Bool-cases (eq_text d name)) [
  | inl same ↦ (eq_text_iff d name).0 same ∙ sym e ∙ ap day_name (ground arith)
  | inr other ↦ go (ground arith)
]

name-day_number : (d : Text) (m : ℕ) → day_number d ≡ some m → d ≡ day_name m
unfolding day_number day_name
name-day_number d m = chain_step d (codes "mo") 0 m _ refl (
    chain_step d (codes "tu") 1 m _ refl (
      chain_step d (codes "we") 2 m _ refl (
        chain_step d (codes "th") 3 m _ refl (
          chain_step d (codes "fr") 4 m _ refl (
            chain_step d (codes "sa") 5 m _ refl
              (chain_step d (codes "su") 6 m none refl (λ h. absurd cc)))))))

-- The weekday is among the days: no days are given, or all of them are listed, or the day is, by its
-- two letters in either case.
pub data OnDay (today : Date) (days : Option Text) : Type 0 where
  no_days : is_set days ≡ false → OnDay today days
  all_days : AnyOf (λ d. d ≡ codes "all") (map lower (parts (or_empty days))) → OnDay today days
  this_day :
      AnyOf (λ d. d ≡ day_name (today % 7)) (map lower (parts (or_empty days))) → OnDay today days

mem_text-AnyOf : (x : Text) (xs : List Text) → (mem_text x xs ≡ true) ↔ AnyOf (λ d. d ≡ x) xs
unfolding AnyOf
mem_text-AnyOf x [] = ((λ h. absurd cc), (λ f. absurd f))
mem_text-AnyOf x (y ∷ ys) = (
  (λ h. elim (Bool-cases (eq_text x y)) [
    | inl same ↦ inl (sym ((eq_text_iff x y).0 same))
    | inr other ↦ inr ((mem_text-AnyOf x ys).0 (ground arith))
  ]),
  (λ a. elim a [
    | inl here ↦ rw ((eq_text_iff x y).1 (sym here)) refl
    | inr later ↦ ground (arith, (mem_text-AnyOf x ys).1 later)
  ]),
)

is_day-some : (o : Option ℕ) (w : ℕ) → (is_day o w ≡ true) ↔ (o ≡ some w)
is_day-some none w = ((λ h. absurd cc), (λ h. absurd cc))
is_day-some (some n) w = ((λ h. ap some (ground arith)), (λ h. ground arith))

is_day-name : (d : Text) (w : ℕ) → w < 7 → (is_day (day_number d) w ≡ true) ↔ (d ≡ day_name w)
is_day-name d w h = (
  (λ e. name-day_number d w ((is_day-some (day_number d) w).0 e)),
  (λ e. (is_day-some (day_number d) w).1 (ap day_number e ∙ day_number-name w h)),
)

pub OnDay-iff :
    (today : Date) (days : Option Text) → (should_run_today days today ≡ true) ↔ OnDay today days
unfolding should_run_today
OnDay-iff today days = (
  (λ h. elim (Bool-cases (is_set days)) [
    | inr unset ↦ no_days unset
    | inl given ↦ elim (Bool-cases (mem_text (codes "all") entries)) [
      | inl found ↦ all_days ((mem_text-AnyOf (codes "all") entries).0 found)
      | inr other ↦ this_day (named.0 (ground arith))
    ]
  ]),
  back,
)
  where
    entries : List Text
    entries = map lower (parts (or_empty days))

    named :
        (any (λ d. is_day (day_number d) (weekday today)) entries ≡ true)
        ↔ AnyOf (λ d. d ≡ day_name (today % 7)) entries
    named = any_iff _ _ entries (λ d. is_day-name d (today % 7) (omega arith))

    back : OnDay today days → should_run_today days today ≡ true
    back (no_days unset) = rw (unset) refl
    back (all_days m) = ground (arith, (mem_text-AnyOf (codes "all") entries).1 m)
    back (this_day m) = ground (arith, named.1 m)

-- One of the start times, without its quotes and with two digits of the hour, is the hour and the
-- minute of `now`, two digits each.
unfoldable pub AtTime : Time → Option Text → Type 0
AtTime now raw =
    AnyOf
      (λ t.
        zero_pad (drop_end_quotes (drop_quotes t))
        ≡ (48 + now / 3600000000 % 24 / 10)
          ∷ (48 + now / 3600000000 % 24 % 10)
          ∷ b':'
          ∷ (48 + now / 60000000 % 60 / 10)
          ∷ (48 + now / 60000000 % 60 % 10)
          ∷ [])
      (parts (or_empty raw))

-- One of the start minutes is the number of the minute of `now`.
unfoldable pub AtMinute : Time → Option Text → Type 0
AtMinute now raw = AnyOf (λ m. int_of m ≡ some (pos (now / 60000000 % 60))) (parts (or_empty raw))

is_minute-some : (o : Option ℤ) (n : ℕ) → (is_minute o n ≡ true) ↔ (o ≡ some (pos n))
is_minute-some none n = ((λ h. absurd cc), (λ h. absurd cc))
is_minute-some (some (pos k)) n =
    ((λ h. ap (λ i. some (pos i)) (ground arith)), (λ h. ground arith))
is_minute-some (some (negsuc k)) n = ((λ h. absurd (ground arith)), (λ h. absurd cc))

pub AtTime-iff :
    (now : Time) (raw : Option Text) → (matches_start_times raw now ≡ true) ↔ AtTime now raw
unfolding matches_start_times AtTime current_hhmm
AtTime-iff now raw =
    any_iff _ _ (parts (or_empty raw))
      (λ t. eq_text_iff (zero_pad (drop_end_quotes (drop_quotes t))) (current_hhmm now))

pub AtMinute-iff :
    (now : Time) (raw : Option Text) → (matches_start_mins raw now ≡ true) ↔ AtMinute now raw
unfolding matches_start_mins AtMinute
AtMinute-iff now raw =
    any_iff _ _ (parts (or_empty raw)) (λ m. is_minute-some (int_of m) (minute now))
