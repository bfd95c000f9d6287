-- ===== src/Scheduler/Box/Decision.antt =====
-- When a box ends and with what: the decision of `_process_box` (autosys/scheduler/box_manager.py).
use autosys_clone.Prelude.{
  ◌≡◌, refl, Bool, true, false, not, ◌&&◌, List, [], ◌∷◌, any, All, ◌⊎◌, if◌then◌else◌, arith,
}
use autosys_clone.Status.{
  JobStatus, success, failure, terminated, on_ice, norm_in, norm_status, value,
}
use autosys_clone.Condition.Eval.{Env}
use autosys_clone.Scheduler.Store.{Job}
use autosys_clone.Scheduler.Session.{Processor}
use autosys_clone.Scheduler.Box.{
  settled, terminal_fail, is_set, conditions_met, is_unreachable, outcome_of, ends, stays_open,
  verdict,
}

All-of-any-false {ℓ} :
    {A : Type ℓ} (p : A → Bool) (xs : List A) → any p xs ≡ false → All (λ x. p x ≡ false) xs
All-of-any-false p [] h = tt
All-of-any-false p (x ∷ xs) h = (ground arith, All-of-any-false p xs (ground arith))

any-false-of-All {ℓ} :
    {A : Type ℓ} (p : A → Bool) (xs : List A) → All (λ x. p x ≡ false) xs → any p xs ≡ false
any-false-of-All p [] h = refl
any-false-of-All p (x ∷ xs) (h, rest) = ground (arith, any-false-of-All p xs rest)

All-map₃ {ℓ} :
    {A : Type ℓ} (P Q R S : A → Type 0)
    → ((x : A) → P x → Q x → R x → S x)
    → (xs : List A) → All P xs
    → All Q xs
    → All R xs
    → All S xs
All-map₃ P Q R S f [] a b c = tt
All-map₃ P Q R S f (x ∷ xs) (a, arest) (b, brest) (c, crest) =
    (f x a b c, All-map₃ P Q R S f xs arest brest crest)

-- What a default SUCCESS requires of a child: it succeeded, is on ice, or can never start.
abbrev pub IsFine : Processor → Env → Job → Type 0
IsFine p e c = (norm_in c.status (success ∷ on_ice ∷ []) ≡ true) ⊎ (is_unreachable p e c ≡ true)

IsFine-child :
    (p : Processor) (e : Env) (c : Job)
    → norm_in c.status (terminated ∷ []) ≡ false
    → norm_in c.status (failure ∷ []) ≡ false
    → (not (norm_in c.status settled) && not (is_unreachable p e c)) ≡ false
    → IsFine p e c
unfolding value norm_status
IsFine-child p e c t f s = ground arith

outcome-parts :
    (children : List Job)
    → outcome_of children ≡ success
    → (any (λ c. norm_in c.status (terminated ∷ [])) children ≡ false)
      × (any (λ c. norm_in c.status (failure ∷ [])) children ≡ false)
unfolding outcome_of
outcome-parts children h = ground arith

inversion :
    (t f g d pending : Bool) (out : JobStatus)
    → (if t
        then ends terminated
        else if f
        then ends failure
        else if g
        then ends success
        else if d
        then ends failure
        else if pending
        then stays_open
        else ends out)
      ≡ ends success
    → g ≡ false
    → (out ≡ success) × (pending ≡ false)
inversion t f g d pending out h e = ground arith

-- The tests of `verdict` one by one, for a SUCCESS that box_success did not bring.
success-parts :
    (p : Processor) (e : Env) (box : Job) (children : List Job)
    → verdict p e box children ≡ ends success
    → (is_set box.box_success && conditions_met p e box.box_success) ≡ false
    → (outcome_of children ≡ success)
      × (any (λ c. not (norm_in c.status settled) && not (is_unreachable p e c)) children ≡ false)
unfolding verdict
success-parts p e box children h b =
    inversion (any (λ c. c.box_terminator && norm_in c.status terminal_fail) children)
      (is_set box.box_failure && conditions_met p e box.box_failure)
      (is_set box.box_success && conditions_met p e box.box_success)
      (not (is_set box.box_failure) && any (λ c. norm_in c.status (failure ∷ [])) children)
      (any (λ c. not (norm_in c.status settled) && not (is_unreachable p e c)) children)
      (outcome_of children) h b

-- A box that ends SUCCESS, and not because its box_success condition holds, has only children that
-- succeeded, are on ice, or can never start: none has failed, was terminated or is still at work.
pub verdict-success :
    (p : Processor) (e : Env) (box : Job) (children : List Job)
    → verdict p e box children ≡ ends success
    → (is_set box.box_success && conditions_met p e box.box_success) ≡ false
    → All (IsFine p e) children
verdict-success p e box children h b =
    let (out, done) = success-parts p e box children h b in
    let (t, f) = outcome-parts children out in
    All-map₃ _ _ _ (IsFine p e) (IsFine-child p e) children (All-of-any-false _ children t)
      (All-of-any-false _ children f) (All-of-any-false _ children done)

-- A child that has ended, is on ice, or can never start.
abbrev pub IsDone : Processor → Env → Job → Type 0
IsDone p e c =
    (norm_in c.status (success ∷ failure ∷ terminated ∷ on_ice ∷ []) ≡ true)
    ⊎ (is_unreachable p e c ≡ true)

settled_child :
    (p : Processor) (e : Env) (children : List Job)
    → All (IsDone p e) children
    → any (λ c. not (norm_in c.status settled) && not (is_unreachable p e c)) children ≡ false
settled_child p e [] h = refl
settled_child p e (c ∷ cs) (s, rest) = ground (arith, settled_child p e cs rest)

closed :
    (t f g d pending : Bool) (out : JobStatus)
    → pending ≡ false
    → (s : JobStatus) × ((if t
          then ends terminated
          else if f
          then ends failure
          else if g
          then ends success
          else if d
          then ends failure
          else if pending
          then stays_open
          else ends out)
        ≡ ends s)
closed true f g d pending out e = (terminated, refl)
closed false true g d pending out e = (failure, refl)
closed false false true d pending out e = (success, refl)
closed false false false true pending out e = (failure, refl)
closed false false false false pending out e = (out, ground arith)

-- A box does not hang: once every child has succeeded, failed, was terminated, is on ice or can
-- never start, the box ends, whatever its conditions and flags.
pub verdict-ends :
    (p : Processor) (e : Env) (box : Job) (children : List Job)
    → All (IsDone p e) children
    → (s : JobStatus) × (verdict p e box children ≡ ends s)
unfolding verdict
verdict-ends p e box children h =
    closed (any (λ c. c.box_terminator && norm_in c.status terminal_fail) children)
      (is_set box.box_failure && conditions_met p e box.box_failure)
      (is_set box.box_success && conditions_met p e box.box_success)
      (not (is_set box.box_failure) && any (λ c. norm_in c.status (failure ∷ [])) children)
      (any (λ c. not (norm_in c.status settled) && not (is_unreachable p e c)) children)
      (outcome_of children) (settled_child p e children h)
