-- ===== src/Scheduler/Session.antt =====
-- Code that changes the session and may raise: a state and exception monad over World. An
-- exception keeps the changes made before it, as the session does.
pub mod Loops
pub mod Keeps
use autosys_clone.Prelude.{
  ℕ, ◌≡◌, Bool, true, false, Option, none, some, List, [], ◌∷◌, Text, if◌then◌else◌,
}
use autosys_clone.Condition.Eval.{FloatText}
use autosys_clone.Scheduler.Store.{Job, World, get_row, update_job}

pub data Outcome {ℓ} (A : Type ℓ) : Type ℓ where
  done : World → A → Outcome A
  raised : World → Outcome A

abbrev pub M : Type 0 → Type 0
M A = World → Outcome A

infixl 5 ◌>>=◌ ◌>>◌
abbrev pub ◌>>=◌ : {A B : Type 0} → M A → (A → M B) → M B
◌>>=◌ m f w = elim (m w) [ done w' a ↦ f a w' | raised w' ↦ raised w' ]

abbrev pub ◌>>◌ : {B : Type 0} → M (Unit {0}) → M B → M B
m >> k = m >>= λ _. k

abbrev pub pure : {A : Type 0} → A → M A
pure a w = done w a

abbrev pub get : M World
get w = done w w

abbrev pub modify : (World → World) → M (Unit {0})
modify f w = done (f w) tt

abbrev pub raise : {A : Type 0} → M A
raise w = raised w

-- The session behind code, whether it raised or not.
abbrev pub world_of {ℓ} : {A : Type ℓ} → Outcome A → World
world_of (done w a) = w
world_of (raised w) = w

-- `try: m except Exception: log`.
unfoldable pub attempt : M (Unit {0}) → World → World
attempt m w = world_of (m w)

-- A `for` loop, and one that carries a value.
unfoldable pub for_each : {A : Type 0} → List A → (A → M (Unit {0})) → M (Unit {0})
for_each [] body = pure tt
for_each (x ∷ xs) body = body x >> for_each xs body

unfoldable pub fold_each : {A S : Type 0} → List A → S → (A → S → M S) → M S
fold_each [] s body = pure s
fold_each (x ∷ xs) s body = body x s >>= λ s'. fold_each xs s' body

-- The objects of the given names.
unfoldable pub rows : World → List Text → List Job
rows w [] = []
rows w (name ∷ names) =
    let rest = rows w names in elim (get_row w name) [ none ↦ rest | some j ↦ j ∷ rest ]

-- What is done with the row of a name, if there is one.
unfoldable pub with_row : Text → (Job → M (Unit {0})) → M (Unit {0})
with_row name f w = elim (get_row w name) [ none ↦ pure tt w | some row ↦ f row w ]

pub with_row_found :
    (name : Text) (f : Job → M (Unit {0})) (w : World) {row : Job}
    → get_row w name ≡ some row
    → with_row name f w ≡ f row w
unfolding with_row
with_row_found name f w e = rw (e, with_row)

pub with_row_missing :
    (name : Text) (f : Job → M (Unit {0})) (w : World)
    → get_row w name ≡ none
    → with_row name f w ≡ done w tt
unfolding with_row
with_row_missing name f w e = rw (e, with_row)

-- Assignments to the attributes of one object.
abbrev pub assign : Text → (Job → Job) → M (Unit {0})
assign name f = modify (update_job name f)

-- What the EventProcessor is configured with. `dispatch` is what the dispatcher makes of the
-- attributes of the row that it is given; `dispatch_raises` says whether the call then raises;
-- `heartbeat` says whether the agent of a machine answers. `nesting` is how many calls of
-- `_activate_box` inside each other Python's recursion limit leaves room for.
pub record Processor : Type 0 where
  pub float : FloatText
  pub auto_complete : Bool
  pub dispatch : Job → Job
  pub dispatch_raises : Job → Bool
  pub heartbeat : Text → Bool
  pub nesting : ℕ

-- `self._dispatch_fn(session, row)`.
unfoldable pub call_dispatch : Processor → Job → M (Unit {0})
call_dispatch p row = do
  assign row.job_name p.dispatch
  if p.dispatch_raises row then raise else pure tt
