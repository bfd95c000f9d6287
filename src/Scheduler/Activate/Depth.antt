-- ===== src/Scheduler/Activate/Depth.antt =====
-- The depth of boxes in boxes that `_activate_box` opens (autosys/scheduler/event_processor.py): a
-- box that is being opened is ACTIVATED, so that a box within it does not opened it again.
use autosys_clone.Prelude.{
  ◌≡◌, refl, ◌∙◌, inl, inr, Bool, true, false, not, some, List, [], ◌∷◌, map, keep, length, Text,
  eq_text_iff, mem_text, if◌then◌else◌, arith, ◌≤◌, ◌<◌, Bool-cases,
}
use autosys_clone.Condition.Eval.{Time}
use autosys_clone.Scheduler.Store.{Job, World, sync, find_job, get_row, set_job, update_job}
use autosys_clone.Scheduler.Store.Laws.{get_row-update_job, get_row-job_name}
use autosys_clone.Scheduler.Session.{
  Outcome, done, raised, M, ◌>>=◌, pure, get, modify, fold_each, assign, Processor,
}
use autosys_clone.Scheduler.Session.Keeps.{sync_id}
use autosys_clone.Scheduler.Activate.{auto_finish, box_update, may_start}

abbrev pub names_of : List Job → List Text
names_of js = map (λ j. j.job_name) js

-- The rows have the given names, and those of the names `opened` cannot be started.
pub record Steady (opened names : List Text) (w : World) : Type 0 where
  pub manual : w.autoflush ≡ false
  pub same_names : names_of w.live ≡ names
  pub closed :
      (a : Text) (j : Job) → mem_text a opened ≡ true → get_row w a ≡ some j → may_start j ≡ false

pub data Ends (opened names : List Text) {A : Type 0} : Outcome A → Type 0 where
  ends : (w : World) (a : A) → Steady opened names w → Ends opened names (done w a)

pub record Runs (opened names : List Text) {A : Type 0} (m : M A) : Type 0 where
  pub runs : (w : World) → Steady opened names w → Ends opened names (m w)

pub Runs-pure : {opened names : List Text} {A : Type 0} (a : A) → Runs opened names (pure a)
Runs-pure a = record { runs = λ w s. ends w a s }

pub bind-Ends :
    {opened names : List Text} {A B : Type 0} (f : A → M B) (o : Outcome A)
    → Ends opened names o
    → ((a : A) → Runs opened names (f a))
    → Ends opened names {A = B} (elim o [ done w' a ↦ f a w' | raised w' ↦ raised w' ])
bind-Ends f _ (ends w a s) h = (h a).runs w s

pub Runs-bind :
    {opened names : List Text} {A B : Type 0} (m : M A) (f : A → M B)
    → Runs opened names m
    → ((a : A) → Runs opened names (f a))
    → Runs opened names (m >>= f)
Runs-bind m f hm hf = record { runs = λ w s. bind-Ends f (m w) (hm.runs w s) hf }

pub Runs-get : {opened names : List Text} → Runs opened names get
Runs-get = record { runs = λ w s. ends w w s }

pub Runs-sync : {opened names : List Text} → Runs opened names (modify sync)
Runs-sync = record { runs = λ w s. rw (sync_id w s.manual) (ends w tt s) }

pub Runs-if :
    {opened names : List Text} {A : Type 0} (b : Bool) (x y : M A)
    → Runs opened names x
    → Runs opened names y
    → Runs opened names (if b then x else y)
Runs-if true x y hx hy = hx
Runs-if false x y hx hy = hy

pub Runs-fold_each :
    {opened names : List Text} {A S : Type 0} (xs : List A) (s : S) (body : A → S → M S)
    → ((x : A) (s : S) → Runs opened names (body x s))
    → Runs opened names (fold_each xs s body)
unfolding fold_each
Runs-fold_each [] s body h = Runs-pure s
Runs-fold_each (x ∷ xs) s body h =
    Runs-bind (body x s) (λ s'. fold_each xs s' body) (h x s) (λ s'. Runs-fold_each xs s' body h)

names_of-set_job :
    (name : Text) (f : Job → Job) (js : List Job)
    → ((j : Job) → (f j).job_name ≡ j.job_name)
    → names_of (set_job name f js) ≡ names_of js
unfolding set_job
names_of-set_job name f [] same = refl
names_of-set_job name f (j ∷ js) same = ground (arith, same j, names_of-set_job name f js same)

-- An assignment to a row that is not opened, or that closes it.
pub assign-Steady :
    (opened names : List Text) (name : Text) (f : Job → Job) (w : World)
    → mem_text name opened ≡ false
    → ((j : Job) → (f j).job_name ≡ j.job_name)
    → Steady opened names w
    → Steady opened names (update_job name f w)
assign-Steady opened names name f w shut same s = record {
  manual = unfold update_job in s.manual;
  same_names = unfold update_job in (names_of-set_job name f w.live same ∙ s.same_names);
  closed = λ a j m found.
      s.closed a j m (ground (arith, get_row-update_job a name f w same, eq_text_iff name a));
}

pub Runs-assign :
    {opened names : List Text} (name : Text) (f : Job → Job)
    → mem_text name opened ≡ false
    → ((j : Job) → (f j).job_name ≡ j.job_name)
    → Runs opened names (assign name f)
Runs-assign {opened} {names} name f shut same = record {
  runs = λ w s. ends (update_job name f w) tt (assign-Steady opened names name f w shut same s);
}

pub find_job-listed :
    (a : Text) (js : List Job) (j : Job) → find_job a js ≡ some j → mem_text a (names_of js) ≡ true
unfolding find_job
find_job-listed a [] j h = cc
find_job-listed a (i ∷ js) j h =
    ground (arith, eq_text_iff i.job_name a, eq_text_iff a i.job_name, find_job-listed a js j)

-- A row that is found and may be started is listed and not open.
pub found-shut :
    {opened names : List Text} (w : World) (name : Text) (child : Job)
    → Steady opened names w
    → get_row w name ≡ some child
    → may_start child ≡ true
    → mem_text child.job_name opened ≡ false
found-shut {opened} w name child s found may =
    rw (get_row-job_name name w found) (elim (Bool-cases (mem_text name opened)) [
      | inl m ↦ absurd (ground (arith, s.closed name child m found))
      | inr fresh ↦ fresh
    ])

pub found-listed :
    {opened names : List Text} (w : World) (name : Text) (child : Job)
    → Steady opened names w
    → get_row w name ≡ some child
    → mem_text child.job_name names ≡ true
unfolding get_row
found-listed w name child s found =
    rw (get_row-job_name name w found, ← s.same_names) (find_job-listed name w.live child found)

pub auto_finish-job_name :
    (p : Processor) (now : Time) (j : Job) → (auto_finish p now j).job_name ≡ j.job_name
unfolding auto_finish
auto_finish-job_name p now j = ground arith

pub box_update-job_name :
    (now : Time) (children : List Job) (j : Job) → (box_update now children j).job_name ≡ j.job_name
unfolding box_update
box_update-job_name now children j = ground arith

-- The names that are not open.
abbrev pub shut_names : List Text → List Text → List Text
shut_names opened names = keep (λ x. not (mem_text x opened)) names

shut_names-more :
    (a : Text) (opened names : List Text)
    → length (shut_names (a ∷ opened) names) ≤ length (shut_names opened names)
shut_names-more a opened [] = omega arith
shut_names-more a opened (x ∷ names) = ground (arith, shut_names-more a opened names)

pub shut_names-fewer :
    (a : Text) (opened names : List Text)
    → mem_text a opened ≡ false
    → mem_text a names ≡ true
    → length (shut_names (a ∷ opened) names) < length (shut_names opened names)
shut_names-fewer a opened [] shut m = cc
shut_names-fewer a opened (x ∷ names) shut m = ground (
  arith,
  eq_text_iff x a,
  eq_text_iff a x,
  shut_names-fewer a opened names shut,
  shut_names-more a opened names,
)
