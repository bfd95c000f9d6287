-- ===== src/Scheduler/Session/Loops.antt =====
-- A loop that assigns to the rows of a list of names.
use autosys_clone.Prelude.{
  ◌≡◌, refl, ap, ◌∙◌, Option, none, some, List, [], ◌∷◌, Text, eq_text_iff, mem_text, if◌then◌else◌,
  arith,
}
use autosys_clone.Scheduler.Store.{Job, World, get_row, update_job}
use autosys_clone.Scheduler.Store.Laws.{map_option, get_row-update_job}
use autosys_clone.Scheduler.Session.{M, done, raised, Outcome, for_each, assign}

abbrev pub update_all : List Text → (Job → Job) → World → World
update_all [] f w = w
update_all (name ∷ names) f w = update_all names f (update_job name f w)

-- Such a loop does not raise.
pub for_each-assign :
    (names : List Text) (f : Job → Job) (w : World)
    → for_each names (λ name. assign name f) w ≡ done (update_all names f w) tt
unfolding for_each
for_each-assign [] f w = refl
for_each-assign (name ∷ names) f w = for_each-assign names f (update_job name f w)

map_option_idem :
    (f : Job → Job) (o : Option Job)
    → ((j : Job) → f (f j) ≡ f j)
    → map_option f (map_option f o) ≡ map_option f o
map_option_idem f none idem = refl
map_option_idem f (some j) idem = rw (idem j)

-- Where doing the assignment twice is doing it once, it is done to exactly the listed rows.
pub get_row-update_all :
    (a : Text) (names : List Text) (f : Job → Job) (w : World)
    → ((j : Job) → (f j).job_name ≡ j.job_name)
    → ((j : Job) → f (f j) ≡ f j)
    → get_row (update_all names f w) a
      ≡ (if mem_text a names then map_option f (get_row w a) else get_row w a)
get_row-update_all a [] f w same idem = refl
get_row-update_all a (name ∷ names) f w same idem =
    get_row-update_all a names f (update_job name f w) same idem
    ∙ ground (
      arith,
      get_row-update_job a name f w same,
      eq_text_iff name a,
      eq_text_iff a name,
      map_option_idem f (get_row w a) idem,
    )

-- A loop whose body does nothing does nothing.
pub for_each_id :
    {A : Type 0} (xs : List A) (body : A → M (Unit {0})) (w : World)
    → ((x : A) → body x w ≡ done w tt)
    → for_each xs body w ≡ done w tt
unfolding for_each
for_each_id [] body w idle = refl
for_each_id (x ∷ xs) body w idle =
    ap
      (λ (o : Outcome (Unit {0})). elim o [
        | done w' a ↦ for_each xs body w'
        | raised w' ↦ raised w'
      ])
      (idle x)
    ∙ for_each_id xs body w idle
