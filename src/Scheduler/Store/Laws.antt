-- ===== src/Scheduler/Store/Laws.antt =====
-- Laws of the session: reading behind an assignment, and snapshots by name.
use autosys_clone.Prelude.{
  ◌≡◌, refl, true, Option, none, some, List, [], ◌∷◌, map, Text, eq_text, eq_text_iff, mem_text,
  lookup, insert, keep, if◌then◌else◌, arith, Bool-cases, inl, inr, lookup-insert, ℤ,
}
use autosys_clone.Status.{norm_status}
use autosys_clone.Scheduler.Store.{
  Job, Run, World, find_job, get_row, set_job, update_job, chosen, chosen_run, status_snapshot,
  last_times_snapshot, exitcode_snapshot, latest_from,
}

abbrev pub map_option {ℓ κ} : {A : Type ℓ} {B : Type κ} → (A → B) → Option A → Option B
map_option f none = none
map_option f (some a) = some (f a)

find_job-set_job :
    (a b : Text) (f : Job → Job) (js : List Job)
    → ((j : Job) → (f j).job_name ≡ j.job_name)
    → find_job a (set_job b f js)
      ≡ (if eq_text b a then map_option f (find_job a js) else find_job a js)
unfolding find_job set_job
find_job-set_job a b f [] same = ground arith
find_job-set_job a b f (j ∷ js) same = ground (
  arith,
  same j,
  eq_text_iff j.job_name a,
  eq_text_iff j.job_name b,
  eq_text_iff b a,
  find_job-set_job a b f js same,
)

-- What `session.get` finds behind an assignment that keeps the name.
pub get_row-update_job :
    (a b : Text) (f : Job → Job) (w : World)
    → ((j : Job) → (f j).job_name ≡ j.job_name)
    → get_row (update_job b f w) a
      ≡ (if eq_text b a then map_option f (get_row w a) else get_row w a)
unfolding get_row update_job
get_row-update_job a b f w same = find_job-set_job a b f w.live same

-- A row that is found has the name.
find_job-job_name : (a : Text) (js : List Job) (j : Job) → find_job a js ≡ some j → j.job_name ≡ a
unfolding find_job
find_job-job_name a [] j h = cc
find_job-job_name a (i ∷ js) j h =
    ground (arith, eq_text_iff i.job_name a, find_job-job_name a js j)

pub get_row-job_name : (a : Text) (w : World) {j : Job} → get_row w a ≡ some j → j.job_name ≡ a
unfolding get_row
get_row-job_name a w {j} h = find_job-job_name a w.live j h

-- Restricted to names, a snapshot gives for each of them what the whole snapshot gives.
lookup-chosen {ℓ} :
    {V : Type ℓ} (x : Text) (names : List Text) (value_of : Job → V) (js : List Job)
    → mem_text x names ≡ true
    → lookup x (map (λ j. (j.job_name, value_of j)) (keep (chosen (some names)) js))
      ≡ lookup x (map (λ j. (j.job_name, value_of j)) (keep (chosen none) js))
unfolding lookup
lookup-chosen x names value_of [] m = refl
lookup-chosen x names value_of (j ∷ js) m = elim (Bool-cases (mem_text j.job_name names)) [
  | inl chosen_too ↦ rw chosen_too (ground (arith, lookup-chosen x names value_of js m))
  | inr left_out ↦
      rw left_out (ground (arith, eq_text_iff j.job_name x, lookup-chosen x names value_of js m))
]

pub lookup-status_snapshot :
    (x : Text) (names : List Text) (w : World)
    → mem_text x names ≡ true
    → lookup x (status_snapshot (some names) w) ≡ lookup x (status_snapshot none w)
unfolding status_snapshot
lookup-status_snapshot x names w = lookup-chosen x names (λ j. norm_status j.status) w.saved

pub lookup-last_times_snapshot :
    (x : Text) (names : List Text) (w : World)
    → mem_text x names ≡ true
    → lookup x (last_times_snapshot (some names) w) ≡ lookup x (last_times_snapshot none w)
unfolding last_times_snapshot
lookup-last_times_snapshot x names w = lookup-chosen x names (λ j. j.last_end) w.saved

lookup-latest_from :
    (x : Text) (names : List Text) (codes codes' : List (Text × Option ℤ)) (rs : List Run)
    → mem_text x names ≡ true
    → lookup x codes ≡ lookup x codes'
    → lookup x (latest_from codes (keep (chosen_run (some names)) rs))
      ≡ lookup x (latest_from codes' (keep (chosen_run none) rs))
unfolding latest_from
lookup-latest_from x names codes codes' [] m h = h
lookup-latest_from x names codes codes' (r ∷ rs) m h =
    elim (Bool-cases (mem_text r.job_name names)) [
      | inl chosen_too ↦ rw chosen_too (
          lookup-latest_from x names (insert r.job_name r.exit_code codes)
            (insert r.job_name r.exit_code codes') rs m (simp lookup-insert (cc h)))
      | inr left_out ↦ rw left_out (
          lookup-latest_from x names codes (insert r.job_name r.exit_code codes') rs m
            (rw lookup-insert (ground (arith, h, m, eq_text_iff r.job_name x))))
    ]

pub lookup-exitcode_snapshot :
    (x : Text) (names : List Text) (w : World)
    → mem_text x names ≡ true
    → lookup x (exitcode_snapshot (some names) w) ≡ lookup x (exitcode_snapshot none w)
unfolding exitcode_snapshot
lookup-exitcode_snapshot x names w m = lookup-latest_from x names [] [] w.runs m refl
