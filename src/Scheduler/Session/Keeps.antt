-- ===== src/Scheduler/Session/Keeps.antt =====
-- Session code that writes nothing to the database: it leaves the stored rows as they are, in a
-- session that does not flush before it queries.
use autosys_clone.Prelude.{
  ◌≡◌, refl, ◌∙◌, Bool, true, false, Option, none, some, List, [], ◌∷◌, Text, if◌then◌else◌,
}
use autosys_clone.Scheduler.Store.{Job, World, sync, get_row, update_job}
use autosys_clone.Scheduler.Session.{
  Outcome, done, raised, M, ◌>>=◌, ◌>>◌, pure, get, modify, raise, world_of, attempt, for_each,
  fold_each, with_row, assign, Processor, call_dispatch,
}

pub record Kept (w w' : World) : Type 0 where
  pub same_saved : w'.saved ≡ w.saved
  pub same_autoflush : w'.autoflush ≡ w.autoflush

pub Kept-refl : (w : World) → Kept w w
Kept-refl w = record { same_saved = refl; same_autoflush = refl }

pub Kept-trans : {u v w : World} → Kept u v → Kept v w → Kept u w
Kept-trans a b = record {
  same_saved = b.same_saved ∙ a.same_saved;
  same_autoflush = b.same_autoflush ∙ a.same_autoflush;
}

pub record Keeps {A : Type 0} (m : M A) : Type 0 where
  pub kept : (w : World) → w.autoflush ≡ false → Kept w (world_of (m w))

pub sync_id : (w : World) → w.autoflush ≡ false → sync w ≡ w
unfolding sync
sync_id w manual = rw manual refl

pub Keeps-sync : Keeps (modify sync)
Keeps-sync = record { kept = λ w manual. rw (sync_id w manual) (Kept-refl w) }

pub Keeps-pure : {A : Type 0} (a : A) → Keeps (pure a)
Keeps-pure a = record { kept = λ w manual. Kept-refl w }

pub Keeps-raise : {A : Type 0} → Keeps {A = A} raise
Keeps-raise = record { kept = λ w manual. Kept-refl w }

pub Keeps-get : Keeps get
Keeps-get = record { kept = λ w manual. Kept-refl w }

pub Keeps-modify :
    (f : World → World)
    → ((w : World) → (f w).saved ≡ w.saved)
    → ((w : World) → (f w).autoflush ≡ w.autoflush)
    → Keeps (modify f)
Keeps-modify f a b = record { kept = λ w manual. record { same_saved = a w; same_autoflush = b w } }

pub Keeps-assign : (name : Text) (f : Job → Job) → Keeps (assign name f)
unfolding update_job
Keeps-assign name f = Keeps-modify (update_job name f) (λ w. refl) (λ w. refl)

bind-Kept :
    {A B : Type 0} (f : A → M B) (w : World) (o : Outcome A)
    → w.autoflush ≡ false
    → ((a : A) → Keeps (f a))
    → Kept w (world_of o)
    → Kept w (world_of {A = B} (elim o [ done w' a ↦ f a w' | raised w' ↦ raised w' ]))
bind-Kept f w (done w' a) manual hf k = Kept-trans k ((hf a).kept w' (k.same_autoflush ∙ manual))
bind-Kept f w (raised w') manual hf k = k

pub Keeps-bind :
    {A B : Type 0} (m : M A) (f : A → M B) → Keeps m → ((a : A) → Keeps (f a)) → Keeps (m >>= f)
Keeps-bind m f hm hf = record {
  kept = λ w manual. bind-Kept f w (m w) manual hf (hm.kept w manual);
}

pub Keeps-if : {A : Type 0} (b : Bool) (x y : M A) → Keeps x → Keeps y → Keeps (if b then x else y)
Keeps-if true x y hx hy = hx
Keeps-if false x y hx hy = hy

pub Keeps-if_at :
    {A : Type 0} (b : Bool) (x y : M A)
    → Keeps x
    → Keeps y
    → Keeps {A = A} (λ w. if b then x w else y w)
Keeps-if_at true x y hx hy = hx
Keeps-if_at false x y hx hy = hy

pub Keeps-for_each :
    {A : Type 0} (xs : List A) (body : A → M (Unit {0}))
    → ((x : A) → Keeps (body x))
    → Keeps (for_each xs body)
unfolding for_each
Keeps-for_each [] body h = Keeps-pure tt
Keeps-for_each (x ∷ xs) body h =
    Keeps-bind (body x) (λ _. for_each xs body) (h x) (λ _. Keeps-for_each xs body h)

pub Keeps-fold_each :
    {A S : Type 0} (xs : List A) (s : S) (body : A → S → M S)
    → ((x : A) (s : S) → Keeps (body x s))
    → Keeps (fold_each xs s body)
unfolding fold_each
Keeps-fold_each [] s body h = Keeps-pure s
Keeps-fold_each (x ∷ xs) s body h =
    Keeps-bind (body x s) (λ s'. fold_each xs s' body) (h x s) (λ s'. Keeps-fold_each xs s' body h)

-- What is done with an object or with nothing, at the session as it is.
option-Kept :
    {A B : Type 0} (w : World) (x : Option B) (a : M A) (f : B → M A)
    → w.autoflush ≡ false
    → Keeps a
    → ((b : B) → Keeps (f b))
    → Kept w (world_of {A = A} (elim x [ none ↦ a w | some b ↦ f b w ]))
option-Kept w none a f manual ha hf = ha.kept w manual
option-Kept w (some b) a f manual ha hf = (hf b).kept w manual

pub Keeps-option :
    {A B : Type 0} (o : World → Option B) (a : M A) (f : B → M A)
    → Keeps a
    → ((b : B) → Keeps (f b))
    → Keeps {A = A} (λ w. elim (o w) [ none ↦ a w | some b ↦ f b w ])
Keeps-option o a f ha hf = record { kept = λ w manual. option-Kept w (o w) a f manual ha hf }

pub Keeps-optional :
    {A B : Type 0} (o : Option B) (a : M A) (f : B → M A)
    → Keeps a
    → ((b : B) → Keeps (f b))
    → Keeps {A = A} (elim o [ none ↦ a | some b ↦ f b ])
Keeps-optional none a f ha hf = ha
Keeps-optional (some b) a f ha hf = hf b

pub Keeps-with_row :
    (name : Text) (f : Job → M (Unit {0})) → ((row : Job) → Keeps (f row)) → Keeps (with_row name f)
unfolding with_row
Keeps-with_row name f h = Keeps-option (λ w. get_row w name) (pure tt) f (Keeps-pure tt) h

-- A query: a flush, if the session flushes, and the session.
pub Keeps-query :
    {A : Type 0} (f : World → M A)
    → ((w : World) → Keeps (f w))
    → Keeps (modify sync >> (get >>= f))
Keeps-query f h =
    Keeps-bind (modify sync) (λ _. get >>= f) Keeps-sync (λ _. Keeps-bind get f Keeps-get h)

pub Keeps-call_dispatch : (p : Processor) (row : Job) → Keeps (call_dispatch p row)
unfolding call_dispatch
Keeps-call_dispatch p row =
    Keeps-bind (assign row.job_name p.dispatch) _ (Keeps-assign row.job_name p.dispatch)
      (λ _. Keeps-if (p.dispatch_raises row) raise (pure tt) Keeps-raise (Keeps-pure tt))

pub Kept-attempt :
    (m : M (Unit {0})) → Keeps m → (w : World) → w.autoflush ≡ false → Kept w (attempt m w)
unfolding attempt
Kept-attempt m h w manual = h.kept w manual

pub ruleset keeping = (
  Keeps-sync, Keeps-pure, Keeps-raise, Keeps-get, Keeps-assign, Keeps-bind, Keeps-if, Keeps-if_at,
  Keeps-for_each, Keeps-fold_each, Keeps-with_row, Keeps-optional, Keeps-call_dispatch,
)
