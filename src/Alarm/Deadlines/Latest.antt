-- ===== src/Alarm/Deadlines/Latest.antt =====
-- The start that a relative deadline counts from (`_nearest_preceding_start_minutes` of
-- autosys/notifications/alarm_manager.py).
use autosys_clone.Prelude.{
  ℕ, ◌+◌, ◌≡◌, refl, sym, ◌∙◌, subst, ◌≤◌, ◌<◌, ◌⊎◌, inl, inr, Option, none, some, List, [], ◌∷◌,
  Text, strip, All, arith,
}
use autosys_clone.Scheduler.Window.{split}
use autosys_clone.TimeTrigger.{drop_quotes, drop_end_quotes}
use autosys_clone.Alarm.Deadlines.{Minutes, start_minutes, better, nearest_start}

-- The minutes of one of the start times.
abbrev pub start_of : Text → Option Minutes
start_of t = start_minutes (split b':' (drop_end_quotes (drop_quotes (strip t))))

-- No later time of the day is written down than `now`, where minutes stand for a difference.
pub NotBehind : ℕ → Option Minutes → Type 0
NotBehind now none = Unit
NotBehind now (some (p, n)) = p ≤ now + n

-- A time that lies behind `now`, or is no later than the best.
pub Covers : ℕ → Option Minutes → Option Minutes → Type 0
Covers now best none = Unit
Covers now none (some (p, n)) = now + n < p
Covers now (some (q, m)) (some (p, n)) = (now + n < p) ⊎ (p + m ≤ q + n)

better-NotBehind :
    (now : ℕ) (c best : Option Minutes) → NotBehind now best → NotBehind now (better now c best)
unfolding better NotBehind
better-NotBehind now none best h = h
better-NotBehind now (some (p, n)) none h = ground arith
better-NotBehind now (some (p, n)) (some (q, m)) h = ground arith

better-Covers :
    (now : ℕ) (c best : Option Minutes) → NotBehind now best → Covers now (better now c best) c
unfolding better Covers NotBehind
better-Covers now none best h = tt
better-Covers now (some (p, n)) none h = ground arith
better-Covers now (some (p, n)) (some (q, m)) h = ground arith

better-keeps :
    (now : ℕ) (c best other : Option Minutes)
    → Covers now best other
    → Covers now (better now c best) other
unfolding better Covers
better-keeps now c best none h = tt
better-keeps now none best (some other) h = h
better-keeps now (some (p, n)) none (some (r, k)) h = ground arith
better-keeps now (some (p, n)) (some (q, m)) (some (r, k)) h = ground arith

-- One of the start times is the best.
pub Among : Option Minutes → List Text → Type 0
Among best [] = ⊥
Among best (t ∷ ts) = (start_of t ≡ best) ⊎ Among best ts

better-either :
    (now : ℕ) (c best : Option Minutes) → (c ≡ better now c best) ⊎ (best ≡ better now c best)
unfolding better
better-either now none best = inr refl
better-either now (some (p, n)) none = ground arith
better-either now (some (p, n)) (some (q, m)) = ground arith

All-Covers :
    (now : ℕ) (c best : Option Minutes) (ts : List Text)
    → All (λ t. Covers now best (start_of t)) ts
    → All (λ t. Covers now (better now c best) (start_of t)) ts
All-Covers now c best [] h = tt
All-Covers now c best (t ∷ ts) (h, hs) =
    (better-keeps now c best (start_of t) h, All-Covers now c best ts hs)

Among-better :
    (now : ℕ) (t : Text) (best : Option Minutes) (ts : List Text)
    → (best ≡ none) ⊎ Among best ts
    → (better now (start_of t) best ≡ none) ⊎ Among (better now (start_of t) best) (t ∷ ts)
unfolding Among
Among-better now t best ts h = elim (better-either now (start_of t) best) [
  | inl new ↦ inr (inl new)
  | inr old ↦ elim h [
    | inl nothing ↦ inl (sym old ∙ nothing)
    | inr among ↦ inr (inr (subst (λ b. Among b ts) old among))
  ]
]

-- The start that a relative deadline counts from is none, or one of the start times; it is not
-- behind `now`, and every start time that is not behind `now` is no later.
pub nearest_start-Covers :
    (now : ℕ) (ts : List Text)
    → NotBehind now (nearest_start now ts)
      × All (λ t. Covers now (nearest_start now ts) (start_of t)) ts
      × ((nearest_start now ts ≡ none) ⊎ Among (nearest_start now ts) ts)
unfolding nearest_start NotBehind
nearest_start-Covers now [] = (tt, tt, inl refl)
nearest_start-Covers now (t ∷ ts) =
    let (early, covers, among) = nearest_start-Covers now ts in
    (
      better-NotBehind now (start_of t) (nearest_start now ts) early,
      (
        better-Covers now (start_of t) (nearest_start now ts) early,
        All-Covers now (start_of t) (nearest_start now ts) ts covers,
      ),
      Among-better now t (nearest_start now ts) ts among,
    )
