-- ===== src/Condition/Tokenizer/Total.antt =====
-- The tokenizer ends: every match consumes a character.
use autosys_clone.Prelude.{ℕ, ◌≤◌, ◌<◌, Bool, Option, none, some, [], ◌∷◌, Text, length, arith}
use autosys_clone.Condition.Tokenizer.{span}

-- What a match leaves is shorter than `n`.
abbrev Shorter {ℓ} : {A : Type ℓ} → ℕ → Option (A × Text) → Type 0
Shorter n none = Unit
Shorter n (some (a, rest)) = length rest < n

pub length-span : (p : ℕ → Bool) (cs : Text) → length (span p cs).1 ≤ length cs
unfolding span
length-span p [] = omega arith
length-span p (c ∷ cs) = ground (arith, length-span p cs)
