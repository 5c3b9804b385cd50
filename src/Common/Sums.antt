-- ===== src/Common/Sums.antt =====
-- Sums over an association list, split at one key.
use Prim.Native.Nat.{ℕ, ◌+◌}
use mathlib.Core.List.{List, [], ◌∷◌}

-- The sum of `f` over the values.
abbrev pub sum_by {ℓ} : {A : Type ℓ} → (A → ℕ) → List A → ℕ
sum_by f [] = 0
sum_by f (x ∷ xs) = f x + sum_by f xs
