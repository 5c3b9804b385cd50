-- ===== src/Common/Maps.antt =====
-- A `HashMap` as an association list, with its laws in the form of an `if`.
use mathlib.Core.Path.{◌≡◌, refl}
use mathlib.Core.Bool.{Bool, true, false}
use mathlib.Core.Option.{Option, none, some}
use mathlib.Core.List.{List, [], ◌∷◌}
use native.Mathlib.Omega.{arith}
use mathlib.Core.Path.{subst}
use mathlib.Core.Logic.{inl, inr}
use wattcloud.Common.Tests.{Eq, Bool-cases, if◌then◌else◌}

module _ {ℓ κ} {K : Type ℓ} {V : Type κ} where
  -- `retain(|_, v| p(v))`
  abbrev pub retain : (V → Bool) → List (K × V) → List (K × V)
  retain p [] = []
  retain p ((k, v) ∷ m) = if p v then (k, v) ∷ retain p m else retain p m

pub beq_refl {ℓ} : {K : Type ℓ} ⦃e : Eq K⦄ (k : K) → e.beq k k ≡ true
beq_refl ⦃e⦄ k = (e.beq_iff k k).1 refl

module _ {ℓ κ} {K : Type ℓ} {V : Type κ} ⦃e : Eq K⦄ where
  unfoldable pub get : K → List (K × V) → Option V
  get k [] = none
  get k ((j, v) ∷ m) = if e.beq j k then some v else get k m

  unfoldable pub insert : K → V → List (K × V) → List (K × V)
  insert k v [] = (k, v) ∷ []
  insert k v ((j, w) ∷ m) = if e.beq j k then (j, v) ∷ m else (j, w) ∷ insert k v m

  unfoldable pub remove : K → List (K × V) → List (K × V)
  remove k [] = []
  remove k ((j, w) ∷ m) = if e.beq j k then remove k m else (j, w) ∷ remove k m

  pub get-insert :
      (k j : K) (v : V) (m : List (K × V))
      → get j (insert k v m) ≡ (if e.beq k j then some v else get j m)
  unfolding get insert
  get-insert k j v [] = refl
  get-insert k j v ((i, w) ∷ m) =
      ground (arith, e.beq_iff k j, e.beq_iff i k, e.beq_iff i j, get-insert k j v m)

  pub get-remove :
      (k j : K) (m : List (K × V)) → get j (remove k m) ≡ (if e.beq k j then none else get j m)
  unfolding get remove
  get-remove k j [] = ground arith
  get-remove k j ((i, w) ∷ m) =
      ground (arith, e.beq_iff k j, e.beq_iff i k, e.beq_iff i j, get-remove k j m)

  pub get-insert_self : (k : K) (v : V) (m : List (K × V)) → get k (insert k v m) ≡ some v
  get-insert_self k v m = ground (arith, get-insert k k v m, beq_refl k)

  pub get-remove_self : (k : K) (m : List (K × V)) → get k (remove k m) ≡ none
  get-remove_self k m = ground (arith, get-remove k k m, beq_refl k)

  -- Each key stands once.
  abbrev pub IsUnique : List (K × V) → Type (ℓ ⊔ κ)
  IsUnique [] = Unit
  IsUnique ((k, v) ∷ m) = (get k m ≡ none) × IsUnique m

  pub get-retain_kept :
      (p : V → Bool) (k : K) (v : V) (m : List (K × V))
      → get k m ≡ some v
      → p v ≡ true
      → get k (retain p m) ≡ some v
  unfolding get
  get-retain_kept p k v [] h g = cc
  get-retain_kept p k v ((j, w) ∷ m) h g = ground (arith, h, g, get-retain_kept p k v m)

  pub get-retain-none :
      (p : V → Bool) (k : K) (m : List (K × V)) → get k m ≡ none → get k (retain p m) ≡ none
  unfolding get
  get-retain-none p k [] h = h
  get-retain-none p k ((j, w) ∷ m) h = ground (arith, h, get-retain-none p k m)

  pub get-retain_dropped :
      (p : V → Bool) (k : K) (v : V) (m : List (K × V))
      → IsUnique m
      → get k m ≡ some v
      → p v ≡ false
      → get k (retain p m) ≡ none
  unfolding get
  get-retain_dropped p k v [] u h g = cc
  get-retain_dropped p k v ((j, w) ∷ m) (fresh, u) h g =
      ground
        (arith, fresh, h, g, e.beq_iff j k, get-retain-none p k m, get-retain_dropped p k v m u)

  pub insert-IsUnique : (k : K) (v : V) (m : List (K × V)) → IsUnique m → IsUnique (insert k v m)
  unfolding insert get
  insert-IsUnique k v [] u = (refl, tt)
  insert-IsUnique k v ((j, w) ∷ m) (fresh, u) =
      ground
        (arith, fresh, u, insert-IsUnique k v m u, get-insert k j v m, e.beq_iff j k, e.beq_iff k j)

  pub retain-IsUnique : (p : V → Bool) (m : List (K × V)) → IsUnique m → IsUnique (retain p m)
  retain-IsUnique p [] u = tt
  retain-IsUnique p ((j, w) ∷ m) (fresh, u) =
      ground (arith, retain-IsUnique p m u, get-retain-none p j m fresh)

-- A property of every value.
module _ {ℓ κ μ} {K : Type ℓ} {V : Type κ} (P : V → Type μ) where
  abbrev pub AllValues : List (K × V) → Type μ
  AllValues [] = Unit {μ}
  AllValues ((k, v) ∷ m) = P v × AllValues m

  pub retain-AllValues : (p : V → Bool) (m : List (K × V)) → AllValues m → AllValues (retain p m)
  retain-AllValues p [] h = tt
  retain-AllValues p ((k, v) ∷ m) h =
      elim (p v) as (λ b. AllValues (if b then (k, v) ∷ retain p m else retain p m)) [
        | true ↦ (h.0, retain-AllValues p m h.1)
        | false ↦ retain-AllValues p m h.1
      ]

module _ {ℓ κ μ} {K : Type ℓ} {V : Type κ} ⦃e : Eq K⦄ (P : V → Type μ) where
  pub get-AllValues : (k : K) (v : V) (m : List (K × V)) → AllValues P m → get k m ≡ some v → P v
  unfolding get
  get-AllValues k v [] h g = cc
  get-AllValues k v ((j, w) ∷ m) h g = elim (Bool-cases (e.beq j k)) [
    | inl t ↦ subst P (some-injective (rw t at g)) h.0
    | inr f ↦ get-AllValues k v m h.1 (rw f at g)
  ]
    where
      some-injective : {a b : V} → some a ≡ some b → a ≡ b
      some-injective e = cc

  pub insert-AllValues :
      (k : K) (v : V) (m : List (K × V)) → P v → AllValues P m → AllValues P (insert k v m)
  unfolding insert
  insert-AllValues k v [] p h = (p, tt)
  insert-AllValues k v ((j, w) ∷ m) p h =
      elim (e.beq j k) as (λ b. AllValues P (if b then (j, v) ∷ m else (j, w) ∷ insert k v m)) [
        | true ↦ (p, h.1)
        | false ↦ (h.0, insert-AllValues k v m p h.1)
      ]

  pub remove-AllValues : (k : K) (m : List (K × V)) → AllValues P m → AllValues P (remove k m)
  unfolding remove
  remove-AllValues k [] h = tt
  remove-AllValues k ((j, w) ∷ m) h =
      elim (e.beq j k) as (λ b. AllValues P (if b then remove k m else (j, w) ∷ remove k m)) [
        | true ↦ remove-AllValues k m h.1
        | false ↦ (h.0, remove-AllValues k m h.1)
      ]
