-- ===== src/Common/Lists.antt =====
-- Lists with native lengths and indices. Slices `xs[a..b]` are `take (b - a) (drop a xs)`.
use Prim.Native.Nat.{ℕ, zero, suc, ◌+◌, ◌-◌, ◌≤◌}
use mathlib.Core.Path.{◌≡◌, refl, ap, sym, ◌∙◌}
use mathlib.Core.Bool.{Bool, true, false}
use mathlib.Core.Option.{Option, none, some}
use mathlib.Core.List.{List, [], ◌∷◌, ◌++◌, append_assoc}
use native.Mathlib.Omega.{arith}
use wattcloud.Common.Tests.{if◌then◌else◌}

module _ {ℓ} {A : Type ℓ} where
  abbrev pub length : List A → ℕ
  length [] = 0
  length (x ∷ xs) = suc (length xs)

  abbrev pub take : ℕ → List A → List A
  take zero xs = []
  take (suc n) [] = []
  take (suc n) (x ∷ xs) = x ∷ take n xs

  abbrev pub drop : ℕ → List A → List A
  drop zero xs = xs
  drop (suc n) [] = []
  drop (suc n) (x ∷ xs) = drop n xs

  abbrev pub get_elem? : List A → ℕ → Option A
  get_elem? [] i = none
  get_elem? (x ∷ xs) zero = some x
  get_elem? (x ∷ xs) (suc i) = get_elem? xs i

  abbrev pub set : List A → ℕ → A → List A
  set [] i v = []
  set (x ∷ xs) zero v = v ∷ xs
  set (x ∷ xs) (suc i) v = x ∷ set xs i v

  abbrev pub replicate : ℕ → A → List A
  replicate zero x = []
  replicate (suc n) x = x ∷ replicate n x

  abbrev pub flatten : List (List A) → List A
  flatten [] = []
  flatten (xs ∷ xss) = xs ++ flatten xss

  -- `iter().filter(p).collect()`
  abbrev pub filter : (A → Bool) → List A → List A
  filter p [] = []
  filter p (x ∷ xs) = if p x then x ∷ filter p xs else filter p xs

  -- `iter().any(p)`
  abbrev pub any : (A → Bool) → List A → Bool
  any p [] = false
  any p (x ∷ xs) = if p x then true else any p xs

  -- `iter().find(p)`
  abbrev pub find : (A → Bool) → List A → Option A
  find p [] = none
  find p (x ∷ xs) = if p x then some x else find p xs

  abbrev pub All {κ} : (A → Type κ) → List A → Type κ
  All P [] = Unit {κ}
  All P (x ∷ xs) = P x × All P xs

  pub length-append : (xs ys : List A) → length (xs ++ ys) ≡ length xs + length ys
  length-append [] ys = omega arith
  length-append (x ∷ xs) ys = omega (arith, length-append xs ys)

  pub take-drop : (n : ℕ) (xs : List A) → take n xs ++ drop n xs ≡ xs
  take-drop zero xs = refl
  take-drop (suc n) [] = refl
  take-drop (suc n) (x ∷ xs) = ap (◌∷◌ x) (take-drop n xs)

  -- `xs[a..b]`
  abbrev pub slice : ℕ → ℕ → List A → List A
  slice a b xs = take (b - a) (drop a xs)

  pub length-take : (n : ℕ) (xs : List A) → n ≤ length xs → length (take n xs) ≡ n
  length-take zero xs h = refl
  length-take (suc n) [] h = absurd (omega arith)
  length-take (suc n) (x ∷ xs) h = ap suc (length-take n xs (omega arith))

  pub length-drop : (n : ℕ) (xs : List A) → length (drop n xs) ≡ length xs - n
  length-drop zero xs = omega arith
  length-drop (suc n) [] = omega arith
  length-drop (suc n) (x ∷ xs) = omega (arith, length-drop n xs)

  pub length-slice : (a b : ℕ) (xs : List A) → b ≤ length xs → length (slice a b xs) ≡ b - a
  length-slice a b xs h = length-take (b - a) (drop a xs) (omega (arith, length-drop a xs))

  -- A slice that ends where the first part of an `++` ends.
  pub take-append : (n : ℕ) (xs ys : List A) → n ≡ length xs → take n (xs ++ ys) ≡ xs
  take-append zero [] ys h = refl
  take-append zero (x ∷ xs) ys h = absurd (omega arith)
  take-append (suc n) [] ys h = absurd (omega arith)
  take-append (suc n) (x ∷ xs) ys h = ap (◌∷◌ x) (take-append n xs ys (omega arith))

  pub drop-append : (n : ℕ) (xs ys : List A) → n ≡ length xs → drop n (xs ++ ys) ≡ ys
  drop-append zero [] ys h = refl
  drop-append zero (x ∷ xs) ys h = absurd (omega arith)
  drop-append (suc n) [] ys h = absurd (omega arith)
  drop-append (suc n) (x ∷ xs) ys h = drop-append n xs ys (omega arith)

  pub take-append_le : (n : ℕ) (xs ys : List A) → n ≤ length xs → take n (xs ++ ys) ≡ take n xs
  take-append_le zero xs ys h = refl
  take-append_le (suc n) [] ys h = absurd (omega arith)
  take-append_le (suc n) (x ∷ xs) ys h = ap (◌∷◌ x) (take-append_le n xs ys (omega arith))

  pub drop-append_le :
      (n : ℕ) (xs ys : List A) → n ≤ length xs → drop n (xs ++ ys) ≡ drop n xs ++ ys
  drop-append_le zero xs ys h = refl
  drop-append_le (suc n) [] ys h = absurd (omega arith)
  drop-append_le (suc n) (x ∷ xs) ys h = drop-append_le n xs ys (omega arith)

  pub drop-drop : (m n : ℕ) (xs : List A) → drop m (drop n xs) ≡ drop (n + m) xs
  drop-drop m zero xs = ap (λ k. drop k xs) (omega arith)
  drop-drop zero (suc n) [] = let e : suc n + 0 ≡ suc n = omega arith in ap (λ k. drop k []) (sym e)
  drop-drop (suc m) (suc n) [] =
      let e : suc n + suc m ≡ suc (n + suc m) = omega arith in ap (λ k. drop k []) (sym e)
  drop-drop m (suc n) (x ∷ xs) =
      let e : suc n + m ≡ suc (n + m) = omega arith in
      drop-drop m n xs ∙ ap (λ k. drop k (x ∷ xs)) (sym e)

  pub take-all : (n : ℕ) (xs : List A) → length xs ≤ n → take n xs ≡ xs
  take-all zero [] h = refl
  take-all zero (x ∷ xs) h = absurd (omega arith)
  take-all (suc n) [] h = refl
  take-all (suc n) (x ∷ xs) h = ap (◌∷◌ x) (take-all n xs (omega arith))

  pub drop-all : (n : ℕ) (xs : List A) → length xs ≤ n → drop n xs ≡ []
  drop-all zero [] h = refl
  drop-all zero (x ∷ xs) h = absurd (omega arith)
  drop-all (suc n) [] h = refl
  drop-all (suc n) (x ∷ xs) h = drop-all n xs (omega arith)

  pub length-replicate : (n : ℕ) (x : A) → length (replicate n x) ≡ n
  length-replicate zero x = refl
  length-replicate (suc n) x = ap suc (length-replicate n x)

  pub drop-replicate : (n k : ℕ) (x : A) → drop n (replicate k x) ≡ replicate (k - n) x
  drop-replicate zero k x = let e : k ≡ k - 0 = omega arith in ap (λ j. replicate j x) e
  drop-replicate (suc n) zero x = let e : 0 ≡ 0 - suc n = omega arith in ap (λ j. replicate j x) e
  drop-replicate (suc n) (suc k) x =
      let e : suc k - suc n ≡ k - n = omega arith in
      drop-replicate n k x ∙ ap (λ j. replicate j x) (sym e)

  pub length-filter-le : (p : A → Bool) (xs : List A) → length (filter p xs) ≤ length xs
  length-filter-le p [] = omega arith
  length-filter-le p (x ∷ xs) = ground (arith, length-filter-le p xs)

  pub All-append {κ} : (P : A → Type κ) (xs ys : List A) → All P xs → All P ys → All P (xs ++ ys)
  All-append P [] ys hx hy = hy
  All-append P (x ∷ xs) ys hx hy = (hx.0, All-append P xs ys hx.1 hy)

  pub All-replicate {κ} : (P : A → Type κ) (n : ℕ) (x : A) → P x → All P (replicate n x)
  All-replicate P zero x h = tt
  All-replicate P (suc n) x h = (h, All-replicate P n x h)

  -- From one predicate to another that follows from it.
  pub All-weaken {κ μ} :
      {P : A → Type κ} {Q : A → Type μ}
      → ((x : A) → P x → Q x)
      → (xs : List A) → All P xs
      → All Q xs
  All-weaken f [] h = tt
  All-weaken f (x ∷ xs) h = (f x h.0, All-weaken f xs h.1)

  pub All-take {κ} : (P : A → Type κ) (n : ℕ) (xs : List A) → All P xs → All P (take n xs)
  All-take P zero xs h = tt
  All-take P (suc n) [] h = tt
  All-take P (suc n) (x ∷ xs) h = (h.0, All-take P n xs h.1)

  pub All-drop {κ} : (P : A → Type κ) (n : ℕ) (xs : List A) → All P xs → All P (drop n xs)
  All-drop P zero xs h = h
  All-drop P (suc n) [] h = tt
  All-drop P (suc n) (x ∷ xs) h = All-drop P n xs h.1

  pub All-slice {κ} : (P : A → Type κ) (a b : ℕ) (xs : List A) → All P xs → All P (slice a b xs)
  All-slice P a b xs h = All-take P (b - a) (drop a xs) (All-drop P a xs h)

  -- `iter().position(p)`
  abbrev pub position_of : (A → Bool) → List A → Option ℕ
  position_of p [] = none
  position_of p (x ∷ xs) =
      if p x then some 0 else elim (position_of p xs) [ none ↦ none | some i ↦ some (suc i) ]

  pub flatten-append : (xs ys : List (List A)) → flatten (xs ++ ys) ≡ flatten xs ++ flatten ys
  flatten-append [] ys = refl
  flatten-append (x ∷ xs) ys =
      ap (◌++◌ x) (flatten-append xs ys) ∙ sym (append_assoc x (flatten xs) (flatten ys))

  -- The lengths of the parts, added up.
  abbrev pub lengths : List (List A) → ℕ
  lengths [] = 0
  lengths (xs ∷ xss) = length xs + lengths xss

  pub length-flatten : (xss : List (List A)) → length (flatten xss) ≡ lengths xss
  length-flatten [] = refl
  length-flatten (xs ∷ xss) = omega (arith, length-append xs (flatten xss), length-flatten xss)

module _ {ℓ} {A : Type ℓ} where
  -- The `i`-th field of a record that is laid out field by field.
  pub slice-flatten :
      (fields : List (List A)) (i a b : ℕ) {field : List A} {after : List (List A)}
      → drop i fields ≡ field ∷ after
      → lengths (take i fields) ≡ a
      → a + length field ≡ b
      → slice a b (flatten fields) ≡ field
  slice-flatten fields i a b {field = field} {after = after} e f h =
      let before = take i fields in
      let whole : flatten fields ≡ flatten before ++ (field ++ flatten after) =
        ap flatten (sym (take-drop i fields))
        ∙ flatten-append before (drop i fields)
        ∙ ap (λ t. flatten before ++ flatten t) e in
      ap (λ t. slice a b t) whole
      ∙ ap (take (b - a)) (
          drop-append a (flatten before) (field ++ flatten after)
            (omega (arith, length-flatten before, f)))
      ∙ take-append (b - a) field (flatten after) (omega arith)

  -- One element is a slice of length 1.
  pub get_elem?-slice :
      (xs : List A) (i : ℕ) (x : A) → slice i (i + 1) xs ≡ x ∷ [] → get_elem? xs i ≡ some x
  get_elem?-slice xs i x h =
      let width : i + 1 - i ≡ 1 = omega arith in
      at_front i xs (ap (λ n. take n (drop i xs)) (sym width) ∙ h)
    where
      nothing : ◌≡◌ {A = List A} [] (x ∷ []) → ⊥
      nothing h = cc

      at_front : (i : ℕ) (xs : List A) → take 1 (drop i xs) ≡ x ∷ [] → get_elem? xs i ≡ some x
      at_front zero [] h = absurd (nothing h)
      at_front (suc i) [] h = absurd (nothing h)
      at_front zero (y ∷ xs) h = cc
      at_front (suc i) (y ∷ xs) h = at_front i xs h

  -- Two ways to split a list at the same place are one.
  pub append-injective :
      (xs ys us vs : List A) → xs ++ ys ≡ us ++ vs → length xs ≡ length us → (xs ≡ us) × (ys ≡ vs)
  append-injective xs ys us vs e h = (
    sym (take-append (length xs) xs ys refl) ∙ ap (take (length xs)) e ∙ take-append _ us vs h,
    sym (drop-append (length xs) xs ys refl) ∙ ap (drop (length xs)) e ∙ drop-append _ us vs h,
  )

  -- Where a list that starts with `f` is cut behind `f`, the cut leaves `f` in front.
  pub append-cut :
      (f xs ys more : List A)
      → xs ++ ys ≡ f ++ more
      → length f ≤ length xs
      → (xs ≡ f ++ drop (length f) xs) × (drop (length f) xs ++ ys ≡ more)
  append-cut f xs ys more e h =
      let front : take (length f) xs ≡ f =
        sym (take-append_le (length f) xs ys h)
        ∙ ap (take (length f)) e
        ∙ take-append (length f) f more refl in
      (
        sym (take-drop (length f) xs) ∙ ap (λ t. t ++ drop (length f) xs) front,
        sym (drop-append_le (length f) xs ys h)
            ∙ ap (drop (length f)) e
            ∙ drop-append (length f) f more refl,
      )
