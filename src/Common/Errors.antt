-- ===== src/Common/Errors.antt =====
-- Rust's `Result`, with `?` as the bind of a `do` block.
use mathlib.Core.Path.{◌≡◌, refl}
use mathlib.Core.Logic.{◌⊎◌, inl, inr}
use mathlib.Core.Bool.{Bool, true, false}
use mathlib.Core.Option.{Option, none, some}

pub data Result {ℓ κ} (E : Type ℓ) (A : Type κ) : Type (ℓ ⊔ κ) where
  ok : A → Result E A
  err : E → Result E A

-- `if bad { return Err(e) }`
abbrev pub reject_if {ℓ} : {E : Type ℓ} → Bool → E → Result E (Unit {0})
reject_if bad e = elim bad [ true ↦ err e | false ↦ ok tt ]

infixl 5 ◌>>=◌ ◌>>◌
-- `m?`, with the rest of the body as a function of its value.
abbrev pub ◌>>=◌ {ℓ κ μ} :
    {E : Type ℓ} {A : Type κ} {B : Type μ} → Result E A → (A → Result E B) → Result E B
m >>= f = elim m [ err e ↦ err e | ok a ↦ f a ]

abbrev pub ◌>>◌ {ℓ κ} : {E : Type ℓ} {B : Type κ} → Result E (Unit {0}) → Result E B → Result E B
m >> k = elim m [ err e ↦ err e | ok _ ↦ k ]

-- `Option::ok_or`
abbrev pub ok_or {ℓ κ} : {E : Type ℓ} {A : Type κ} → Option A → E → Result E A
ok_or none e = err e
ok_or (some a) e = ok a

-- `Result::map_err`
abbrev pub map_err {ℓ κ μ} :
    {E : Type ℓ} {F : Type κ} {A : Type μ} → (E → F) → Result E A → Result F A
map_err f (ok a) = ok a
map_err f (err e) = err (f e)

pub Result-cases {ℓ κ} :
    {E : Type ℓ} {A : Type κ} (r : Result E A) → ((a : A) × (r ≡ ok a)) ⊎ ((e : E) × (r ≡ err e))
Result-cases (ok a) = inl (a, refl)
Result-cases (err e) = inr (e, refl)

pub ok-injective {ℓ κ} :
    {E : Type ℓ} {A : Type κ} {a b : A} → ◌≡◌ {A = Result E A} (ok a) (ok b) → a ≡ b
ok-injective h = cc

pub ok_or-eq-ok {ℓ κ} :
    {E : Type ℓ} {A : Type κ} (o : Option A) (e : E) {a : A} → ok_or o e ≡ ok a → o ≡ some a
ok_or-eq-ok none e h = cc
ok_or-eq-ok (some a) e h = cc

-- A chain that succeeds has a first step that does, with the rest behind it.
pub >>=-eq-ok {ℓ κ μ} :
    {E : Type ℓ} {A : Type κ} {B : Type μ} {value : B} (first : Result E A) (rest : A → Result E B)
    → (first >>= rest) ≡ ok value
    → (a : A) × (first ≡ ok a) × (rest a ≡ ok value)
>>=-eq-ok (err e) rest h = cc
>>=-eq-ok (ok a) rest h = (a, refl, h)

-- A guard that let the body go on.
pub reject_if_passed {ℓ κ} :
    {E : Type ℓ} {A : Type κ} (bad : Bool) (e : E) {rest : Result E A} {a : A}
    → (reject_if bad e >> rest) ≡ ok a
    → (bad ≡ false) × (rest ≡ ok a)
reject_if_passed true e h = cc
reject_if_passed false e h = (refl, h)

pub map_err-eq-ok {ℓ κ μ} :
    {E : Type ℓ} {F : Type κ} {A : Type μ} (f : E → F) (r : Result E A) {a : A}
    → map_err f r ≡ ok a
    → r ≡ ok a
map_err-eq-ok f (ok b) h = cc
map_err-eq-ok f (err e) h = cc
