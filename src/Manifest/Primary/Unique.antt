-- ===== src/Manifest/Primary/Unique.antt =====
-- What `enforce_primary_uniqueness` leaves: one primary, and nothing else changed.
use wattcloud.Common.{
  ℕ, zero, suc, ◌≡◌, refl, sym, ap, subst, ◌∙◌, inl, inr, Bool, true, false, Bool-cases, List, [],
  ◌∷◌, ok, Result-cases, ◌>>=◌, if◌then◌else◌, map, length, All, arith,
}
use wattcloud.Common.Bytes.{Bytes}
use wattcloud.Manifest.{ManifestEntry, is_active, is_active_primary, count}
use wattcloud.Manifest.Validate.{HasPrimary}
use wattcloud.Manifest.Primary.{
  indices, set_is_primary, set_at, clear_each, updated_key, created_key, key_lt, max_by, min_by,
  designate, enforce_primary_uniqueness,
}

-- The entry without the claim to be primary.
abbrev pub forget : ManifestEntry → ManifestEntry
forget = set_is_primary false

pub record Enforced (es : List ManifestEntry) : Type 0 where
  pub result : List ManifestEntry
  pub returned : enforce_primary_uniqueness es ≡ ok result
  pub unchanged : map forget result ≡ map forget es
  pub primary : HasPrimary result

abbrev clear : ManifestEntry → ManifestEntry
clear e = if is_active_primary e then set_is_primary false e else e

clear_each-suc :
    (is : List ℕ) (e : ManifestEntry) (es es' : List ManifestEntry)
    → clear_each is es ≡ ok es'
    → clear_each (map suc is) (e ∷ es) ≡ ok (e ∷ es')
clear_each-suc [] e es es' h = cc
clear_each-suc (i ∷ is) e es es' h = elim (Result-cases (set_at false i es)) [
  | inl (us, a) ↦ rw a (clear_each-suc is e us es' (rw a at h))
  | inr (x, a) ↦ cc (rw a at h)
]

cleared :
    (es : List ManifestEntry) → clear_each (indices is_active_primary es) es ≡ ok (map clear es)
cleared [] = refl
cleared (e ∷ es) = elim (Bool-cases (is_active_primary e)) [
  | inl yes' ↦
      rw yes'
        (clear_each-suc (indices is_active_primary es) (set_is_primary false e) es _ (cleared es))
  | inr no' ↦ rw no' (clear_each-suc (indices is_active_primary es) e es _ (cleared es))
]

clear-none : (es : List ManifestEntry) → count is_active_primary (map clear es) ≡ 0
clear-none [] = refl
clear-none (e ∷ es) = ground (arith, clear-none es)

clear-forget : (es : List ManifestEntry) → map forget (map clear es) ≡ map forget es
clear-forget [] = refl
clear-forget (e ∷ es) = elim (Bool-cases (is_active_primary e)) [
  | inl yes' ↦ rw yes' (ap (◌∷◌ (forget e)) (clear-forget es))
  | inr no' ↦ rw no' (ap (◌∷◌ (forget e)) (clear-forget es))
]

abbrev ActiveAt : List ManifestEntry → ℕ → Type 0
ActiveAt [] i = ⊥
ActiveAt (e ∷ es) zero = e.tombstone ≡ false
ActiveAt (e ∷ es) (suc i) = ActiveAt es i

clear-ActiveAt : (es : List ManifestEntry) (i : ℕ) → ActiveAt es i → ActiveAt (map clear es) i
clear-ActiveAt [] i h = h
clear-ActiveAt (e ∷ es) zero h = ground (arith, h)
clear-ActiveAt (e ∷ es) (suc i) h = clear-ActiveAt es i h

All-suc :
    (is : List ℕ) (e : ManifestEntry) (es : List ManifestEntry)
    → All (ActiveAt es) is
    → All (ActiveAt (e ∷ es)) (map suc is)
All-suc [] e es h = tt
All-suc (i ∷ is) e es (h, hs) = (h, All-suc is e es hs)

indices-ActiveAt :
    (p : ManifestEntry → Bool) (es : List ManifestEntry)
    → ((e : ManifestEntry) → p e ≡ true → e.tombstone ≡ false)
    → All (ActiveAt es) (indices p es)
indices-ActiveAt p [] f = tt
indices-ActiveAt p (e ∷ es) f = elim (Bool-cases (p e)) [
  | inl yes' ↦ rw yes' (f e yes', All-suc (indices p es) e es (indices-ActiveAt p es f))
  | inr no' ↦ rw no' (All-suc (indices p es) e es (indices-ActiveAt p es f))
]

length-suc : (is : List ℕ) → length (map suc is) ≡ length is
length-suc [] = refl
length-suc (i ∷ is) = ap suc (length-suc is)

length-indices :
    (p : ManifestEntry → Bool) (es : List ManifestEntry) → length (indices p es) ≡ count p es
length-indices p [] = refl
length-indices p (e ∷ es) = ground (arith, length-indices p es, length-suc (indices p es))

max_by-All :
    (P : ℕ → Type 0) (key : ℕ → ℕ × Bytes) (best : ℕ) (is : List ℕ)
    → P best
    → All P is
    → P (max_by key best is)
max_by-All P key best [] h hs = h
max_by-All P key best (i ∷ is) h (g, gs) = elim (Bool-cases (key_lt (key i) (key best))) [
  | inl less ↦ rw less (max_by-All P key best is h gs)
  | inr more ↦ rw more (max_by-All P key i is g gs)
]

min_by-All :
    (P : ℕ → Type 0) (key : ℕ → ℕ × Bytes) (best : ℕ) (is : List ℕ)
    → P best
    → All P is
    → P (min_by key best is)
min_by-All P key best [] h hs = h
min_by-All P key best (i ∷ is) h (g, gs) = elim (Bool-cases (key_lt (key i) (key best))) [
  | inl less ↦ rw less (min_by-All P key i is g gs)
  | inr more ↦ rw more (min_by-All P key best is h gs)
]

record Promoted (es : List ManifestEntry) (i : ℕ) : Type 0 where
  result : List ManifestEntry
  returned : set_at true i es ≡ ok result
  unchanged : map forget result ≡ map forget es
  primary : count is_active_primary result ≡ 1

set_at-Promoted :
    (es : List ManifestEntry) (i : ℕ)
    → ActiveAt es i
    → count is_active_primary es ≡ 0
    → Promoted es i
set_at-Promoted [] i h z = absurd h
set_at-Promoted (e ∷ es) zero h z = record {
  result = set_is_primary true e ∷ es;
  returned = refl;
  unchanged = refl;
  primary = ground (arith, h, z);
}
set_at-Promoted (e ∷ es) (suc i) h z =
    let r = set_at-Promoted es i h (ground (arith, z)) in
    record {
      result = e ∷ r.result;
      returned = rw r.returned;
      unchanged = ap (◌∷◌ (forget e)) r.unchanged;
      primary = ground (arith, z, r.primary);
    }

active_primary-active : (e : ManifestEntry) → is_active_primary e ≡ true → e.tombstone ≡ false
active_primary-active e h = ground (arith, h)

active-active : (e : ManifestEntry) → is_active e ≡ true → e.tombstone ≡ false
active-active e h = ground (arith, h)

-- The rule never fails, whatever the list: it returns a list that differs only in the flags, with
-- just one active primary entry, or none where no entry is active.
pub enforce_lem : (es : List ManifestEntry) → Enforced es
unfolding enforce_primary_uniqueness designate
enforce_lem es = go (indices is_active_primary es) refl
  where
    oldest :
        (js : List ℕ)
        → indices is_active es ≡ js
        → count is_active_primary es ≡ 0
        → indices is_active_primary es ≡ []
        → Enforced es
    oldest [] b z a = record {
      result = es;
      returned = rw (a, b, enforce_primary_uniqueness, designate);
      unchanged = refl;
      primary = inr (sym (length-indices is_active es) ∙ ap length b);
    }
    oldest (j ∷ js) b z a =
        let (first, others) =
          subst (All (ActiveAt es)) b (indices-ActiveAt is_active es active-active) in
        let r =
          set_at-Promoted es _ (min_by-All (ActiveAt es) (created_key es) j js first others) z in
        record {
          result = r.result;
          returned = rw (a, b, r.returned, enforce_primary_uniqueness, designate);
          unchanged = r.unchanged;
          primary = inl r.primary;
        }

    go : (is : List ℕ) → indices is_active_primary es ≡ is → Enforced es
    go [] a =
        oldest (indices is_active es) refl (sym (length-indices is_active_primary es) ∙ ap length a)
          a
    go (i ∷ []) a = record {
      result = es;
      returned = rw (a, enforce_primary_uniqueness);
      unchanged = refl;
      primary = inl (sym (length-indices is_active_primary es) ∙ ap length a);
    }
    go (i ∷ j ∷ is) a =
        let (first, others) =
          subst (All (ActiveAt es)) a
            (indices-ActiveAt is_active_primary es active_primary-active) in
        let winner = max_by-All (ActiveAt es) (updated_key es) i (j ∷ is) first others in
        let r = set_at-Promoted (map clear es) _ (clear-ActiveAt es _ winner) (clear-none es) in
        let emptied : clear_each (i ∷ j ∷ is) es ≡ ok (map clear es) =
          ap (λ t. clear_each t es) (sym a) ∙ cleared es in
        record {
          result = r.result;
          returned =
              rw (a, enforce_primary_uniqueness)
                (ap (λ t. t >>= set_at true (max_by (updated_key es) i (j ∷ is))) emptied
                  ∙ r.returned);
          unchanged = r.unchanged ∙ clear-forget es;
          primary = inl r.primary;
        }
