-- ===== src/Vault/Header/Lookup.antt =====
-- The searches in the device slots of byo/vault_format.rs.
use wattcloud.Common.{
  ℕ, suc, ◌≡◌, ◌⊎◌, refl, sym, ap, Bool-cases, Option-cases, set, inl, inr, Bool, true, false, not,
  ◌&&◌, Option, none, some, List, [], ◌∷◌, position_of, length,
}
use wattcloud.Common.Bytes.{Bytes, bytes_eq, bytes_eq_refl}
use wattcloud.Vault.Slots.{DeviceSlot, is_active}
use wattcloud.Vault.Header.{
  VaultHeader, find_device_slot, first_empty_slot, active_slot_count, count_active,
}

abbrev is_device : Bytes → DeviceSlot → Bool
is_device id s = is_active s && bytes_eq s.device_id id

abbrev is_free : DeviceSlot → Bool
is_free s = not (is_active s)

some-injective : {i j : ℕ} → some i ≡ some j → i ≡ j
some-injective h = cc

-- The tail's answer, one place further.
behind :
    {A : Type 0} (p : A → Bool) (x : A) (xs : List A) (i : ℕ)
    → p x ≡ false
    → position_of p (x ∷ xs) ≡ some i
    → (j : ℕ) × (position_of p xs ≡ some j) × (i ≡ suc j)
behind p x xs i f h = elim (Option-cases (position_of p xs)) [
  | inl n ↦ absurd (nothing (rw (f, n) at h))
  | inr (j, e) ↦ (j, e, sym (some-injective (rw (f, e) at h)))
]
  where
    nothing : ◌≡◌ {A = Option ℕ} none (some i) → ⊥
    nothing h = cc

absent :
    {A : Type 0} (p : A → Bool) (x : A) (xs : List A)
    → position_of p (x ∷ xs) ≡ none
    → (p x ≡ false) × (position_of p xs ≡ none)
absent p x xs h = elim (Bool-cases (p x)) [
  | inl t ↦ absurd (something (rw t at h))
  | inr f ↦ elim (Option-cases (position_of p xs)) [
    | inl n ↦ (f, n)
    | inr (j, e) ↦ absurd (something (rw (f, e) at h))
  ]
]
  where
    something : {i : ℕ} → ◌≡◌ {A = Option ℕ} (some i) none → ⊥
    something h = cc

not_free : (b : Bool) → not b ≡ false → b ≡ true
not_free true h = refl
not_free false h = cc

full :
    (slots : List DeviceSlot) → position_of is_free slots ≡ none → count_active slots ≡ length slots
full [] h = refl
full (s ∷ slots) h =
    let (a, b) = absent is_free s slots h in
    let active : is_active s ≡ true = not_free (is_active s) a in rw active (ap suc (full slots b))

-- Slot `i` becomes the active slot of a device that had none.
taken :
    (slots : List DeviceSlot) (i : ℕ) (s : DeviceSlot)
    → is_active s ≡ true
    → position_of is_free slots ≡ some i
    → position_of (is_device s.device_id) slots ≡ none
    → (position_of (is_device s.device_id) (set slots i s) ≡ some i)
      × (count_active (set slots i s) ≡ suc (count_active slots))
taken [] i s a h n = cc
taken (x ∷ slots) i s a h n = elim (Bool-cases (is_active x)) [
  | inl t ↦
      let (j, e, i_is) = behind is_free x slots i (rw t) h in
      let (f, m) = absent (is_device s.device_id) x slots n in
      let (found, more) = taken slots j s a e m in rw (i_is, f, found, t) (refl, ap suc more)
  | inr f ↦
      let i_is : 0 ≡ i = some-injective (rw f at h) in
      rw (sym i_is, a, f, bytes_eq_refl s.device_id) (refl, refl)
]

-- A header with its slot `i` replaced.
abbrev with_slot : VaultHeader → ℕ → DeviceSlot → VaultHeader
with_slot h i s = record h { device_slots = set h.device_slots i s }

-- A device that has no active slot and is enrolled in the first empty one is found there, and there
-- is one more active slot; when there is no empty slot, all of them are active.
pub first_empty_slot-find_device_slot :
    (h : VaultHeader) (s : DeviceSlot)
    → is_active s ≡ true
    → find_device_slot h s.device_id ≡ none
    → ((i : ℕ) × (first_empty_slot h ≡ some i)
        × (find_device_slot (with_slot h i s) s.device_id ≡ some i)
        × (active_slot_count (with_slot h i s) ≡ suc (active_slot_count h)))
      ⊎ ((first_empty_slot h ≡ none) × (active_slot_count h ≡ length h.device_slots))
unfolding find_device_slot first_empty_slot active_slot_count
first_empty_slot-find_device_slot h s a n = elim (Option-cases (first_empty_slot h)) [
  | inl e ↦ inr (e, full h.device_slots e)
  | inr (i, e) ↦ let (found, more) = taken h.device_slots i s a e n in inl (i, e, found, more)
]
