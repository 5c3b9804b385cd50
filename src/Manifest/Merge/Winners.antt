-- ===== src/Manifest/Merge/Winners.antt =====
-- What a merge returns: a valid manifest, newer than its inputs, in which no entry has lost to a
-- worse one.
use wattcloud.Common.{
  ℕ, ◌+◌, ◌≤◌, ◌<◌, ◌≡◌, refl, sym, ap, subst, ◌∙◌, ◌⊎◌, inl, inr, Bool, true, false, Bool-cases,
  Option, some, Option-cases, List, [], ◌∷◌, ok, reject_if, >>=-eq-ok, ok-injective, ltb, map, All,
  arith,
}
use wattcloud.Common.Bytes.{Bytes, bytes_eq, bytes_eq_iff, max_u64, saturating_add, bytes_eq_inst}
use wattcloud.Common.Maps.{get, insert, get-insert}
use wattcloud.Manifest.{ManifestEntry, Manifest, ManifestError}
use wattcloud.Manifest.Validate.{IsValid, is_skewed, validate_manifest, validate_manifest_iff}
use wattcloud.Manifest.Primary.{enforce_primary_uniqueness}
use wattcloud.Manifest.Primary.Unique.{forget, enforce_lem}
use wattcloud.Manifest.Merge.{
  entry_is_better, offer, offer_entries, offer_manifests, max_version, is_rollback, into_values,
  merge_some, merge_manifests,
}

-- An entry of the same id that the given one does not replace.
pub record Beats (w e : ManifestEntry) : Type 0 where
  pub same_id : w.provider_id ≡ e.provider_id
  pub not_worse : entry_is_better e w ≡ false

-- Some entry of the list beats `e`.
abbrev pub Covered : ManifestEntry → List ManifestEntry → Type 0
Covered e [] = ⊥
Covered e (w ∷ ws) = Beats w e ⊎ Covered e ws

-- The map's entry under the id of `e` beats `e`.
record Held (e : ManifestEntry) (by_id : List (Bytes × ManifestEntry)) : Type 0 where
  winner : ManifestEntry
  found : get e.provider_id by_id ≡ some winner
  beats : Beats winner e

abbrev Keyed : List (Bytes × ManifestEntry) → Type 0
Keyed m = All (λ (kv : Bytes × ManifestEntry). kv.1.provider_id ≡ kv.0) m

better_trans :
    (a b c : ManifestEntry)
    → entry_is_better a b ≡ false
    → entry_is_better b c ≡ false
    → entry_is_better a c ≡ false
better_trans a b c h g = ground (arith, h, g)

better_self : (a : ManifestEntry) → entry_is_better a a ≡ false
better_self a = ground arith

better-asym : (a b : ManifestEntry) → entry_is_better a b ≡ true → entry_is_better b a ≡ false
better-asym a b h = ground (arith, h)

insert-Keyed :
    (m : List (Bytes × ManifestEntry)) (e : ManifestEntry)
    → Keyed m
    → Keyed (insert e.provider_id e m)
unfolding insert
insert-Keyed [] e h = (refl, tt)
insert-Keyed ((k, v) ∷ m) e (h, hs) = elim (Bool-cases (bytes_eq k e.provider_id)) [
  | inl same ↦ rw (same, insert) (sym ((bytes_eq_iff k e.provider_id).0 same), hs)
  | inr other ↦ rw (other, insert) (h, insert-Keyed m e hs)
]

get-Keyed :
    (m : List (Bytes × ManifestEntry)) (k : Bytes) (w : ManifestEntry)
    → Keyed m
    → get k m ≡ some w
    → w.provider_id ≡ k
unfolding get
get-Keyed [] k w h g = cc
get-Keyed ((j, v) ∷ m) k w (h, hs) g = elim (Bool-cases (bytes_eq j k)) [
  | inl same ↦
      let e : ◌≡◌ {A = Option ManifestEntry} (some v) (some w) = rw (same, get) at g in
      cc (h, (bytes_eq_iff j k).0 same)
  | inr other ↦ get-Keyed m k w hs (rw (other, get) at g)
]

get-Covered :
    (e : ManifestEntry) (m : List (Bytes × ManifestEntry)) (w : ManifestEntry)
    → get e.provider_id m ≡ some w
    → Beats w e
    → Covered e (into_values m)
unfolding get
get-Covered e [] w g b = cc
get-Covered e ((j, v) ∷ m) w g b = elim (Bool-cases (bytes_eq j e.provider_id)) [
  | inl same ↦
      let eq : ◌≡◌ {A = Option ManifestEntry} (some v) (some w) = rw (same, get) at g in
      inl (subst (λ t. Beats t e) (cc eq) b)
  | inr other ↦ inr (get-Covered e m w (rw (other, get) at g) b)
]

-- An offer keeps what is held for every entry, and holds the entry offered.
offer-Keyed : (x : ManifestEntry) (m : List (Bytes × ManifestEntry)) → Keyed m → Keyed (offer x m)
unfolding offer
offer-Keyed x m h = elim (Option-cases (get x.provider_id m)) [
  | inl absent ↦ rw (absent, offer) (insert-Keyed m x h)
  | inr (w, present) ↦ elim (Bool-cases (entry_is_better x w)) [
    | inl better ↦ rw (present, better, offer) (insert-Keyed m x h)
    | inr worse ↦ rw (present, worse, offer) h
  ]
]

offer-Held : (x : ManifestEntry) (m : List (Bytes × ManifestEntry)) → Keyed m → Held x (offer x m)
unfolding offer
offer-Held x m h = elim (Option-cases (get x.provider_id m)) [
  | inl absent ↦ rw (absent, offer) (inserted x)
  | inr (w, present) ↦ elim (Bool-cases (entry_is_better x w)) [
    | inl better ↦ rw (present, better, offer) (inserted x)
    | inr worse ↦
        rw (present, worse, offer)
          (record {
            winner = w;
            found = present;
            beats = record { same_id = get-Keyed m x.provider_id w h present; not_worse = worse };
          })
  ]
]
  where
    inserted : (y : ManifestEntry) → Held y (insert y.provider_id y m)
    inserted y = record {
      winner = y;
      found = ground (
        arith,
        get-insert y.provider_id y.provider_id y m,
        (bytes_eq_iff y.provider_id y.provider_id).1 refl,
      );
      beats = record { same_id = refl; not_worse = better_self y };
    }

offer-keeps :
    (e x : ManifestEntry) (m : List (Bytes × ManifestEntry)) → Held e m → Held e (offer x m)
unfolding offer
offer-keeps e x m h = elim (Option-cases (get x.provider_id m)) [
  | inl absent ↦
      rw (absent, offer)
        (elim (Bool-cases (bytes_eq x.provider_id e.provider_id)) [
          | inl same ↦ cc (
            absent,
            h.found,
            ap (λ k. get k m) ((bytes_eq_iff x.provider_id e.provider_id).0 same),
          )
          | inr other ↦ apart other
        ])
  | inr (w, present) ↦ elim (Bool-cases (entry_is_better x w)) [
    | inr worse ↦ rw (present, worse, offer) h
    | inl better ↦
        rw (present, better, offer)
          (elim (Bool-cases (bytes_eq x.provider_id e.provider_id)) [
            | inr other ↦ apart other
            | inl same ↦
                let k : x.provider_id ≡ e.provider_id =
                  (bytes_eq_iff x.provider_id e.provider_id).0 same in
                let both : ◌≡◌ {A = Option ManifestEntry} (some h.winner) (some w) =
                  sym h.found ∙ ap (λ t. get t m) (sym k) ∙ present in
                let one : h.winner ≡ w = cc both in
                record {
                  winner = x;
                  found = ground (arith, get-insert x.provider_id e.provider_id x m, same);
                  beats = record {
                    same_id = k;
                    not_worse =
                        better_trans e w x (ap (entry_is_better e) (sym one) ∙ h.beats.not_worse)
                          (better-asym x w better);
                  };
                }
          ])
  ]
]
  where
    apart : bytes_eq x.provider_id e.provider_id ≡ false → Held e (insert x.provider_id x m)
    apart other = record {
      winner = h.winner;
      found = ground (arith, get-insert x.provider_id e.provider_id x m, other, h.found);
      beats = h.beats;
    }

-- After a row of offers, the map holds what it held and what was offered.
record Offered (es : List ManifestEntry) (m m' : List (Bytes × ManifestEntry)) : Type 0 where
  keyed : Keyed m'
  keeps : (e : ManifestEntry) → Held e m → Held e m'
  holds : All (λ e. Held e m') es

offered :
    (now : ℕ) (es : List ManifestEntry) (m m' : List (Bytes × ManifestEntry))
    → Keyed m
    → offer_entries now es m ≡ ok m'
    → Offered es m m'
unfolding offer_entries
offered now [] m m' k h =
    let e : m ≡ m' = ok-injective h in
    record { keyed = subst Keyed e k; keeps = λ x. subst (Held x) e; holds = tt }
offered now (x ∷ xs) m m' k h =
    let (_, _, rest) = >>=-eq-ok (reject_if (is_skewed now x) _) _ h in
    let r = offered now xs (offer x m) m' (offer-Keyed x m k) rest in
    record {
      keyed = r.keyed;
      keeps = λ e held. r.keeps e (offer-keeps e x m held);
      holds = (r.keeps x (offer-Held x m k), r.holds);
    }

record AllOffered (ms : List Manifest) (m m' : List (Bytes × ManifestEntry)) : Type 0 where
  keeps : (e : ManifestEntry) → Held e m → Held e m'
  holds : All (λ (mf : Manifest). All (λ e. Held e m') mf.providers) ms

All-map :
    (P Q : ManifestEntry → Type 0) (es : List ManifestEntry)
    → ((e : ManifestEntry) → P e → Q e)
    → All P es
    → All Q es
All-map P Q [] f h = tt
All-map P Q (e ∷ es) f (h, hs) = (f e h, All-map P Q es f hs)

all_offered :
    (now : ℕ) (ms : List Manifest) (m m' : List (Bytes × ManifestEntry))
    → Keyed m
    → offer_manifests now ms m ≡ ok m'
    → AllOffered ms m m'
unfolding offer_manifests
all_offered now [] m m' k h =
    let e : m ≡ m' = ok-injective h in record { keeps = λ x. subst (Held x) e; holds = tt }
all_offered now (mf ∷ ms) m m' k h =
    let (between, a, rest) = >>=-eq-ok (offer_entries now mf.providers m) _ h in
    let r = offered now mf.providers m between k a in
    let s = all_offered now ms between m' r.keyed rest in
    record {
      keeps = λ e held. s.keeps e (r.keeps e held);
      holds =
          (All-map (λ e. Held e between) (λ e. Held e m') mf.providers s.keeps r.holds, s.holds);
    }

Covered-forget :
    (e : ManifestEntry) (us ws : List ManifestEntry)
    → map forget ws ≡ map forget us
    → Covered e us
    → Covered e ws
Covered-forget e [] ws h c = absurd c
Covered-forget e (u ∷ us) [] h c = cc
Covered-forget e (u ∷ us) (w ∷ ws) h (inl b) =
    let same : forget w ≡ forget u = cc h in
    inl (record {
      same_id = ap (λ (t : ManifestEntry). t.provider_id) same ∙ b.same_id;
      not_worse = ap (entry_is_better e) same ∙ b.not_worse;
    })
Covered-forget e (u ∷ us) (w ∷ ws) h (inr c) =
    let others : map forget ws ≡ map forget us = cc h in inr (Covered-forget e us ws others c)

newer :
    (ms : List Manifest) (v : ℕ)
    → max_version ms ≤ v
    → All
        (λ (mf : Manifest).
          (mf.manifest_version < saturating_add v 1) ⊎ (saturating_add v 1 ≡ max_u64))
        ms
newer [] v h = tt
newer (m ∷ ms) v h = (
  elim (Bool-cases (ltb max_u64 (v + 1))) [
    | inl full ↦ inr (ground (arith, full))
    | inr room ↦ inl (ground (arith, room))
  ],
  newer ms v (omega arith),
)

-- What the caller of a merge relies on.
pub record Merged (ms : List Manifest) (now : ℕ) (floor : Option ℕ) (m : Manifest) : Type 0 where
  pub valid : IsValid m now
  pub versions :
      All
        (λ (mf : Manifest).
          (mf.manifest_version < m.manifest_version) ⊎ (m.manifest_version ≡ max_u64))
        ms
  pub no_rollback : is_rollback floor m.manifest_version ≡ false
  pub covered : All (λ (mf : Manifest). All (λ e. Covered e m.providers) mf.providers) ms

covers :
    (by_id : List (Bytes × ManifestEntry)) (result : List ManifestEntry) (ms : List Manifest)
    → map forget result ≡ map forget (into_values by_id)
    → All (λ (mf : Manifest). All (λ e. Held e by_id) mf.providers) ms
    → All (λ (mf : Manifest). All (λ e. Covered e result) mf.providers) ms
covers by_id result [] u h = tt
covers by_id result (mf ∷ ms) u (h, hs) = (
  All-map (λ e. Held e by_id) (λ e. Covered e result) mf.providers
      (λ e held.
        Covered-forget e (into_values by_id) result u
          (get-Covered e by_id held.winner held.found held.beats))
      h,
  covers by_id result ms u hs,
)

reject_if-ok : {a : Unit {0}} (b : Bool) (e : ManifestError) → reject_if b e ≡ ok a → b ≡ false
reject_if-ok true e h = cc
reject_if-ok false e h = refl

-- A merge that succeeds returns a manifest that the validation accepts; its version is above those of
-- all inputs, unless it is stuck at the largest u64, and not below the floor; and for every entry of
-- every input, the result has an entry of the same id that this entry would not replace.
pub merge_manifests_lem :
    (ms : List Manifest) (now : ℕ) (floor : Option ℕ) (m : Manifest)
    → merge_manifests ms now floor ≡ ok m
    → Merged ms now floor m
unfolding merge_manifests merge_some
merge_manifests_lem [] now floor m h = cc
merge_manifests_lem (mf ∷ ms) now floor m h =
    let all = mf ∷ ms in
    let (by_id, a, h1) = >>=-eq-ok (offer_manifests now all []) _ h in
    let (ps, b, h2) = >>=-eq-ok (enforce_primary_uniqueness (into_values by_id)) _ h1 in
    let (_, d, h3) =
      >>=-eq-ok (reject_if (is_rollback floor (saturating_add (max_version all) 1)) _) _ h2 in
    let result : Manifest = record {
      manifest_version = saturating_add (max_version all) 1;
      providers = ps;
    } in
    let (_, f, h4) = >>=-eq-ok (validate_manifest result now) _ h3 in
    let r = all_offered now all [] by_id tt a in
    let en = enforce_lem (into_values by_id) in
    let same : en.result ≡ ps = ok-injective (sym en.returned ∙ b) in
    subst (Merged all now floor) (ok-injective h4) (record {
      valid = (validate_manifest_iff result now).0 f;
      versions = newer all (max_version all) (omega arith);
      no_rollback = reject_if-ok _ _ d;
      covered = covers by_id ps all (ap (map forget) (sym same) ∙ en.unchanged) r.holds;
    })
