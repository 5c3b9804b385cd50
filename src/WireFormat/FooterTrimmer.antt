-- ===== src/WireFormat/FooterTrimmer.antt =====
-- `FooterTrimmer` of sdk/sdk-core/src/crypto/wire_format.rs: it holds back the end of a stream.
use wattcloud.Common.{
  ℕ, ◌+◌, ◌-◌, min, ◌≤◌, ◌<◌, ◌≡◌, refl, sym, ap, ◌∙◌, inl, inr, Bool-cases, true, false, List, [],
  ◌∷◌, ◌++◌, Result, ok, err, if◌then◌else◌, ltb, length, take, drop, flatten, length-append,
  length-drop, take-drop, append_assoc, append-nil, arith,
}
use wattcloud.Common.Bytes.{Bytes}
use wattcloud.WireFormat.Crypto.{CryptoError, invalid_format, stream_too_short}

pub record FooterTrimmer : Type 0 where
  pub trailing : Bytes
  pub keep : ℕ

-- `FooterTrimmer::new`
abbrev pub new : ℕ → FooterTrimmer
new keep = record { trailing = []; keep = keep }

-- `FooterTrimmer::push`
unfoldable pub push : FooterTrimmer → Bytes → FooterTrimmer × Bytes
push t bytes =
    let trailing = t.trailing ++ bytes in
    if ltb t.keep (length trailing)
    then (let release_len = length trailing - t.keep in
        (record t { trailing = drop release_len trailing }, take release_len trailing))
    else (record t { trailing = trailing }, [])

-- `FooterTrimmer::finalize`
unfoldable pub finalize : FooterTrimmer → Result CryptoError (Bytes × Bytes)
finalize t =
    if ltb (length t.trailing) t.keep
    then err (invalid_format stream_too_short)
    else (let split = length t.trailing - t.keep in
        ok (take split t.trailing, drop split t.trailing))

-- The released pieces of a series of pushes.
unfoldable pub push_all : FooterTrimmer → List Bytes → FooterTrimmer × List Bytes
push_all t [] = (t, [])
push_all t (b ∷ bs) =
    let (t', out) = push t b in let (t'', outs) = push_all t' bs in (t'', out ∷ outs)

-- What has come in is what went out and what is held; held are the last `keep` bytes, or all.
pub record Splits (t : FooterTrimmer) (input : Bytes) (t' : FooterTrimmer) (out : Bytes)
    : Type 0 where
  pub whole : out ++ t'.trailing ≡ t.trailing ++ input
  pub kept : t'.keep ≡ t.keep
  pub held : length t'.trailing ≡ min t.keep (length t.trailing + length input)

push-Splits : (t : FooterTrimmer) (bytes : Bytes) → Splits t bytes (push t bytes).0 (push t bytes).1
unfolding push
push-Splits t bytes = elim (Bool-cases (ltb t.keep (length (t.trailing ++ bytes)))) [
  | inl long ↦ rw long (record {
    whole = take-drop _ (t.trailing ++ bytes);
    kept = refl;
    held = ground (
      arith,
      length-drop (length (t.trailing ++ bytes) - t.keep) (t.trailing ++ bytes),
      length-append t.trailing bytes,
    );
  })
  | inr short ↦
      rw short (record {
        whole = refl;
        kept = refl;
        held = ground (arith, length-append t.trailing bytes);
      })
]

Splits-trans :
    (t t' t'' : FooterTrimmer) (a b x y : Bytes)
    → Splits t a t' x
    → Splits t' b t'' y
    → Splits t (a ++ b) t'' (x ++ y)
Splits-trans t t' t'' a b x y p q = record {
  whole =
      append_assoc x y t''.trailing
      ∙ ap (◌++◌ x) q.whole
      ∙ sym (append_assoc x t'.trailing b)
      ∙ ap (λ u. u ++ b) p.whole
      ∙ append_assoc t.trailing a b;
  kept = q.kept ∙ p.kept;
  held = omega (arith, p.held, p.kept, q.held, length-append a b);
}

pub push_all-Splits :
    (t : FooterTrimmer) (pieces : List Bytes)
    → length t.trailing ≤ t.keep
    → Splits t (flatten pieces) (push_all t pieces).0 (flatten (push_all t pieces).1)
unfolding push_all
push_all-Splits t [] h = record { whole = sym (append-nil _); kept = refl; held = omega arith }
push_all-Splits t (b ∷ bs) h =
    let p = push-Splits t b in
    Splits-trans t (push t b).0 _ b (flatten bs) (push t b).1 _ p
      (push_all-Splits (push t b).0 bs (omega (arith, p.held, p.kept)))

no_bytes : (xs : Bytes) → length xs ≡ 0 → xs ≡ []
no_bytes [] e = refl
no_bytes (x ∷ xs) e = absurd (omega arith)

-- However a stream of `keep` bytes or more is cut into pieces: the pushes release all but the last
-- `keep` of them in order, and `finalize` returns no further body and just those bytes.
pub finalize-push_all :
    (keep : ℕ) (pieces : List Bytes)
    → keep ≤ length (flatten pieces)
    → (footer : Bytes) × (finalize (push_all (new keep) pieces).0 ≡ ok ([], footer))
      × (flatten (push_all (new keep) pieces).1 ++ footer ≡ flatten pieces)
      × (length footer ≡ keep)
unfolding finalize
finalize-push_all keep pieces h =
    let t = (push_all (new keep) pieces).0 in
    let p = push_all-Splits (new keep) pieces (omega arith) in
    let none_left : length t.trailing - t.keep ≡ 0 = omega (arith, p.held, p.kept) in
    let fits : ltb (length t.trailing) t.keep ≡ false = ground (arith, p.held, p.kept) in
    (t.trailing, rw (fits, none_left), p.whole, omega (arith, p.held))

-- A stream shorter than `keep` is released nowhere, however it is cut, and `finalize` refuses it.
pub finalize-push_all_short :
    (keep : ℕ) (pieces : List Bytes)
    → length (flatten pieces) < keep
    → (flatten (push_all (new keep) pieces).1 ≡ [])
      × (finalize (push_all (new keep) pieces).0 ≡ err (invalid_format stream_too_short))
unfolding finalize
finalize-push_all_short keep pieces h =
    let (t, released) = push_all (new keep) pieces in
    let p = push_all-Splits (new keep) pieces (omega arith) in
    let short : ltb (length t.trailing) t.keep ≡ true = ground (arith, p.held, p.kept) in
    (
      no_bytes _
          (omega (arith, p.held, ap length p.whole, length-append (flatten released) t.trailing)),
      rw short,
    )
