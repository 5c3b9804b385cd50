-- ===== src/Streaming/Flow.antt =====
-- The errors of the two flows, `SdkError` of sdk/sdk-core/src/error.rs, and a flow's calls in a row.
use wattcloud.Common.{
  List, [], ◌∷◌, ◌≡◌, sym, ap, ◌∙◌, inl, inr, Result, ok, err, Result-cases, ok-injective,
}
use wattcloud.WireFormat.Crypto.{CryptoError}

pub data SdkError : Type 0 where
  crypto : CryptoError → SdkError
  invalid_byo_chunk_size upload_already_finalized : SdkError

-- A call on each input, up to the first error; the results are collected.
module _ {S A B : Type 0} (call : S → A → S × Result SdkError B) where
  unfoldable pub call_all : S → List A → S × Result SdkError (List B)
  call_all s [] = (s, ok [])
  call_all s (a ∷ as') = elim (call s a).1 [
    | err x ↦ ((call s a).0, err x)
    | ok b ↦ elim (call_all (call s a).0 as').1 [
      | err x ↦ ((call_all (call s a).0 as').0, err x)
      | ok bs ↦ ((call_all (call s a).0 as').0, ok (b ∷ bs))
    ]
  ]

  pub record Calls (s : S) (a : A) (as' : List A) (bs : List B) : Type 0 where
    pub first : B
    pub others : List B
    pub head : (call s a).1 ≡ ok first
    pub tail : (call_all (call s a).0 as').1 ≡ ok others
    pub results : bs ≡ first ∷ others
    pub state : (call_all s (a ∷ as')).0 ≡ (call_all (call s a).0 as').0

  -- A row of calls that succeeds, taken apart at its first call.
  pub call_all-cons :
      (s : S) (a : A) (as' : List A) (bs : List B)
      → (call_all s (a ∷ as')).1 ≡ ok bs
      → Calls s a as' bs
  unfolding call_all
  call_all-cons s a as' bs h = elim (Result-cases (call s a).1) [
    | inr (x, e) ↦ cc (rw (e, call_all) at h)
    | inl (b, e) ↦ elim (Result-cases (call_all (call s a).0 as').1) [
      | inr (x, f) ↦ cc (rw (e, f, call_all) at h)
      | inl (rest, f) ↦ record {
        first = b;
        others = rest;
        head = e;
        tail = f;
        results = sym (ok-injective (rw (e, f, call_all) at h));
        state = rw (e, f, call_all);
      }
    ]
  ]

  -- And put together.
  pub call_all-step :
      (s s' s'' : S) (a : A) (b : B) (as' : List A) (bs : List B)
      → call s a ≡ (s', ok b)
      → call_all s' as' ≡ (s'', ok bs)
      → call_all s (a ∷ as') ≡ (s'', ok (b ∷ bs))
  unfolding call_all
  call_all-step s s' s'' a b as' bs e f =
      let g : call_all (call s a).0 as' ≡ (s'', ok bs) = ap (λ t. call_all t.0 as') e ∙ f in
      rw (ap (λ t. t.1) e, ap (λ t. t.1) g, call_all) (ap (λ t. (t.0, ok (b ∷ bs))) g)

  -- Two calls with the same outcome go on alike.
  pub call_all-same :
      (s s' : S) (a a' : A) (as' : List A)
      → call s a ≡ call s' a'
      → call_all s (a ∷ as') ≡ call_all s' (a' ∷ as')
  unfolding call_all
  call_all-same s s' a a' as' e =
      ap
        (λ q. elim q.1 [
          | err x ↦ (q.0, err x)
          | ok b ↦ elim (call_all q.0 as').1 [
            | err x ↦ ((call_all q.0 as').0, err x)
            | ok bs ↦ ((call_all q.0 as').0, ok (b ∷ bs))
          ]
        ])
        e
