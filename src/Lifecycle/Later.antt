-- ===== src/Lifecycle/Later.antt =====
-- What one call keeps of a session.
use go_oid4vp.Base.{
  ℕ, ◌≤◌, ◌≡◌, ◌≢◌, ◌∙◌, sym, ap, refl, subst, Bool, true, false, ◌⊎◌, inl, inr, some, [], arith,
  length,
}
use go_oid4vp.Base.Bytes.{Bytes}
use go_oid4vp.Platform.{Platform}
use go_oid4vp.Session.{Session}
use go_oid4vp.Fault.{ok}
use go_oid4vp.Machine.{now}
use go_oid4vp.Store.{mark_consumed}
use go_oid4vp.Store.Spec.{Sessions, spec_consume}
use go_oid4vp.Request.{mark_served}
use go_oid4vp.WalletMetadata.{absorb_wallet_metadata}
use go_oid4vp.Response.{is_dcapi, is_same_device}
use go_oid4vp.Response.Process.{with_code}
use go_oid4vp.SameDevice.{consume_response_code}
use go_oid4vp.SameDevice.Code.{consume_response_code_iff}

monotone : (b : Bool) → (b ≡ false) ⊎ (b ≡ true)
monotone true = inr refl
monotone false = inl refl

carried :
    {b c d : Bool} → (b ≡ false) ⊎ (c ≡ true) → (c ≡ false) ⊎ (d ≡ true) → (b ≡ false) ⊎ (d ≡ true)
carried (inl off) after = inl off
carried (inr on) (inl off) = cc
carried (inr on) (inr still) = inr still

module _ {V : Platform} where
  -- The session with the fields of another that calls may change.
  abbrev pub changed : Session V → Session V → Session V
  changed s t = record s {
    request_object_served = t.request_object_served;
    wallet_metadata = t.wallet_metadata;
    consumed = t.consumed;
    response_code = t.response_code;
    response_code_used = t.response_code_used;
  }

  -- Later than: only those fields differ, what was served stays served, and what was consumed stays
  -- consumed.
  pub record IsLater (s t : Session V) : Type 0 where
    pub same : t ≡ changed s t
    pub serves : (s.request_object_served ≡ false) ⊎ (t.request_object_served ≡ true)
    pub marks : (s.consumed ≡ false) ⊎ (t.consumed ≡ true)

  -- At any time, a served session is not of the DCAPI flow, a session has a code only if it is of the
  -- same-device flow and consumed, and then one of 22 characters, a code was used only if there
  -- is one, and the kept metadata is within its cap.
  pub record IsSound (s : Session V) : Type 0 where
    pub by_uri : (s.request_object_served ≡ false) ⊎ (is_dcapi s.flow ≡ false)
    pub code :
        (s.response_code ≡ [])
        ⊎ ((is_same_device s.flow ≡ true) × (s.consumed ≡ true) × (length s.response_code ≡ 22))
    pub redeemed : (s.response_code_used ≡ false) ⊎ (s.response_code ≢ [])
    pub metadata : length s.wallet_metadata ≤ 65_536

  pub IsLater-refl : (s : Session V) → IsLater s s
  IsLater-refl s = record {
    same = refl;
    serves = monotone s.request_object_served;
    marks = monotone s.consumed;
  }

  pub IsLater-trans : (s t u : Session V) → IsLater s t → IsLater t u → IsLater s u
  IsLater-trans s t u a b = record {
    same = b.same ∙ ap (λ (x : Session V). changed x u) a.same;
    serves = carried a.serves b.serves;
    marks = carried a.marks b.marks;
  }

  -- What a step does with a session that it finds sound.
  abbrev pub Keeps : Session V → Session V → Type 0
  Keeps s t = IsLater s t × (IsSound s → IsSound t)

  pub Keeps-refl : {s t : Session V} → s ≡ t → Keeps s t
  Keeps-refl {s} e = subst (Keeps s) e (IsLater-refl s, λ h. h)

  pub mark_served-Keeps : (s : Session V) → is_dcapi s.flow ≡ false → Keeps s (mark_served s)
  mark_served-Keeps s f = (
    record { same = refl; serves = inr refl; marks = monotone s.consumed },
    λ h. record { by_uri = inr f; code = h.code; redeemed = h.redeemed; metadata = h.metadata },
  )

  pub absorb-Keeps :
      (s t : Session V) (raw : Bytes) → absorb_wallet_metadata (some s) raw ≡ ok t → Keeps s t
  unfolding absorb_wallet_metadata
  absorb-Keeps s t raw h =
      let made : record s { wallet_metadata = raw } ≡ t = ground arith in
      let small : length raw ≤ 65_536 = ground arith in
      subst (Keeps s) made (
        record {
          same = refl;
          serves = monotone s.request_object_served;
          marks = monotone s.consumed;
        },
        λ i. record { by_uri = i.by_uri; code = i.code; redeemed = i.redeemed; metadata = small },
      )

  mark_consumed-Keeps : (s : Session V) → Keeps s (mark_consumed s)
  mark_consumed-Keeps s = (
    record { same = refl; serves = monotone s.request_object_served; marks = inr refl },
    λ i. record {
      by_uri = i.by_uri;
      code = elim i.code [ inl z ↦ inl z | inr x ↦ inr (x.0, refl, x.2) ];
      redeemed = i.redeemed;
      metadata = i.metadata;
    },
  )

  pub with_code-Keeps :
      (s : Session V) (code : Bytes)
      → is_same_device s.flow ≡ true
      → s.consumed ≡ true
      → length code ≡ 22
      → Keeps s (with_code s code)
  with_code-Keeps s code f used n = (
    record { same = refl; serves = monotone s.request_object_served; marks = inr used },
    λ i. record {
      by_uri = i.by_uri;
      code = inr (f, used, n);
      redeemed = inl refl;
      metadata = i.metadata;
    },
  )

  pub redeem-Keeps :
      (s t : Session V) (code : Bytes) → consume_response_code (some s) code ≡ ok t → Keeps s t
  redeem-Keeps s t code h =
      let r = (consume_response_code_iff s t code).0 h in
      subst (Keeps s) (sym r.3) (
        record {
          same = refl;
          serves = monotone s.request_object_served;
          marks = monotone s.consumed;
        },
        λ i. record { by_uri = i.by_uri; code = i.code; redeemed = inr r.0; metadata = i.metadata },
      )

  pub consume-Keeps :
      (now : ℕ) (f : Sessions V) (s t : Session V)
      → f s.id ≡ some s
      → (spec_consume now s.id f).0 ≡ ok t
      → Keeps s t
  unfolding spec_consume
  consume-Keeps now f s t found h =
      let marked : mark_consumed s ≡ t = ground arith in
      subst (Keeps s) marked (mark_consumed-Keeps s)
