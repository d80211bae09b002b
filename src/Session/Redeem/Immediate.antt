-- ===== src/Session/Redeem/Immediate.antt =====
-- A request for a transition and, at once, the redemption of its grant.
use mathlib.Core.Option.{some-injective}
use access.Common.{
  ℕ, ◌≡◌, refl, sym, ap, ◌∙◌, subst, ◌⊎◌, inl, inr, true, false, none, some, [], ◌∷◌, String, Bytes,
  get, length, contains, ◌!=◌, arith, suc, ◌≤◌,
}
use access.Common.Tests.{string_eq, bytes_eq}
use access.Common.Int.{ℤ, ◌≤ℤ◌, saturating_add, as_i64}
use access.Common.Text.{format}
use access.Common.Result.{ok, map_err, try-then, bail_if-then, ok_or-then, ok_or-eq-ok}
use access.Platform.{Platform}
use access.Platform.Laws.{CoseLaws, CborLaws, HexLaws, FillLaws, IsOctets}
use access.Utf8.{as_bytes}
use access.Protocol.Claims.{ProtocolClaims, signing_failed}
use access.Protocol.Identity.{IdentityKey, TrustStore, IsSound}
use access.Protocol.Cose.{sign_payload}
use access.Protocol.Replay.{ReplayStateBackend, ReplayCache, consume}
use access.Protocol.Replay.Once.{consume_unused}
use access.Protocol.Envelope.{envelope_aad, sign_envelope, verify_envelope}
use access.Protocol.Envelope.Accepted.{check_envelope_iff}
use access.Protocol.Envelope.RoundTrip.{sign_envelope-IsChecked}
use access.Profile.{ReadinessEvidence}
use access.Session.Outcomes.{TransitionOutcome, max_clock_skew_s}
use access.Session.Stages.{state_number, transition_for}
use access.Session.Stages.Agreement.{stage_state, transition_for-IsTransition}
use access.Session.Engine.{AccessEngine, Cache, empty_nonce}
use access.Session.Request.{grant_claims, evaluate_stage, request_transition}
use access.Session.Request.Decided.{IsAsked, IsAdmitted, IsRefused, request_transition-IsAsked}
use access.Session.Answers.{granted_outcome}
use access.Profile.Evaluate.{Admits}
use access.Session.Redeem.{redeem_transition}
use access.Session.Redeem.Runs.{IsRedeemable, redeemed, redeem_transition-runs}
use access.Session.Redeem.Issued.{
  transition_for-reduce, verify_envelope-runs, abs_diff_self, grant_claims-agree, issued_engine,
  matched_engine, issued-IsMatched,
}

module _ (p : Platform) (requested : ℕ) (now : ℤ) (readiness : ReadinessEvidence p)
    (e e' : AccessEngine p) (outcome : TransitionOutcome) (hex : String) (expiry : ℤ) where
  -- The request was granted, and this is its grant.
  pub record IsGranted : Type 0 where
    pub asked : IsAsked p requested now readiness e e' outcome
    pub admitted :
        IsAdmitted p requested asked.session_id asked.stage now readiness asked.proof_event
          asked.middle e' outcome
          (evaluate_stage p asked.middle asked.from_stage asked.to_stage now readiness)
    pub printed : p.hex_encode admitted.issued.encoded ≡ hex
    pub expires : saturating_add now (as_i64 admitted.rule.entitlement_ttl_s) ≡ expiry

  pub granted_or_refused :
      (q : IsAsked p requested now readiness e e' outcome)
      → ((a : IsAdmitted p requested q.session_id q.stage now readiness q.proof_event q.middle e'
            outcome
            (evaluate_stage p q.middle q.from_stage q.to_stage now readiness))
          × Admits p q.middle.config.protocol_profile now q.middle.config.trust_bundle_id
              q.middle.config.trust_bundle_version q.middle.config.trust_bundle_issued_at_s
              q.from_stage q.to_stage q.middle.verified_credentials q.middle.holder_proof_at_s
              q.middle.authorization.session_authorized readiness a.rule)
        ⊎ IsRefused p requested q.session_id q.stage now readiness q.proof_event q.middle e' outcome
      → outcome.signed_grant_hex ≡ some hex
      → outcome.grant_expires_at_s ≡ some expiry
      → IsGranted
  unfolding granted_outcome
  granted_or_refused q (inl (a, _)) signed expires = record {
    asked = q;
    admitted = a;
    printed =
        some-injective _ _
          (ap (λ (x : TransitionOutcome). x.signed_grant_hex) a.issued.reported ∙ signed);
    expires =
        some-injective _ _
          (ap (λ (x : TransitionOutcome). x.grant_expires_at_s) a.issued.reported ∙ expires);
  }
  granted_or_refused q (inr r) signed expires =
      let clash : none ≡ some hex = sym r.ungranted ∙ signed in cc

  module _ (g : IsGranted) where
    -- The bytes of the grant are the source's, from calls that the request made.
    pub granted-filled :
        (k : ℕ) (bytes : Bytes)
        → g.asked.middle.fills ≤ k
        → p.fill g.asked.middle.random_source k empty_nonce ≡ some bytes
        → (e.fills ≤ k) × (p.fill e.random_source k empty_nonce ≡ some bytes)
    granted-filled k bytes above filled =
        let carries = g.asked.carries in
        (
          omega (arith, above, carries.later),
          subst (λ r. p.fill r k empty_nonce ≡ some bytes) carries.source filled,
        )

    -- The gate's caches accept the identifiers of a new grant.
    granted-caches :
        ((bytes : Bytes) (b : p.Backend) → (p.backend.append_and_sync bytes b).0 ≡ ok tt)
        → ((k : ℕ) (bytes : Bytes)
            → e.fills ≤ k
            → p.fill e.random_source k empty_nonce ≡ some bytes
            → (contains e'.gate_replay.consumed bytes ≡ false)
              × (contains e'.consumed_grants.consumed
                    (as_bytes (format ("grant-" ∷ p.hex_encode bytes ∷ [])))
                  ≡ false))
        → (c : Cache p) × (d : Cache p) × (consume p.backend g.admitted.issued.nonce
              g.asked.middle.gate_replay
            ≡ (ok tt, c))
          × (consume p.backend (as_bytes g.admitted.issued.grant_id) g.asked.middle.consumed_grants
              ≡ (ok tt, d))
    granted-caches appends fresh =
        let m = g.asked.middle in
        let i = g.admitted.issued in
        let (above, filled) = granted-filled (suc m.fills) i.nonce (omega arith) i.filled in
        let (above', filled') = granted-filled m.fills i.grant_nonce (omega arith) i.grant_filled in
        let (c, used) = consume_unused p.backend i.nonce m.gate_replay (appends i.nonce) (
          ap (λ (x : AccessEngine p). contains x.gate_replay.consumed i.nonce) i.after
          ∙ (fresh _ i.nonce above filled).0) in
        let (d, used') =
          consume_unused p.backend (as_bytes i.grant_id) m.consumed_grants
            (appends (as_bytes i.grant_id))
            (ap (λ (x : AccessEngine p). contains x.consumed_grants.consumed (as_bytes i.grant_id))
                i.after
              ∙ ap (λ id. contains e'.consumed_grants.consumed (as_bytes id)) (sym i.named)
              ∙ (fresh _ i.grant_nonce above' filled').1) in
        (c, d, used, used')

  module _ (g : IsGranted) (L : CoseLaws p) (C : CborLaws p) (F : FillLaws p) where
    -- A recipient of the session who trusts the station's key accepts the grant when it is issued.
    pub verified-cache :
        {S : Type 0} (B : ReplayStateBackend S) (trust : TrustStore p)
        (before after : ReplayCache S)
        → IsSound p g.asked.middle.station
        → get trust g.asked.middle.station.key_id ≡ some g.asked.middle.station.verifying_key
        → consume B g.admitted.issued.nonce before ≡ (ok tt, after)
        → verify_envelope p B g.admitted.issued.encoded trust g.asked.middle.chaser.key_id now
            max_clock_skew_s before
          ≡ (
            ok (record {
              signer = g.asked.middle.station.key_id;
              claims =
                  grant_claims p g.asked.middle g.asked.session_id g.asked.stage g.admitted.rule
                    g.admitted.decision g.admitted.issued.grant_id now g.admitted.issued.nonce;
            }),
            after,
          )
    unfolding grant_claims
    verified-cache B trust before after sound trusted used =
        let m = g.asked.middle in
        let i = g.admitted.issued in
        let claims =
          grant_claims p m g.asked.session_id g.asked.stage g.admitted.rule g.admitted.decision
            i.grant_id now i.nonce in
        let long : length i.nonce ≡ 32 = F.length-fill _ _ _ i.nonce i.filled in
        let checked =
          (check_envelope_iff p i.encoded trust m.chaser.key_id now max_clock_skew_s _).1 (
            sign_envelope-IsChecked p L C m.station sound claims i.encoded trust now
              max_clock_skew_s i.signed trusted (abs_diff_self now max_clock_skew_s)
              (rw long (omega arith))) in
        verify_envelope-runs p B i.encoded trust m.chaser.key_id now max_clock_skew_s _ before after
          checked used

    granted-IsRedeemable :
        (c d : Cache p)
        → p.hex_decode hex ≡ some g.admitted.issued.encoded
        → IsSound p g.asked.middle.station
        → get g.asked.middle.gate_trust g.asked.middle.station.key_id
          ≡ some g.asked.middle.station.verifying_key
        → g.asked.middle.authorization.identity_verified ≡ true
        → g.asked.middle.authorization.session_authorized ≡ true
        → now ≤ℤ expiry
        → consume p.backend g.admitted.issued.nonce g.asked.middle.gate_replay ≡ (ok tt, c)
        → consume p.backend (as_bytes g.admitted.issued.grant_id) g.asked.middle.consumed_grants
          ≡ (ok tt, d)
        → (k : IsRedeemable p hex requested now readiness
            (issued_engine p requested g.asked.session_id g.asked.stage g.admitted.rule
              g.admitted.decision now g.admitted.issued.grant_id g.admitted.issued.nonce
              g.asked.middle g.admitted.issued.fills)
            (matched_engine p requested g.asked.session_id g.asked.stage g.admitted.rule
              g.admitted.decision now g.admitted.issued.grant_id g.admitted.issued.nonce
              g.asked.middle g.admitted.issued.fills c))
          × (k.next ≡ stage_state g.asked.stage)
    unfolding evaluate_stage
    granted-IsRedeemable c d decoded sound trusted identified authorized unexpired used used' =
        let m = g.asked.middle in
        let i = g.admitted.issued in
        let q = g.asked in
        let requests : transition_for m.state requested ≡ some (q.event_kind, q.stage) =
          ap (λ s. transition_for s requested) q.carries.frame.state ∙ q.requests in
        let matched =
          issued-IsMatched p requested q.session_id q.stage g.admitted.rule g.admitted.decision now
            i.grant_id i.nonce m i.encoded hex i.fills c decoded
            (verified-cache p.backend m.gate_trust m.gate_replay c sound trusted used)
            (subst (λ t. now ≤ℤ t) (sym g.expires) unexpired) in
        (
          record {
            event_kind = q.event_kind;
            stage = q.stage;
            requests = requests;
            session = q.session_id;
            in_session = q.carries.frame.session_id ∙ q.in_session;
            grant = _;
            grant_id = i.grant_id;
            pending = _;
            matched = matched;
            from_stage = q.from_stage;
            to_stage = q.to_stage;
            names = q.names;
            rule = g.admitted.rule;
            admitted = g.admitted.admitted;
            agrees =
                grant_claims-agree p requested q.session_id q.stage g.admitted.rule
                  g.admitted.decision now i.grant_id i.nonce m;
            cache = d;
            unused = used';
            next = stage_state q.stage;
            reduced =
                transition_for-reduce m.state requested q.event_kind q.stage m.authorization
                  requests identified authorized;
          },
          refl,
        )

pub sign_envelope-IsOctets :
    (p : Platform) (claims : ProtocolClaims) (identity : IdentityKey p) {encoded : Bytes}
    → ((message : p.CoseSign1) (bytes : Bytes)
        → p.to_tagged_vec message ≡ some bytes
        → IsOctets bytes)
    → sign_envelope p claims identity ≡ ok encoded
    → IsOctets encoded
unfolding sign_envelope sign_payload
sign_envelope-IsOctets p claims identity octets h =
    bail_if-then (claims.issuer != identity.key_id) _ _ h λ _ h1.
      ok_or-then (p.claims_to_cbor claims) _ _ h1 λ payload _ h2.
        try-then
          (map_err signing_failed
            (identity.signer (p.to_be_signed (as_bytes identity.key_id) payload envelope_aad)))
          _ h2 λ signature _ h3. octets _ _ (ok_or-eq-ok _ _ h3)

-- A grant is redeemed at once, into the state that was requested: where the crates keep their
-- documented laws, the station's signer is sound and the gate trusts its key, the session is
-- authorized and its holder identified, the journals append, the gate has not yet seen what the
-- random source gives from then on, and the grant has not expired when it is issued.
pub redeem_transition-request_transition :
    (p : Platform) (L : CoseLaws p) (C : CborLaws p) (X : HexLaws p) (F : FillLaws p)
    (requested : ℕ) (now : ℤ) (readiness : ReadinessEvidence p) (e e' : AccessEngine p)
    (outcome : TransitionOutcome) (hex : String) (expiry : ℤ)
    → request_transition p requested now readiness e ≡ (ok outcome, e')
    → outcome.signed_grant_hex ≡ some hex
    → outcome.grant_expires_at_s ≡ some expiry
    → now ≤ℤ expiry
    → ((message : p.CoseSign1) (bytes : Bytes)
        → p.to_tagged_vec message ≡ some bytes
        → IsOctets bytes)
    → IsSound p e.station
    → get e.gate_trust e.station.key_id ≡ some e.station.verifying_key
    → e.authorization.identity_verified ≡ true
    → e.authorization.session_authorized ≡ true
    → ((bytes : Bytes) (b : p.Backend) → (p.backend.append_and_sync bytes b).0 ≡ ok tt)
    → ((k : ℕ) (bytes : Bytes)
        → e.fills ≤ k
        → p.fill e.random_source k empty_nonce ≡ some bytes
        → (contains e'.gate_replay.consumed bytes ≡ false)
          × (contains e'.consumed_grants.consumed
                (as_bytes (format ("grant-" ∷ p.hex_encode bytes ∷ [])))
              ≡ false))
    → (answer : TransitionOutcome) × (f : AccessEngine p) × (redeem_transition p hex requested now
          readiness e'
        ≡ (ok answer, f))
      × (state_number f.state ≡ requested)
redeem_transition-request_transition p L C X F requested now readiness e e' outcome hex expiry h
      signed expires unexpired octets sound trusted identified authorized appends fresh =
    let q = request_transition-IsAsked p requested now readiness e e' outcome h in
    let g =
      granted_or_refused p requested now readiness e e' outcome hex expiry q q.answer signed
        expires in
    let m = g.asked.middle in
    let i = g.admitted.issued in
    let frame = g.asked.carries.frame in
    let (c, d, used, used') =
      granted-caches p requested now readiness e e' outcome hex expiry g appends fresh in
    let decoded =
      ap p.hex_decode (sym g.printed)
      ∙ X.hex_decode-hex_encode i.encoded (sign_envelope-IsOctets p _ m.station octets i.signed) in
    let (k, target) =
      granted-IsRedeemable p requested now readiness e e' outcome hex expiry g L C F c d decoded
        (subst (λ s. IsSound p s) (sym frame.station) sound)
        (ap (λ t. get t m.station.key_id) frame.gate_trust
          ∙ ap (λ s. get e.gate_trust s.key_id) frame.station
          ∙ trusted
          ∙ ap (λ s. some s.verifying_key) (sym frame.station))
        (ap (λ a. a.identity_verified) frame.authorization ∙ identified)
        (ap (λ a. a.session_authorized) frame.authorization ∙ authorized) unexpired used used' in
    let numbered =
      (transition_for-IsTransition e.state requested g.asked.event_kind g.asked.stage
        g.asked.requests).numbered in
    subst
      (λ x.
        (answer : TransitionOutcome) × (f : AccessEngine p) × (redeem_transition p hex requested now
            readiness x
          ≡ (ok answer, f))
        × (state_number f.state ≡ requested))
      i.after
      (
        _,
        redeemed p hex requested now readiness _ _ k,
        redeem_transition-runs p hex requested now readiness _ _ k,
        ap state_number target ∙ numbered,
      )
