-- ===== src/Services/Verifier/Issued.antt =====
-- The client's verifier on a grant that the engine has just issued.
use mathlib.Core.Option.{some-injective}
use access.Common.{
  ℕ, ◌≡◌, refl, sym, ap, ◌∙◌, subst, true, false, some, String, Bytes, get, contains, unwrap_or,
  suc, ◌≤◌, arith,
}
use access.Common.Tests.{string_eq, bytes_eq}
use access.Common.Int.{ℤ, ◌≤ℤ◌}
use access.Common.Result.{ok}
use access.Common.Exec
use access.Platform.{Platform}
use access.Platform.Laws.{CoseLaws, CborLaws, HexLaws, FillLaws, IsOctets}
use access.Protocol.Claims.{AuthorizedStage}
use access.Protocol.Identity.{TrustStore, IsSound}
use access.Protocol.Envelope.{VerifiedEnvelope, verify_envelope}
use access.Protocol.Replay.{ReplayStateBackend, ReplayCache}
use access.Protocol.Replay.Once.{consume_unused}
use access.Profile.{ReadinessEvidence}
use access.Session.Outcomes.{TransitionOutcome, max_clock_skew_s}
use access.Session.Stages.{transition_names}
use access.Session.Stages.Agreement.{stage_state, state_name, transition_for-IsTransition}
use access.Session.Engine.{AccessEngine, empty_nonce}
use access.Session.Request.{grant_claims, request_transition}
use access.Session.Request.Decided.{request_transition-IsAsked}
use access.Session.Redeem.Immediate.{
  granted_or_refused, granted-filled, verified-cache, sign_envelope-IsOctets,
}
use access.Session.Answers.{granted_outcome}
use access.Services.{Host}
use access.Services.Verifier.{
  VerifyCommand, ClientTrustBundle, VerifiedEntitlement, VerifierJson, stage_name, trusts_authority,
  decode_command, accept, verify_command,
}
use access.Services.Verifier.Accepts.{accept-grant_claims}

stage_name-state_name :
    (stage : AuthorizedStage) → stage_name stage ≡ state_name (stage_state stage)
stage_name-state_name AuthorizedStage.hold = refl
stage_name-state_name AuthorizedStage.approach = refl
stage_name-state_name AuthorizedStage.final_approach = refl
stage_name-state_name AuthorizedStage.soft_capture = refl
stage_name-state_name AuthorizedStage.hard_dock = refl

module _ (p : Platform) (H : Host) (J : VerifierJson) where
  decode_command-runs :
      (input hex : String) (command : VerifyCommand) (encoded : Bytes)
      → J.command_from_str input ≡ ok command
      → command.command ≡ "verify_entitlement"
      → command.entitlement_hex ≡ some hex
      → p.hex_decode hex ≡ some encoded
      → decode_command p H J input ≡ ok (command, encoded)
  unfolding decode_command string_eq
  decode_command-runs input hex command encoded parsed asked given decoded =
      rw (parsed, asked, given, decoded) refl

  module _ {S : Type 0} (B : ReplayStateBackend S) (bundle : ClientTrustBundle)
      (trust : TrustStore p) where
    verify_command-runs :
        (input : String) (unix_time now : ℤ) (command : VerifyCommand) (encoded : Bytes)
        (v : VerifiedEnvelope) (out : VerifiedEntitlement) (c c' : ReplayCache S)
        → decode_command p H J input ≡ ok (command, encoded)
        → unwrap_or unix_time command.now_s ≡ now
        → verify_envelope p B encoded trust bundle.client_id now max_clock_skew_s c ≡ (ok v, c')
        → accept command bundle now v ≡ ok out
        → verify_command p H J B input bundle trust unix_time c ≡ (ok out, c')
    unfolding verify_command Exec.lift
    verify_command-runs input unix_time now command encoded v out c c' decoded clock verified
          accepted =
        Exec.lift-runs _ _ (command, encoded) decoded
          (Exec.zoom-runs _ _ _ _ _ v c'
            (subst
              (λ t.
                verify_envelope p B encoded trust bundle.client_id t max_clock_skew_s c
                ≡ (ok v, c'))
              (sym clock) verified)
            (ap (λ r. (r, c'))
              (subst (λ t. accept command bundle t v ≡ ok out) (sym clock) accepted)))

-- The client verifies a grant at once, and is told its identifier: where the crates keep their
-- documented laws, the station's signer is sound and is an authority that the client trusts, the
-- command asks to verify this grant for the session and stage of the request, the journal appends,
-- the client has not yet seen what the random source gives
-- from then on, and the grant has not expired when it is issued.
pub verify_command-request_transition :
    (p : Platform) (L : CoseLaws p) (C : CborLaws p) (X : HexLaws p) (F : FillLaws p)
    (requested : ℕ) (now unix_time : ℤ) (readiness : ReadinessEvidence p) (e e' : AccessEngine p)
    (outcome : TransitionOutcome) (hex : String) (expiry : ℤ) (H : Host) (J : VerifierJson)
    {S : Type 0} (B : ReplayStateBackend S) (bundle : ClientTrustBundle) (trust : TrustStore p)
    (input : String) (command : VerifyCommand) (from_stage to_stage : String) (c : ReplayCache S)
    → request_transition p requested now readiness e ≡ (ok outcome, e')
    → outcome.signed_grant_hex ≡ some hex
    → outcome.grant_expires_at_s ≡ some expiry
    → now ≤ℤ expiry
    → ((message : p.CoseSign1) (bytes : Bytes)
        → p.to_tagged_vec message ≡ some bytes
        → IsOctets bytes)
    → IsSound p e.station
    → get trust e.station.key_id ≡ some e.station.verifying_key
    → trusts_authority bundle e.station.key_id e.station.key_id ≡ true
    → bundle.client_id ≡ e.chaser.key_id
    → J.command_from_str input ≡ ok command
    → command.command ≡ "verify_entitlement"
    → command.entitlement_hex ≡ some hex
    → command.expected_authority ≡ some e.station.key_id
    → command.expected_session_id ≡ e.session_id
    → transition_names e.state requested ≡ some (from_stage, to_stage)
    → command.expected_stage ≡ some to_stage
    → unwrap_or unix_time command.now_s ≡ now
    → ((bytes : Bytes) (b : S) → (B.append_and_sync bytes b).0 ≡ ok tt)
    → ((k : ℕ) (bytes : Bytes)
        → e.fills ≤ k
        → p.fill e.random_source k empty_nonce ≡ some bytes
        → contains c.consumed bytes ≡ false)
    → (out : VerifiedEntitlement) × (c' : ReplayCache S) × (verify_command p H J B input bundle
          trust unix_time c
        ≡ (ok out, c'))
      × (outcome.grant_id ≡ some out.grant_id)
unfolding granted_outcome
verify_command-request_transition p L C X F requested now unix_time readiness e e' outcome hex
      expiry H J B bundle trust input command from_stage to_stage c h signed expires unexpired
      octets sound trusted vouched client parsed asked given expected in_session names staged clock
      appends fresh =
    let q = request_transition-IsAsked p requested now readiness e e' outcome h in
    let g =
      granted_or_refused p requested now readiness e e' outcome hex expiry q q.answer signed
        expires in
    let m = g.asked.middle in
    let i = g.admitted.issued in
    let frame = g.asked.carries.frame in
    let station = ap (λ s. s.key_id) frame.station in
    let (above, filled) =
      granted-filled p requested now readiness e e' outcome hex expiry g (suc m.fills) i.nonce
        (omega arith) i.filled in
    let (c', used) = consume_unused B i.nonce c (appends i.nonce) (fresh _ i.nonce above filled) in
    let decoded =
      ap p.hex_decode (sym g.printed)
      ∙ X.hex_decode-hex_encode i.encoded (sign_envelope-IsOctets p _ m.station octets i.signed) in
    let v : VerifiedEnvelope = record {
      signer = m.station.key_id;
      claims =
          grant_claims p m g.asked.session_id g.asked.stage g.admitted.rule g.admitted.decision
            i.grant_id now i.nonce;
    } in
    let verified =
      verified-cache p requested now readiness e e' outcome hex expiry g L C F B trust c c'
        (subst (λ s. IsSound p s) (sym frame.station) sound)
        (subst (λ s. get trust s.key_id ≡ some s.verifying_key) (sym frame.station) trusted) used in
    let stage = some-injective _ _ (
      sym names
      ∙ (transition_for-IsTransition e.state requested g.asked.event_kind g.asked.stage
          g.asked.requests).named) in
    let accepted =
      accept-grant_claims p m g.asked.session_id g.asked.stage g.admitted.rule g.admitted.decision
        i.grant_id now i.nonce command bundle (expected ∙ ap some (sym station))
        (subst (λ id. trusts_authority bundle id id ≡ true) (sym station) vouched)
        (in_session ∙ g.asked.in_session)
        (staged ∙ ap (λ x. some x.1) stage ∙ ap some (sym (stage_name-state_name g.asked.stage)))
        (subst (λ t. now ≤ℤ t) (sym g.expires) unexpired) in
    (
      _,
      c',
      verify_command-runs p H J B bundle trust input unix_time now command i.encoded v _ c c'
          (decode_command-runs p H J input hex command i.encoded parsed asked given decoded) clock
          (subst (λ id. verify_envelope p B i.encoded trust id now max_clock_skew_s c ≡ (ok v, c'))
            (ap (λ s. s.key_id) frame.chaser ∙ sym client) verified)
          accepted,
      sym (ap (λ (x : TransitionOutcome). x.grant_id) i.reported),
    )
