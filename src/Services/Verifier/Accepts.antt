-- ===== src/Services/Verifier/Accepts.antt =====
-- A grant that the engine has just issued, at the client's verifier.
use access.Common.{◌≡◌, refl, true, false, some, String, Bytes, ◌!=◌, arith}
use access.Common.Tests.{Eq, string_eq, bytes_eq, option_eq}
use access.Common.Int.{ℤ, ltb_ℤ, ◌≤ℤ◌, saturating_add, as_i64}
use access.Common.Result.{ok}
use access.Platform.{Platform}
use access.Protocol.Claims.{AuthorizedStage, authorization_grant, message_type_eq, ProtocolClaims}
use access.Profile.{ProtocolRuleDecision}
use access.Cedar.{AccessDecision}
use access.Session.Engine.{AccessEngine}
use access.Session.Request.{grant_claims}
use access.Services.Verifier.{
  VerifyCommand, ClientTrustBundle, VerifiedEntitlement, stage_name, trusts_authority, accept,
  report,
}

neq_self : {A : Type 0} ⦃e : Eq A⦄ (x : A) → x != x ≡ false
neq_self x = ground arith

module _ (p : Platform) (m : AccessEngine p) (session : String) (stage : AuthorizedStage)
    (rule : ProtocolRuleDecision) (decision : AccessDecision) (grant_id : String) (now : ℤ)
    (nonce : Bytes) where
  -- What the verifier answers to the grant.
  abbrev pub entitlement : ClientTrustBundle → VerifiedEntitlement
  entitlement bundle = record {
    verified = true;
    trust_bundle_id = bundle.bundle_id;
    trust_bundle_version = bundle.version;
    authority_id = m.station.key_id;
    client_id = bundle.client_id;
    grant_id = grant_id;
    session_id = session;
    authorized_stage = stage_name stage;
    expires_at_s = saturating_add now (as_i64 rule.entitlement_ttl_s);
    protocol_profile_id = rule.profile_id;
    protocol_profile_version = rule.profile_version;
    rule_id = rule.rule_id;
    authorization_policy_bundle_id = decision.policy.bundle_id;
    authorization_policy_bundle_version = decision.policy.bundle_version;
    authorization_policy_sha256 = decision.policy.policy_sha256;
  }

  -- The claims of a grant are accepted by a command that expects its station, session and stage.
  pub accept-grant_claims :
      (command : VerifyCommand) (bundle : ClientTrustBundle)
      → command.expected_authority ≡ some m.station.key_id
      → trusts_authority bundle m.station.key_id m.station.key_id ≡ true
      → command.expected_session_id ≡ some session
      → command.expected_stage ≡ some (stage_name stage)
      → now ≤ℤ saturating_add now (as_i64 rule.entitlement_ttl_s)
      → accept command bundle now (record {
        signer = m.station.key_id;
        claims = grant_claims p m session stage rule decision grant_id now nonce;
      })
        ≡ ok (entitlement bundle)
  unfolding accept report grant_claims message_type_eq access.Protocol.Claims.MessageType-discrete
  accept-grant_claims command bundle expected trusted in_session staged unexpired =
      let late : ltb_ℤ (saturating_add now (as_i64 rule.entitlement_ttl_s)) now ≡ false =
        ground (arith, unexpired) in
      rw
        (
          expected,
          trusted,
          in_session,
          staged,
          late,
          neq_self m.station.key_id,
          neq_self (some session),
          neq_self (some (stage_name stage)),
        )
        refl
