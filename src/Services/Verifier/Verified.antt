-- ===== src/Services/Verifier/Verified.antt =====
-- What the verifier's answer establishes.
use access.Common.{◌≡◌, refl, true, not, ◌||◌, some, String, ◌!=◌, arith}
use access.Common.Tests.{string_eq, bytes_eq, nat_eq, option_eq}
use access.Common.Int.{ℤ, ltb_ℤ, ◌≤ℤ◌}
use access.Common.Result.{ok, ok-injective, bail_if-then, ok_or-then}
use access.Protocol.Claims.{AuthorizedStage, authorization_grant, message_type_eq, ProtocolClaims}
use access.Protocol.Envelope.{VerifiedEnvelope}
use access.Services.Verifier.{
  VerifyCommand, ClientTrustBundle, VerifiedEntitlement, stage_name, trusts_authority, report,
  accept,
}

module _ (bundle : ClientTrustBundle) (signer : String) (claims : ProtocolClaims) (expiry : ℤ)
    (session : String) (stage : AuthorizedStage) (out : VerifiedEntitlement) where
  -- The answer repeats the claims that it reports.
  pub record IsReported : Type 0 where
    pub named : claims.grant_id ≡ some out.grant_id
    pub profile : claims.protocol_profile_id ≡ some out.protocol_profile_id
    pub profile_version : claims.protocol_profile_version ≡ some out.protocol_profile_version
    pub rule : claims.rule_id ≡ some out.rule_id
    pub policy : claims.authorization_policy_bundle_id ≡ some out.authorization_policy_bundle_id
    pub policy_version :
        claims.authorization_policy_bundle_version ≡ some out.authorization_policy_bundle_version
    pub policy_digest : claims.authorization_policy_sha256 ≡ some out.authorization_policy_sha256
    pub verified : out.verified ≡ true
    pub issued_by : out.authority_id ≡ signer
    pub client : out.client_id ≡ bundle.client_id
    pub bundle_id : out.trust_bundle_id ≡ bundle.bundle_id
    pub bundle_version : out.trust_bundle_version ≡ bundle.version
    pub expires : out.expires_at_s ≡ expiry
    pub in_session : out.session_id ≡ session
    pub staged : out.authorized_stage ≡ stage_name stage

  report-IsReported : report bundle signer claims expiry session stage ≡ ok out → IsReported
  unfolding report
  report-IsReported h = ok_or-then claims.grant_id _ _ h λ grant named h1.
      ok_or-then claims.protocol_profile_id _ _ h1 λ profile profiled h2.
        ok_or-then claims.protocol_profile_version _ _ h2 λ version versioned h3.
          ok_or-then claims.rule_id _ _ h3 λ rule ruled h4.
            ok_or-then claims.authorization_policy_bundle_id _ _ h4 λ policy policed h5.
              ok_or-then claims.authorization_policy_bundle_version _ _ h5 λ edition edited h6.
                ok_or-then claims.authorization_policy_sha256 _ _ h6 λ digest digested h7.
                  rw (← ok-injective h7) (record {
                    named = named;
                    profile = profiled;
                    profile_version = versioned;
                    rule = ruled;
                    policy = policed;
                    policy_version = edited;
                    policy_digest = digested;
                    verified = refl;
                    issued_by = refl;
                    client = refl;
                    bundle_id = refl;
                    bundle_version = refl;
                    expires = refl;
                    in_session = refl;
                    staged = refl;
                  })

-- A grant of the authority that the command expects and the bundle trusts, not past its expiry,
-- for the session and stage of the command; and the answer repeats its claims.
pub record IsAccepted (command : VerifyCommand) (bundle : ClientTrustBundle) (now : ℤ)
    (claims : ProtocolClaims) (signer : String) (out : VerifiedEntitlement) : Type 0 where
  pub granted : claims.message_type ≡ authorization_grant
  pub expected : command.expected_authority ≡ some signer
  pub trusted : trusts_authority bundle signer signer ≡ true
  pub expiry : ℤ
  pub expires : claims.expires_at_s ≡ some expiry
  pub unexpired : now ≤ℤ expiry
  pub session : String
  pub in_session : claims.session_id ≡ some session
  pub same_session : command.expected_session_id ≡ some session
  pub stage : AuthorizedStage
  pub staged : claims.authorized_stage ≡ some stage
  pub same_stage : command.expected_stage ≡ some (stage_name stage)
  pub reported : IsReported bundle signer claims expiry session stage out

module _ (command : VerifyCommand) (bundle : ClientTrustBundle) (now : ℤ) (v : VerifiedEnvelope)
    (out : VerifiedEntitlement) where
  pub accept-IsAccepted :
      accept command bundle now v ≡ ok out → IsAccepted command bundle now v.claims v.signer out
  unfolding accept
  accept-IsAccepted h =
      let claims = v.claims in
      bail_if-then (claims.message_type != authorization_grant) _ _ h λ granted h1.
        ok_or-then command.expected_authority _ _ h1 λ authority expected h2.
          bail_if-then (v.signer != authority || not (trusts_authority bundle authority v.signer)) _
            _ h2
            λ trusted h3. ok_or-then claims.expires_at_s _ _ h3 λ expiry expires h4.
              bail_if-then (ltb_ℤ expiry now) _ _ h4 λ unexpired h5.
                ok_or-then claims.session_id _ _ h5 λ session in_session h6.
                  bail_if-then (command.expected_session_id != some session) _ _ h6
                    λ same_session h7. ok_or-then claims.authorized_stage _ _ h7 λ stage staged h8.
                      bail_if-then (command.expected_stage != some (stage_name stage)) _ _ h8
                        λ same_stage h9.
                          let same : v.signer ≡ authority = ground (arith, trusted) in
                          let trust : trusts_authority bundle authority v.signer ≡ true =
                            ground (arith, trusted) in
                          record {
                            granted = ground (arith, granted);
                            expected = rw same expected;
                            trusted = (rw (← same) at trust);
                            expiry = expiry;
                            expires = expires;
                            unexpired = ground (arith, unexpired);
                            session = session;
                            in_session = in_session;
                            same_session = ground (arith, same_session);
                            stage = stage;
                            staged = staged;
                            same_stage = ground (arith, same_stage);
                            reported =
                                report-IsReported bundle v.signer claims expiry session stage out
                                  h9;
                          }
