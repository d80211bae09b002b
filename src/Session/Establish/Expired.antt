-- ===== src/Session/Establish/Expired.antt =====
-- The scenario of an expired credential.
use access.Common.{◌≡◌, ◌≢◌, sym, ap, ◌∙◌, subst, List, [], ◌∷◌, String, Bytes, arith}
use access.Common.Int.{ℤ, i64_max, i64_min, ◌≤ℤ◌, ◌<ℤ◌, wrapping_sub-one_lt}
use access.Common.Result.{Result, ok, traverse, try-then, ok-injective}
use access.Common.Exec.{lift-then, gets-then, bind-then}
use access.Platform.{Platform}
use access.Platform.Laws.{CoseLaws, CborLaws}
use access.Protocol.Claims.{ProtocolClaims, CredentialClaims}
use access.Protocol.Identity.{IdentityKey, TrustStore}
use access.Protocol.Cose.Carries.{sign_envelope-claims, issue_credential-claims}
use access.Protocol.Credential.{issue_credential, verify_credential}
use access.Protocol.Credential.Laws.{verify_credential_iff}
use access.Protocol.Envelope.{VerifiedEnvelope}
use access.Protocol.Envelope.Accepted.{verify_envelope-IsChecked}
use access.Profile.{VerifiedCredentialEvidence}
use access.Cedar.{AccessDecision}
use access.Session.Outcomes.{expired_credential, SessionOutcome, max_clock_skew_s}
use access.Session.Engine.{AccessEngine, Cache}
use access.Session.Messages.Sent.{zoom-eq-ok}
use access.Session.Messages.{handshake_claims, exchange, send_proof}
use access.Session.Establish.{
  registration_claims, certification_claims, issue_credentials, verified_evidence, prepare_session,
  establish_session,
}
use access.Session.Establish.Opened.{prepare_session-IsPrepared}

module _ {E A B : Type 0} (f : A → Result E B) where
  -- The first value of a walk that succeeded.
  traverse-first :
      (x : A) (xs : List A) {ys : List B}
      → traverse f (x ∷ xs) ≡ ok ys
      → (y : B) × (rest : List B) × (f x ≡ ok y) × (y ∷ rest ≡ ys)
  traverse-first x xs h =
      try-then (f x) _ h
        λ y first h1. try-then (traverse f xs) _ h1 λ rest _ h2. (y, rest, first, ok-injective h2)

module _ (p : Platform) (L : CoseLaws p) (C : CborLaws p) where
  exchange-claims :
      (claims : ProtocolClaims) (signer : IdentityKey p) (trust : TrustStore p) (recipient : String)
      (now : ℤ) (c c' : Cache p) (v : VerifiedEnvelope)
      → exchange p claims signer trust recipient now c ≡ (ok v, c')
      → claims ≡ v.claims
  unfolding exchange
  exchange-claims claims signer trust recipient now c c' v h = lift-then _ _ h λ encoded signed h1.
      let (checked, _, _) =
        verify_envelope-IsChecked p p.backend encoded trust recipient now max_clock_skew_s c c' v
          h1 in
      sign_envelope-claims p L signer C claims signed checked

  -- The proof that arrives presents the credentials that were put into it.
  send_proof-credentials :
      (session_id : String) (challenge : Bytes) (credentials : List Bytes) (now : ℤ)
      (e e' : AccessEngine p) (proof : VerifiedEnvelope)
      → send_proof p session_id challenge credentials now e ≡ (ok proof, e')
      → credentials ≡ proof.claims.credentials
  unfolding send_proof handshake_claims
  send_proof-credentials session_id challenge credentials now e e' proof h =
      bind-then _ _ (gets-then _ _ h) λ nonce s sent h1.
        let (c, exchanged) = zoom-eq-ok _ _ _ _ s proof e' h1 in
        ap (λ (x : ProtocolClaims). x.credentials) (exchange-claims _ _ _ _ now _ c proof exchanged)

  -- A credential that has expired is not verified, whoever issued it.
  expired_evidence :
      (claims : CredentialClaims) (issuer : IdentityKey p) (encoded : Bytes) (trust : TrustStore p)
      (subject : String) (now : ℤ) (evidence : VerifiedCredentialEvidence)
      → issue_credential p claims issuer ≡ ok encoded
      → claims.expires_at_s <ℤ now
      → verified_evidence p trust subject now encoded ≢ ok evidence
  unfolding verified_evidence
  expired_evidence claims issuer encoded trust subject now evidence issued late h =
      try-then (verify_credential p encoded trust subject now) _ h λ read verified _.
        let valid = (verify_credential_iff p encoded trust subject now read).0 verified in
        let same = issue_credential-claims p L issuer C claims issued valid in
        let late' = subst (λ (x : CredentialClaims). x.expires_at_s <ℤ now) same late in
        omega (arith, late', valid.unexpired)

  prepared_expired :
      (now : ℤ) (e e' : AccessEngine p) (session_id : String) (request : VerifiedEnvelope)
      (decision : AccessDecision)
      → i64_min <ℤ now
      → now ≤ℤ i64_max
      → prepare_session p now expired_credential e ≢ (ok (session_id, request, decision), e')
  unfolding issue_credentials registration_claims
  prepared_expired now e e' session_id request decision low high h =
      let k =
        prepare_session-IsPrepared p now expired_credential e e' session_id request decision h in
      let claims = registration_claims k.issuer.key_id k.subject now expired_credential in
      let (first, rest, issued, listed) =
        traverse-first (λ c. issue_credential p c k.issuer) claims
          (certification_claims k.issuer.key_id k.subject now ∷ []) k.issued in
      let carried =
        listed
        ∙ send_proof-credentials k.named k.challenge k.credentials now k.before k.middle k.proof
            k.proved in
      let trust = k.middle.credential_trust in
      let verified =
        subst (λ cs. traverse (verified_evidence p trust k.proof.signer now) cs ≡ ok k.evidence)
          (sym carried) k.presented.verified in
      let (evidence, _, accepted, _) =
        traverse-first (verified_evidence p trust k.proof.signer now) first rest verified in
      expired_evidence claims k.issuer first trust k.proof.signer now evidence issued
        (wrapping_sub-one_lt now low high) accepted

-- No session opens in the scenario of an expired credential, whatever engine it is tried on and at
-- whichever time that is an `i64` above the least, where the crates keep their documented laws.
pub establish_session-expired :
    (p : Platform) (L : CoseLaws p) (C : CborLaws p) (now : ℤ) (e e' : AccessEngine p)
    (outcome : SessionOutcome)
    → i64_min <ℤ now
    → now ≤ℤ i64_max
    → establish_session p now expired_credential e ≢ (ok outcome, e')
unfolding establish_session
establish_session-expired p L C now e e' outcome low high h =
    bind-then _ _ h λ (session_id, request, decision) middle prepared _.
      prepared_expired p L C now e middle session_id request decision low high prepared
