-- ===== src/Profile/Evaluate.antt =====
-- `evaluate` against the conditions under which a profile admits a transition.
use access.Common.{
  ℕ, ◌≤◌, ◌≡◌, refl, ◌↔◌, Bool, true, false, Option, none, some, List, String, unwrap_or, All,
  arith,
}
use access.Common.Tests.{string_eq}
use access.Common.Int.{ℤ, pos, ◌≤ℤ◌, saturating_sub}
use access.Common.Result.{ok, ok_or, bail_if, >>=-eq-ok, ok_or-eq-ok}
use access.Platform.{Platform}
use access.Profile.{
  StageRuleProfile, ProtocolProfile, VerifiedCredentialEvidence, ProtocolRuleDecision,
  validate_credentials, ReadinessEvidence, validate_foundation, matching_rule, lacks_proof,
  lacks_session, readiness_age, evaluate,
}
use access.Profile.Admits.{IsCovered, validate_credentials_iff}

module _ (p : Platform) (self : ProtocolProfile) (now : ℤ) (bundle : String) (version : ℕ)
    (issued : ℤ) where
  -- The profile is within its validity interval, and the trust bundle is the one that it names,
  -- recent enough in version and age.
  pub record IsFounded : Type 0 where
    pub valid_from : ℤ
    pub from_parsed : p.parse_from_rfc3339 self.valid_from ≡ some valid_from
    pub valid_until : ℤ
    pub until_parsed : p.parse_from_rfc3339 self.valid_until ≡ some valid_until
    pub begun : valid_from ≤ℤ now
    pub unexpired : now ≤ℤ valid_until
    pub same_bundle : self.trust_bundle.bundle_id ≡ bundle
    pub new_enough : self.trust_bundle.minimum_version ≤ version
    pub young_enough : saturating_sub now issued ≤ℤ self.trust_bundle.maximum_age_s

  validate_foundation-IsFounded :
      validate_foundation p self now bundle version issued ≡ ok tt → IsFounded
  unfolding validate_foundation
  validate_foundation-IsFounded h =
      let (start, e1, h1) = >>=-eq-ok (ok_or (p.parse_from_rfc3339 self.valid_from) _) _ h in
      let (end, e2, h2) = >>=-eq-ok (ok_or (p.parse_from_rfc3339 self.valid_until) _) _ h1 in
      record {
        valid_from = start;
        from_parsed = ok_or-eq-ok _ _ e1;
        valid_until = end;
        until_parsed = ok_or-eq-ok _ _ e2;
        begun = ground arith;
        unexpired = ground arith;
        same_bundle = ground arith;
        new_enough = ground arith;
        young_enough = ground arith;
      }

  IsFounded-validate_foundation :
      IsFounded → validate_foundation p self now bundle version issued ≡ ok tt
  unfolding validate_foundation
  IsFounded-validate_foundation k = rw (k.from_parsed, k.until_parsed) (ground arith)

  -- The foundation is validated exactly when both timestamps parse, the time lies between them and
  -- the trust bundle is the required one, no older in version or age than the profile allows.
  pub validate_foundation_iff :
      (validate_foundation p self now bundle version issued ≡ ok tt) ↔ IsFounded
  validate_foundation_iff = (validate_foundation-IsFounded, IsFounded-validate_foundation)

  module _ (from_stage to_stage : String) (credentials : List VerifiedCredentialEvidence)
      (proof : Option ℤ) (authorized : Bool) (readiness : ReadinessEvidence p) where
    pub record Admits (decision : ProtocolRuleDecision) : Type 0 where
      pub founded : IsFounded
      pub covered : All (IsCovered self now) credentials
      pub rule : StageRuleProfile
      pub matched : matching_rule p self from_stage to_stage ≡ some rule
      pub proven :
          rule.holder_proof_required ≡ true
          → (at : ℤ) × (proof ≡ some at)
            × (saturating_sub now at ≤ℤ unwrap_or (pos 0) rule.maximum_proof_age_s)
      pub session : rule.required_session_status ≡ "authorized" → authorized ≡ true
      pub ready : readiness_age p now readiness ≤ℤ rule.readiness.maximum_age_ms
      pub decided : decision ≡ record {
        profile_id = self.profile_id;
        profile_version = self.profile_version;
        rule_id = rule.rule_id;
        entitlement_ttl_s = rule.entitlement_ttl_s;
      }

    lacks_proof-eq-false :
        (rule : StageRuleProfile) (o : Option ℤ)
        → proof ≡ o
        → lacks_proof p rule now proof ≡ false
        → rule.holder_proof_required ≡ true
        → (at : ℤ) × (proof ≡ some at)
          × (saturating_sub now at ≤ℤ unwrap_or (pos 0) rule.maximum_proof_age_s)
    lacks_proof-eq-false rule none e h r = absurd (ground arith)
    lacks_proof-eq-false rule (some at) e h r = (at, e, ground arith)

    lacks_proof_of_proven :
        (rule : StageRuleProfile) (b : Bool)
        → rule.holder_proof_required ≡ b
        → (b ≡ true
            → (at : ℤ) × (proof ≡ some at)
              × (saturating_sub now at ≤ℤ unwrap_or (pos 0) rule.maximum_proof_age_s))
        → lacks_proof p rule now proof ≡ false
    lacks_proof_of_proven rule false e k = rw e
    lacks_proof_of_proven rule true e k =
        let (at, given, young) = k refl in rw (e, given) (ground arith)

    evaluate-Admits :
        (decision : ProtocolRuleDecision)
        → evaluate p self from_stage to_stage now bundle version issued credentials proof authorized
            readiness
          ≡ ok decision
        → Admits decision
    unfolding evaluate
    evaluate-Admits decision h =
        let (_, founded, h1) =
          >>=-eq-ok (validate_foundation p self now bundle version issued) _ h in
        let (_, covered, h2) = >>=-eq-ok (validate_credentials self credentials now) _ h1 in
        let (rule, matched, h3) =
          >>=-eq-ok (ok_or (matching_rule p self from_stage to_stage) _) _ h2 in
        let (_, proven, h4) = >>=-eq-ok (bail_if (lacks_proof p rule now proof) _) _ h3 in
        let (_, session, h5) = >>=-eq-ok (bail_if (lacks_session p rule authorized) _) _ h4 in
        record {
          founded = validate_foundation-IsFounded founded;
          covered = (validate_credentials_iff self now credentials).0 covered;
          rule = rule;
          matched = ok_or-eq-ok _ _ matched;
          proven = lacks_proof-eq-false rule proof refl (ground arith);
          session = λ required. ground arith;
          ready = ground arith;
          decided = ground arith;
        }

    Admits-evaluate :
        (decision : ProtocolRuleDecision)
        → Admits decision
        → evaluate p self from_stage to_stage now bundle version issued credentials proof authorized
            readiness
          ≡ ok decision
    unfolding evaluate
    Admits-evaluate decision k =
        rw
          (
            IsFounded-validate_foundation k.founded,
            (validate_credentials_iff self now credentials).1 k.covered,
            k.matched,
            lacks_proof_of_proven k.rule k.rule.holder_proof_required refl k.proven,
          )
          (ground (arith, k.session, k.decided))

    -- A transition is admitted exactly when the profile and trust bundle are in force, every
    -- presented credential is covered, a rule matches the two stages, and that rule's demands of
    -- holder proof, session and readiness are met; the decision is then that rule's.
    pub evaluate_iff :
        (decision : ProtocolRuleDecision)
        → (evaluate p self from_stage to_stage now bundle version issued credentials proof
              authorized readiness
            ≡ ok decision)
          ↔ Admits decision
    evaluate_iff decision = (evaluate-Admits decision, Admits-evaluate decision)
