-- ===== src/Profile/Monotone.antt =====
-- How evaluation depends on the evidence that it is given.
use access.Common.{ℕ, ◌≡◌, Bool, Option, List, [], ◌∷◌, ◌++◌, String, All, arith}
use access.Common.Int.{ℤ, pos, ◌≤ℤ◌, saturating_mul, saturating_sub_antitone}
use access.Common.Result.{ok}
use access.Platform.{Platform}
use access.Profile.{
  ProtocolProfile, VerifiedCredentialEvidence, ProtocolRuleDecision, ReadinessEvidence, evaluate,
}
use access.Profile.Admits.{IsCovered}
use access.Profile.Evaluate.{evaluate_iff}

All-append_right : {A : Type 0} (P : A → Type 0) (xs ys : List A) → All P (xs ++ ys) → All P ys
All-append_right P [] ys h = h
All-append_right P (x ∷ xs) ys h = All-append_right P xs ys h.1

module _ (p : Platform) (self : ProtocolProfile) (from_stage to_stage : String) (now : ℤ)
    (bundle : String) (version : ℕ) (issued : ℤ) (proof : Option ℤ) (authorized : Bool)
    (decision : ProtocolRuleDecision) where
  -- The credentials that are presented are checked, and none is required: what is admitted with
  -- some credentials is admitted, with the same decision, when any leading part of them is left out.
  pub evaluate-fewer_credentials :
      (xs ys : List VerifiedCredentialEvidence) (readiness : ReadinessEvidence p)
      → evaluate p self from_stage to_stage now bundle version issued
          (xs ++ ys)
          proof
          authorized
          readiness
        ≡ ok decision
      → evaluate p self from_stage to_stage now bundle version issued ys proof authorized readiness
        ≡ ok decision
  evaluate-fewer_credentials xs ys readiness h =
      let k =
        (evaluate_iff p self now bundle version issued from_stage to_stage (xs ++ ys) proof
            authorized readiness decision).0
          h in
      (evaluate_iff p self now bundle version issued from_stage to_stage ys proof authorized
          readiness decision).1
        (record {
          founded = k.founded;
          covered = All-append_right (IsCovered self now) xs ys k.covered;
          rule = k.rule;
          matched = k.matched;
          proven = k.proven;
          session = k.session;
          ready = k.ready;
          decided = k.decided;
        })

  -- Readiness evidence has no upper limit on its time: what is admitted stays admitted, with the
  -- same decision, when the evidence is dated later, however far in the future.
  pub evaluate-later_readiness :
      (credentials : List VerifiedCredentialEvidence) (readiness : ReadinessEvidence p) (later : ℤ)
      → readiness.observed_at_ms ≤ℤ later
      → evaluate p self from_stage to_stage now bundle version issued credentials proof authorized
          readiness
        ≡ ok decision
      → evaluate p self from_stage to_stage now bundle version issued credentials proof authorized
          (record readiness { observed_at_ms = later })
        ≡ ok decision
  evaluate-later_readiness credentials readiness later after h =
      let k =
        (evaluate_iff p self now bundle version issued from_stage to_stage credentials proof
            authorized readiness decision).0
          h in
      let younger =
        saturating_sub_antitone (saturating_mul now (pos 1000)) readiness.observed_at_ms later
          after in
      let ready = k.ready in
      (evaluate_iff p self now bundle version issued from_stage to_stage credentials proof
          authorized (record readiness { observed_at_ms = later }) decision).1
        (record {
          founded = k.founded;
          covered = k.covered;
          rule = k.rule;
          matched = k.matched;
          proven = k.proven;
          session = k.session;
          ready = omega arith;
          decided = k.decided;
        })
