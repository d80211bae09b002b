-- ===== src/Session/Request/Expiry.antt =====
-- The expiry of a grant, in the `i64` that it is computed in.
use mathlib.Core.Option.{some-injective}
use access.Common.{ℕ, ◌^◌, ◌<◌, ◌≡◌, sym, ap, ◌∙◌, subst, inl, inr, true, false, some, Bytes, arith}
use access.Common.Int.{ℤ, pos, ◌≤ℤ◌, ◌+ℤ◌, i64_max, i64_min, saturate, saturating_add, as_i64}
use access.Common.Result.{ok}
use access.Platform.{Platform}
use access.Profile.{ReadinessEvidence}
use access.Session.Outcomes.{TransitionOutcome}
use access.Session.Engine.{AccessEngine}
use access.Session.Answers.{granted_outcome}
use access.Session.Request.{grant_claims, request_transition}
use access.Protocol.Claims.{ProtocolClaims}
use access.Protocol.Identity.{IdentityKey}
use access.Protocol.Envelope.{sign_envelope}
use access.Session.Request.Decided.{request_transition-IsAsked}

as_i64-small : (n : ℕ) → n < 2 ^ 63 → as_i64 n ≡ pos n
unfolding as_i64
as_i64-small n h = ground arith

saturating_add-within :
    (a : ℤ) (n : ℕ)
    → i64_min ≤ℤ a
    → a ≤ℤ i64_max
    → (a ≤ℤ saturating_add a (pos n))
      × (saturating_add a (pos n) ≤ℤ a +ℤ pos n)
      × (saturating_add a (pos n) ≤ℤ i64_max)
unfolding saturating_add saturate ◌+ℤ◌
saturating_add-within a n low high = ground arith

module _ (p : Platform) (outcome : TransitionOutcome) where
  -- The expiry that the outcome reports is the one in the claims of the grant that it carries, as
  -- the station signed it.
  pub record IsSignedUntil (station : IdentityKey p) (expiry : ℤ) : Type 0 where
    pub reported : outcome.grant_expires_at_s ≡ some expiry
    pub claims : ProtocolClaims
    pub signed_until : claims.expires_at_s ≡ some expiry
    pub encoded : Bytes
    pub signed : sign_envelope p claims station ≡ ok encoded
    pub granted : outcome.signed_grant_hex ≡ some (p.hex_encode encoded)

-- A grant of a lifetime below 2 ^ 63 seconds, issued at a time that is an `i64`, expires at a time
-- that is an `i64` too: not before it is issued, and no later than its lifetime after. That is the
-- expiry which the station signed in the grant's claims, and the one that the outcome reports.
pub expiry-within :
    (p : Platform) (requested : ℕ) (now : ℤ) (readiness : ReadinessEvidence p)
    (e e' : AccessEngine p) (outcome : TransitionOutcome) (ttl : ℕ)
    → request_transition p requested now readiness e ≡ (ok outcome, e')
    → outcome.approved ≡ true
    → outcome.entitlement_ttl_s ≡ some ttl
    → ttl < 2 ^ 63
    → i64_min ≤ℤ now
    → now ≤ℤ i64_max
    → (expiry : ℤ) × IsSignedUntil p outcome e.station expiry
      × (now ≤ℤ expiry)
      × (expiry ≤ℤ now +ℤ pos ttl)
      × (expiry ≤ℤ i64_max)
unfolding granted_outcome grant_claims
expiry-within p requested now readiness e e' outcome ttl h approved lives small low high =
    let asked = request_transition-IsAsked p requested now readiness e e' outcome h in
    elim asked.answer [
      | inl (a, _) ↦
          let reported = a.issued.reported in
          let same : a.rule.entitlement_ttl_s ≡ ttl =
            some-injective _ _
              (ap (λ (x : TransitionOutcome). x.entitlement_ttl_s) reported ∙ lives) in
          let added : saturating_add now (as_i64 a.rule.entitlement_ttl_s)
              ≡ saturating_add now (pos ttl) =
            ap (saturating_add now) (ap as_i64 same ∙ as_i64-small ttl small) in
          let (after, before, fits) = saturating_add-within now ttl low high in
          (
            saturating_add now (pos ttl),
            record {
              reported =
                  sym (ap (λ (x : TransitionOutcome). x.grant_expires_at_s) reported)
                  ∙ ap some added;
              claims = _;
              signed_until = ap some added;
              encoded = a.issued.encoded;
              signed =
                  subst
                    (λ station.
                      sign_envelope p
                        (grant_claims p asked.middle asked.session_id asked.stage a.rule a.decision
                          a.issued.grant_id now a.issued.nonce)
                        station
                      ≡ ok a.issued.encoded)
                    asked.carries.frame.station a.issued.signed;
              granted = sym (ap (λ (x : TransitionOutcome). x.signed_grant_hex) reported);
            },
            after,
            before,
            fits,
          )
      | inr r ↦ let clash : true ≡ false = sym approved ∙ r.unapproved in cc
    ]
