-- ===== src/Session/Redeem/Matched.antt =====
-- What a grant that the gate has matched establishes.
use access.Common.{
  ℕ, ◌≡◌, refl, ap, false, Option, none, some, String, Bytes, get, without, contains, subst, ◌↔◌,
  arith,
}
use access.Common.Tests.{string_eq, bytes_eq, nat_eq, option_eq}
use access.Common.Int.{ℤ, ◌≤ℤ◌}
use access.Common.Result.{Result, ok, ok_or-eq-ok, bail_if-eq-ok}
use access.Common.Exec.{◌>>=◌, lift-then, gets-then, zoom-then, pure-eq-ok}
use access.Platform.{Platform}
use access.Protocol.Claims.{AuthorizedStage, stage_eq, ProtocolClaims}
use access.Protocol.Envelope.Accepted.{IsChecked, verify_envelope-IsChecked}
use access.Profile.{ProtocolRuleDecision}
use access.Cedar.{AccessDecision}
use access.Session.Request.Granted.{Agrees}
use access.Protocol.Envelope.{VerifiedEnvelope, verify_envelope}
use access.Session.Outcomes.{SessionError, max_clock_skew_s}
use access.Session.Engine.{PendingEntitlement, AccessEngine, Cache, Method}
use access.Session.Redeem.{mismatches_request, mismatches_rule, take_pending, match_grant}

module _ {p : Platform} {B : Type 0} {q : Result SessionError B × AccessEngine p} where
  take_pending-then :
      (grant_id : String) (s : AccessEngine p) (f : Option PendingEntitlement → Method p B)
      → (take_pending p grant_id >>= f) s ≡ q
      → f
          (get s.pending_entitlements grant_id)
          (record s { pending_entitlements = without s.pending_entitlements grant_id })
        ≡ q
  unfolding ◌>>=◌ take_pending
  take_pending-then grant_id s f h = h

-- The grant is for this request: the state, the session, the stage, and a time not yet past.
pub record Fits (claims : ProtocolClaims) (pending : PendingEntitlement) (requested : ℕ)
    (session_id : String) (stage : AuthorizedStage) (now : ℤ) : Type 0 where
  pub same_request : pending.requested_state ≡ requested
  pub same_session : claims.session_id ≡ some session_id
  pub same_stage : claims.authorized_stage ≡ some stage
  pub expiry : ℤ
  pub expires : claims.expires_at_s ≡ some expiry
  pub unexpired : now ≤ℤ expiry

mismatches_request-Fits :
    (claims : ProtocolClaims) (o : Option ℤ) (pending : PendingEntitlement) (requested : ℕ)
    (session_id : String) (stage : AuthorizedStage) (now : ℤ)
    → claims.expires_at_s ≡ o
    → mismatches_request claims pending requested session_id stage now ≡ false
    → Fits claims pending requested session_id stage now
unfolding mismatches_request
mismatches_request-Fits claims none pending requested session_id stage now e h =
    absurd (ground arith)
mismatches_request-Fits claims (some t) pending requested session_id stage now e h = record {
  same_request = ground arith;
  same_session = ground arith;
  same_stage = ground arith;
  expiry = t;
  expires = e;
  unexpired = ground arith;
}

-- The second comparison passes exactly when the grant agrees with the rule and the decision.
pub mismatches_rule_iff :
    (claims : ProtocolClaims) (rule : ProtocolRuleDecision) (decision : AccessDecision)
    → (mismatches_rule claims rule decision ≡ false) ↔ Agrees claims rule decision
unfolding mismatches_rule
mismatches_rule_iff claims rule decision = (
  λ h. record {
    profile_id = ground arith;
    profile_version = ground arith;
    rule_id = ground arith;
    bundle_id = ground arith;
    bundle_version = ground arith;
    policy_sha256 = ground arith;
  },
  λ k. ground (
    arith, k.profile_id, k.profile_version, k.rule_id, k.bundle_id, k.bundle_version,
    k.policy_sha256,
  ),
)

module _ (p : Platform) (hex : String) (requested : ℕ) (session_id : String)
    (stage : AuthorizedStage) (now : ℤ) (e e' : AccessEngine p) (grant : VerifiedEnvelope)
    (grant_id : String) (pending : PendingEntitlement) where
  pub record IsMatched : Type 0 where
    pub encoded : Bytes
    pub decoded : p.hex_decode hex ≡ some encoded
    pub cache : Cache p
    pub verified :
        verify_envelope p p.backend encoded e.gate_trust e.chaser.key_id now max_clock_skew_s
          e.gate_replay
        ≡ (ok grant, cache)
    pub checked : IsChecked p encoded e.gate_trust e.chaser.key_id now max_clock_skew_s grant
    pub unused : contains e.gate_replay.consumed grant.claims.nonce ≡ false
    pub named : grant.claims.grant_id ≡ some grant_id
    pub found : get e.pending_entitlements grant_id ≡ some pending
    pub fits : Fits grant.claims pending requested session_id stage now
    pub after :
        record e {
          gate_replay = cache;
          pending_entitlements = without e.pending_entitlements grant_id;
        }
        ≡ e'

  pub match_grant-IsMatched :
      match_grant p hex requested session_id stage now e ≡ (ok (grant, grant_id, pending), e')
      → IsMatched
  unfolding match_grant
  match_grant-IsMatched h = lift-then _ _ (gets-then _ _ h) λ encoded decoded h2.
      zoom-then _ _ _ _ _ h2 λ envelope cache verified h3. lift-then _ _ h3 λ id named h4.
        lift-then _ _ (take_pending-then id _ _ h4) λ entry found h6. lift-then _ _ h6 λ _ fits h7.
          let (same, state) = pure-eq-ok (envelope, id, entry) _ h7 in
          let one : envelope ≡ grant = ap (λ x. x.0) same in
          let two : id ≡ grant_id = ap (λ x. x.1) same in
          let three : entry ≡ pending = ap (λ x. x.2) same in
          let (checked, unused, _) =
            verify_envelope-IsChecked p p.backend encoded e.gate_trust e.chaser.key_id now
              max_clock_skew_s e.gate_replay cache envelope verified in
          record {
            encoded = encoded;
            decoded = ok_or-eq-ok _ _ decoded;
            cache = cache;
            verified = rw (← one) verified;
            checked =
                subst (IsChecked p encoded e.gate_trust e.chaser.key_id now max_clock_skew_s) one
                  checked;
            unused = rw (← one) unused;
            named = rw (← one, ← two) (ok_or-eq-ok _ _ named);
            found = rw (← two, ← three) (ok_or-eq-ok _ _ found);
            fits =
                rw (← one, ← three)
                  (mismatches_request-Fits envelope.claims envelope.claims.expires_at_s entry
                    requested session_id stage now refl (bail_if-eq-ok _ _ fits));
            after = rw (← two) state;
          }
