-- ===== src/Session/Redeem/Issued.antt =====
-- A grant that was just issued, at the gate.
use access.Common.{
  ℕ, zero, suc, ◌≤◌, ◌≡◌, refl, sym, ap, ◌∙◌, subst, ◌⊎◌, inl, inr, true, false, Option, none, some,
  List, [], ◌∷◌, String, Bytes, get, insert, get-insert_self, without, length, contains, arith,
}
use access.Common.Tests.{string_eq, bytes_eq, nat_eq, option_eq}
use access.Common.Int.{ℤ, ◌≤ℤ◌, saturating_add, as_i64, abs_diff, unsigned_abs}
use access.Common.Result.{ok}
use access.Platform.{Platform}
use access.Protocol.Claims.{AuthorizedStage}
use access.Protocol.Replay.{ReplayCache, ReplayStateBackend, consume}
use access.Protocol.Envelope.{VerifiedEnvelope, verify_envelope, check_envelope, consume_nonce}
use access.Protocol.Envelope.Accepted.{verify_envelope-IsChecked}
use access.StateMachine.{
  DockingState, hold, approach, final_approach, soft_capture, DockingEvent, begin_approach,
  enter_final_approach, engage_soft_capture, engage_hard_dock, AuthorizationContext, reduce,
}
use access.Profile.{ProtocolRuleDecision}
use access.Cedar.{AccessDecision}
use access.Session.Outcomes.{max_clock_skew_s}
use access.Session.Stages.{transition_for}
use access.Session.Stages.Agreement.{stage_state}
use access.Session.Engine.{PendingEntitlement, AccessEngine, Cache}
use access.Session.Request.{grant_claims}
use access.Session.Redeem.{is_hard_dock, mismatches_rule}
use access.Session.Redeem.Matched.{IsMatched}

-- The event of a request is one that the reducer accepts under the authorization of an open session.
pub transition_for-reduce :
    (s : DockingState) (requested : ℕ) (event_kind : DockingEvent) (stage : AuthorizedStage)
    (a : AuthorizationContext)
    → transition_for s requested ≡ some (event_kind, stage)
    → a.identity_verified ≡ true
    → a.session_authorized ≡ true
    → reduce s event_kind (record {
      identity_verified = a.identity_verified;
      session_authorized = a.session_authorized;
      docking_authorized = is_hard_dock stage;
    })
      ≡ ok (stage_state stage)
unfolding transition_for reduce
transition_for-reduce hold (suc zero) begin_approach AuthorizedStage.approach a h i k = refl
transition_for-reduce approach (suc (suc zero)) enter_final_approach AuthorizedStage.final_approach
      a h i k =
    rw i refl
transition_for-reduce final_approach (suc (suc (suc zero))) engage_soft_capture
      AuthorizedStage.soft_capture a h i k =
    rw k refl
transition_for-reduce soft_capture (suc (suc (suc (suc zero)))) engage_hard_dock
      AuthorizedStage.hard_dock a h i k =
    refl
transition_for-reduce s requested event_kind stage a h i k = absurd (ground arith)

module _ (p : Platform) {S : Type 0} (B : ReplayStateBackend S) where
  pub verify_envelope-runs :
      (encoded : Bytes) (trust : List (String × p.VerifyingKey)) (recipient : String) (now skew : ℤ)
      (v : VerifiedEnvelope) (c c' : ReplayCache S)
      → check_envelope p encoded trust recipient now skew ≡ ok v
      → consume B v.claims.nonce c ≡ (ok tt, c')
      → verify_envelope p B encoded trust recipient now skew c ≡ (ok v, c')
  unfolding verify_envelope consume_nonce access.Common.Exec.◌>>=◌
  verify_envelope-runs encoded trust recipient now skew v c c' checked used =
      rw (checked, used) refl

pub abs_diff_self : (now skew : ℤ) → abs_diff now now ≤ unsigned_abs skew
unfolding abs_diff
abs_diff_self now skew = ground arith

module _ (p : Platform) (requested : ℕ) (session : String) (stage : AuthorizedStage)
    (rule : ProtocolRuleDecision) (decision : AccessDecision) (now : ℤ) (grant_id : String)
    (nonce : Bytes) (m : AccessEngine p) where
  abbrev pub entry : PendingEntitlement
  entry = record { requested_state = requested; authorization_decision = decision }

  -- The claims of a grant agree with the rule and the decision that it is of.
  pub grant_claims-agree :
      mismatches_rule
        (grant_claims p m session stage rule decision grant_id now nonce)
        rule
        decision
      ≡ false
  unfolding mismatches_rule grant_claims
  grant_claims-agree = ground arith

  abbrev pub issued_engine : ℕ → AccessEngine p
  issued_engine fills = record m {
    fills = fills;
    pending_entitlements = insert m.pending_entitlements grant_id entry;
  }

  abbrev pub matched_engine : ℕ → Cache p → AccessEngine p
  matched_engine fills c = record (issued_engine fills) {
    gate_replay = c;
    pending_entitlements = without (insert m.pending_entitlements grant_id entry) grant_id;
  }

  module _ (encoded : Bytes) (hex : String) (fills : ℕ) (c : Cache p)
      (decoded : p.hex_decode hex ≡ some encoded)
      (verified : verify_envelope p p.backend encoded m.gate_trust m.chaser.key_id now
          max_clock_skew_s m.gate_replay
        ≡ (
          ok (record {
            signer = m.station.key_id;
            claims = grant_claims p m session stage rule decision grant_id now nonce;
          }),
          c,
        ))
      (unexpired : now ≤ℤ saturating_add now (as_i64 rule.entitlement_ttl_s)) where
    pub issued-IsMatched :
        IsMatched p hex requested session stage now
          (issued_engine fills)
          (matched_engine fills c)
          (record {
            signer = m.station.key_id;
            claims = grant_claims p m session stage rule decision grant_id now nonce;
          })
          grant_id
          entry
    unfolding grant_claims
    issued-IsMatched =
        let (checked, unused, _) =
          verify_envelope-IsChecked p p.backend encoded m.gate_trust m.chaser.key_id now
            max_clock_skew_s m.gate_replay c _ verified in
        record {
          encoded = encoded;
          decoded = decoded;
          cache = c;
          verified = verified;
          checked = checked;
          unused = unused;
          named = refl;
          found = get-insert_self m.pending_entitlements grant_id entry;
          fits = record {
            same_request = refl;
            same_session = refl;
            same_stage = refl;
            expiry = saturating_add now (as_i64 rule.entitlement_ttl_s);
            expires = refl;
            unexpired = unexpired;
          };
          after = refl;
        }
