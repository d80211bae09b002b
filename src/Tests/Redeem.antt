-- ===== src/Tests/Redeem.antt =====
-- The redemption of a grant, run on the fixtures.
use access.Common.{
  ℕ, ◌≡◌, ◌≢◌, ◌↔◌, refl, true, false, Option, none, some, List, [], ◌∷◌, String, Bytes, Bool-cases,
  contains, contains-cons_self, subst, ap, ◌∙◌, inl, inr, ◌==◌, arith,
}
use access.Common.Int.{ℤ, pos}
use access.Common.Result.{Result, ok, err, ok-injective}
use access.Common.Exec
use access.Platform.{Platform}
use access.Protocol.Claims.{ProtocolClaims}
use access.Profile.{ReadinessEvidence}
use access.Session.Outcomes.{TransitionOutcome, SessionError, session_binding, denied}
use access.Protocol.Replay.{default_cache, with_backend}
use access.Protocol.Replay.Restart.{restart}
use access.Session.Engine.{AccessEngine, Cache, assign, enable_persistent_state}
use access.Common.Tests.{bytes_eq, string_eq}
use access.Session.Redeem.{redeem_transition}
use access.Session.Engine.Frame.{Frame}
use access.Session.Redeem.Keeps.{redeem_failed-Frame}
use access.Session.Redeem.Exactly.{IsEntitled, redeem_transition_iff}
use access.Session.Redeem.Advances.{Advances, redeem_transition-Advances, redeem_transition_once}
use access.Protocol.Replay.Once.{after}
use access.Protocol.Replay.Backed.{IsBacked, IsLasting}
use access.Session.History.{reset_engine, perform}
use access.Session.History.Lives.{reopened, here, performs, restarts}
use access.Session.History.Once.{redeemed_once}
use access.Tests.{platform}
use access.Tests.Fixtures.{grant, now, readiness, engine, in_session, pending}

abbrev p : Platform
p = platform (grant ∷ []) []

-- The text whose bytes are the signed grant: "station" and the empty payload, signed with key 2.
abbrev hex : String
hex = "\u{7}station\0\u{2}"

unfoldable start : AccessEngine p
unfolding pending
start = pending (grant ∷ []) []

unfoldable ready : ReadinessEvidence p
unfolding readiness
ready = readiness (grant ∷ []) []

abbrev outcome_of : {A : Type 0} → Result A TransitionOutcome → TransitionOutcome
unfolding denied
outcome_of (ok outcome) = outcome
outcome_of (err e) = denied 0 "" ""

unfoldable outcome : TransitionOutcome
unfolding redeem_transition start ready
outcome = outcome_of (redeem_transition p hex 1 now ready start).0

unfoldable released : AccessEngine p
unfolding redeem_transition start ready
released = (redeem_transition p hex 1 now ready start).1

redeems : redeem_transition p hex 1 now ready start ≡ (ok outcome, released)
unfolding redeem_transition outcome released start ready outcome_of Exec.◌>>=◌ Exec.zoom Exec.gets
    Exec.lift Exec.modify Exec.pure access.Session.Stages.transition_for
    access.Session.Redeem.match_grant access.Protocol.Envelope.verify_envelope
    access.Protocol.Envelope.check_envelope access.Protocol.Envelope.consume_nonce
    access.Protocol.Cose.verify_signed_payload access.Utf8.as_bytes access.Utf8.from_utf8
    access.Utf8.encode_code access.Protocol.Cose.accepts access.Common.Int.abs_diff
    access.Protocol.Replay.consume access.Session.Redeem.take_pending access.Common.Tests.option_eq
    access.Common.Tests.option_dec access.Common.Tests.bytes_dec access.Common.Tests.bytes_eq
    access.Common.Tests.nat_eq access.Common.Tests.string_eq access.Protocol.Claims.stage_eq
    access.Protocol.Claims.AuthorizedStage-discrete access.Session.Stages.transition_names
    access.Session.Request.evaluate_stage access.Common.Int.saturate
    access.Common.Int.saturating_mul access.Common.Int.saturating_sub access.Common.Int.◌*ℤ◌
    access.Common.Int.◌-ℤ◌ access.Profile.evaluate access.Profile.parse_timestamp
    access.Profile.validate_credentials access.Profile.validate_foundation access.Profile.violates
    access.Protocol.Identity.from_seed access.Session.Engine.new
    access.Session.Redeem.mismatches_request access.Session.Redeem.mismatches_rule
    access.Session.Redeem.redeemed_outcome access.Session.Redeem.release access.StateMachine.reduce
    engine in_session pending readiness access.Tests.Fixtures.identity access.Tests.Fixtures.trusts
    access.Tests.entry access.Tests.index platform access.Tests.read_message
    access.Tests.read_signed access.Tests.split native.Mathlib.Decide.ℕ_discrete
redeems = refl

redeem_transition_iff_example :
    ((result : TransitionOutcome) × (e' : AccessEngine p) × (redeem_transition p hex 1 now ready
          start
        ≡ (ok result, e')))
    ↔ IsEntitled p hex 1 now ready start
redeem_transition_iff_example = redeem_transition_iff p hex 1 now ready start

redeem_transition-Advances_example : Advances p 1 start released
redeem_transition-Advances_example =
    redeem_transition-Advances p hex 1 now ready start released outcome redeems

gate_unchanged : released.gate_replay ≡ after p.backend released.gate_replay []
unfolding after
gate_unchanged = refl

redeem_transition_once_example :
    redeem_transition p hex 1 now ready released ≢ (ok outcome, released)
redeem_transition_once_example =
    redeem_transition_once p hex 1 1 now now ready ready start released released released outcome
      outcome [] redeems gate_unchanged

unfoldable idle : AccessEngine p
unfolding engine
idle = engine (grant ∷ []) []

fails : redeem_transition p hex 1 now ready idle ≡ (err session_binding, idle)
unfolding redeem_transition idle ready Exec.◌>>=◌ Exec.gets Exec.lift
    access.Session.Stages.transition_for access.Session.Engine.new engine platform
fails = refl

redeem_failed-Frame_example : Frame idle idle
redeem_failed-Frame_example = redeem_failed-Frame p hex 1 now ready idle idle session_binding fails

-- The same gate with a durable cache.
unfoldable durable_start : AccessEngine p
unfolding start access.Tests.platform
durable_start = record start { gate_replay = record { consumed = []; backend = some [] } }

durable_start-IsBacked : IsBacked durable_start.gate_replay
unfolding durable_start
durable_start-IsBacked = ([], refl)

unfoldable durable : Result SessionError TransitionOutcome × AccessEngine p
unfolding redeem_transition durable_start ready
durable = redeem_transition p hex 1 now ready durable_start

redeems_durably :
    redeem_transition p hex 1 now ready durable_start ≡ (ok (outcome_of durable.0), durable.1)
unfolding durable_start durable redeem_transition start ready outcome_of Exec.◌>>=◌ Exec.zoom
    Exec.gets Exec.lift Exec.modify Exec.pure access.Session.Stages.transition_for
    access.Session.Redeem.match_grant access.Protocol.Envelope.verify_envelope
    access.Protocol.Envelope.check_envelope access.Protocol.Envelope.consume_nonce
    access.Protocol.Cose.verify_signed_payload access.Utf8.as_bytes access.Utf8.from_utf8
    access.Utf8.encode_code access.Protocol.Cose.accepts access.Common.Int.abs_diff
    access.Protocol.Replay.consume access.Session.Redeem.take_pending access.Common.Tests.option_eq
    access.Common.Tests.option_dec access.Common.Tests.bytes_dec access.Common.Tests.bytes_eq
    access.Common.Tests.nat_eq access.Common.Tests.string_eq access.Protocol.Claims.stage_eq
    access.Protocol.Claims.AuthorizedStage-discrete access.Session.Stages.transition_names
    access.Session.Request.evaluate_stage access.Common.Int.saturate
    access.Common.Int.saturating_mul access.Common.Int.saturating_sub access.Common.Int.◌*ℤ◌
    access.Common.Int.◌-ℤ◌ access.Profile.evaluate access.Profile.parse_timestamp
    access.Profile.validate_credentials access.Profile.validate_foundation access.Profile.violates
    access.Protocol.Identity.from_seed access.Session.Engine.new
    access.Session.Redeem.mismatches_request access.Session.Redeem.mismatches_rule
    access.Session.Redeem.redeemed_outcome access.Session.Redeem.release access.StateMachine.reduce
    engine in_session pending readiness access.Tests.Fixtures.identity access.Tests.Fixtures.trusts
    access.Tests.entry access.Tests.index platform access.Tests.read_message
    access.Tests.read_signed access.Tests.split native.Mathlib.Decide.ℕ_discrete
redeems_durably = refl

contains-more :
    (vs : List Bytes) (nonce other : Bytes)
    → contains vs nonce ≡ true
    → contains (other ∷ vs) nonce ≡ true
contains-more vs nonce other h = ground (arith, h)

backend-IsLasting : IsLasting p.backend
unfolding platform
backend-IsLasting = record {
  commits = λ nonce b b' h vs k.
      let stored : nonce ∷ b ≡ b' = ap (λ (x : Result String (Unit {0}) × List Bytes). x.1) h in
      let read : b' ≡ vs = ok-injective k in
      subst (λ xs. contains xs nonce ≡ true) (stored ∙ read) (contains-cons_self nonce b);
  appends = λ nonce other b h vs k.
      subst (λ xs. contains xs nonce ≡ true) (ok-injective k)
        (contains-more b nonce other (h b refl));
  loads = λ nonce b h vs k. h vs k;
}

-- On this platform every journal is read, so that a process can always start again.
restarted_from :
    (c : Cache p) (backend : Option p.Backend)
    → c.backend ≡ backend
    → (r : Cache p) × (restart p.backend c ≡ ok r)
unfolding restart with_backend platform
restarted_from c none e = (default_cache, rw e refl)
restarted_from c (some b) e = (record { consumed = b; backend = some b }, rw e refl)

restarted : (c : Cache p) → (r : Cache p) × (restart p.backend c ≡ ok r)
restarted c = restarted_from c c.backend refl

reopens : (e : AccessEngine p) (names : String) → (r : Cache p) × (reopened p e names ≡ ok r)
unfolding reopened
reopens e name = elim (Bool-cases (name == "station-nonces.log")) [
  | inl a ↦ rw a (restarted e.station_replay)
  | inr a ↦ elim (Bool-cases (name == "chaser-nonces.log")) [
    | inl b ↦ rw (a, b) (restarted e.chaser_replay)
    | inr b ↦ elim (Bool-cases (name == "gate-nonces.log")) [
      | inl c ↦ rw (a, b, c) (restarted e.gate_replay)
      | inr c ↦ rw (a, b, c) (restarted e.consumed_grants)
    ]
  ]
]

starts_again :
    (e built : AccessEngine p)
    → (opened : AccessEngine p) × (enable_persistent_state p (reopened p e) built ≡ (ok tt, opened))
unfolding enable_persistent_state assign Exec.◌>>=◌
starts_again e built = (
  record built {
    station_replay = (reopens e "station-nonces.log").0;
    chaser_replay = (reopens e "chaser-nonces.log").0;
    gate_replay = (reopens e "gate-nonces.log").0;
    consumed_grants = (reopens e "consumed-grants.log").0;
  },
  rw
      (
        (reopens e "station-nonces.log").1,
        (reopens e "chaser-nonces.log").1,
        (reopens e "gate-nonces.log").1,
        (reopens e "consumed-grants.log").1,
      )
      refl,
)

-- After the redemption the engine is reset, and its process starts again from the journals.
again :
    (opened : AccessEngine p) × (enable_persistent_state p
        (reopened p (perform p reset_engine durable.1))
        idle
      ≡ (ok tt, opened))
again = starts_again (perform p reset_engine durable.1) idle

redeemed_once_example :
    redeem_transition p hex 1 now ready again.0 ≢ (ok (outcome_of durable.0), durable.1)
redeemed_once_example =
    redeemed_once p backend-IsLasting hex 1 1 now now ready ready durable_start durable.1 again.0
      durable.1 (outcome_of durable.0) (outcome_of durable.0) durable_start-IsBacked redeems_durably
      (restarts (perform p reset_engine durable.1) idle again.0
        (performs durable.1 reset_engine here) again.1)
