-- ===== src/Tests/Policies.antt =====
-- The reducer, the profile and the policy engine, run on the fixtures.
use access.Common.{
  ℕ, zero, suc, ◌+◌, ◌⊎◌, ◌++◌, ◌≡◌, ◌↔◌, refl, Bool, true, false, Option, none, some, List, [],
  ◌∷◌, String, Bytes, All, arith,
}
use access.Common.Int.{ℤ, pos, ◌≤ℤ◌}
use access.Common.Result.{ok}
use access.Platform.{Platform, ContextValue}
use access.Protocol.Claims.{AuthorizedStage}
use access.StateMachine.{
  hold, hard_dock, aborted, DockingEvent, begin_approach, enter_final_approach, engage_soft_capture,
  engage_hard_dock, AuthorizationContext, reduce,
}
use access.StateMachine.Traces.{replay, Used, hard_dock-Protected, rank, count, replay-rank}
use access.Profile.{VerifiedCredentialEvidence, ReadinessEvidence, validate_credentials, evaluate}
use access.Profile.Admits.{IsCovered, validate_credentials_iff}
use access.Profile.Evaluate.{Admits, evaluate_iff}
use access.Profile.Monotone.{evaluate-fewer_credentials, evaluate-later_readiness}
use access.Cedar.{CedarPolicyEngine, authorize, context}
use access.Cedar.Decisions.{IsAllowed, authorize_iff}
use access.Cedar.Facts.{Presents, Reports, context_iff}
use access.Session.Stages.{transition_for}
use access.Session.Stages.Agreement.{IsTransition, transition_for-IsTransition}
use access.Tests.{platform}
use access.Tests.Fixtures.{now, profile, evidence, metadata, decision, rule, readiness}

abbrev p : Platform
p = platform [] []

abbrev all_authorized : AuthorizationContext
all_authorized = record {
  identity_verified = true;
  session_authorized = true;
  docking_authorized = true;
}

abbrev course : List (DockingEvent × AuthorizationContext)
course =
    (begin_approach, all_authorized)
    ∷ (enter_final_approach, all_authorized)
    ∷ (engage_soft_capture, all_authorized)
    ∷ (engage_hard_dock, all_authorized)
    ∷ []

docks : replay hold course ≡ ok hard_dock
unfolding replay reduce
docks = refl

hard_dock-Protected_example :
    Used (λ a. a.identity_verified) enter_final_approach course
    × Used (λ a. a.session_authorized) engage_soft_capture course
    × Used (λ a. a.docking_authorized) engage_hard_dock course
hard_dock-Protected_example = hard_dock-Protected course docks

replay-rank_example : (hard_dock ≡ aborted) ⊎ (rank hard_dock ≡ rank hold + count course)
replay-rank_example = replay-rank hold course hard_dock docks

begins : transition_for hold 1 ≡ some (begin_approach, AuthorizedStage.approach)
unfolding transition_for
begins = refl

transition_for-IsTransition_example : IsTransition hold 1 begin_approach AuthorizedStage.approach
transition_for-IsTransition_example =
    transition_for-IsTransition hold 1 begin_approach AuthorizedStage.approach begins

validate_credentials_iff_example :
    (validate_credentials profile evidence now ≡ ok tt) ↔ All (IsCovered profile now) evidence
validate_credentials_iff_example = validate_credentials_iff profile now evidence

unfoldable ready : ReadinessEvidence p
unfolding readiness
ready = readiness [] []

evaluate_iff_example :
    (evaluate p profile "hold" "approach" now "bundle" 1 (pos 500) evidence (some now) true ready
      ≡ ok rule)
    ↔ Admits p profile now "bundle" 1
        (pos 500)
        "hold"
        "approach"
        evidence
        (some now)
        true
        ready
        rule
evaluate_iff_example =
    evaluate_iff p profile now "bundle" 1 (pos 500) "hold" "approach" evidence (some now) true ready
      rule

evaluates :
    evaluate p profile "hold" "approach" now "bundle" 1
      (pos 500)
      (evidence ++ [])
      (some now)
      true
      ready
    ≡ ok rule
unfolding ready readiness platform access.Common.Tests.option_eq access.Common.Tests.option_dec
    access.Common.Tests.bytes_dec access.Common.Tests.bytes_eq access.Common.Tests.nat_eq
    access.Common.Tests.string_eq access.Common.Int.saturate access.Common.Int.saturating_mul
    access.Common.Int.saturating_sub access.Common.Int.◌*ℤ◌ access.Common.Int.◌-ℤ◌ evaluate
    access.Profile.parse_timestamp validate_credentials access.Profile.validate_foundation
    access.Profile.violates native.Mathlib.Decide.ℕ_discrete
evaluates = refl

evaluate-fewer_credentials_example :
    evaluate p profile "hold" "approach" now "bundle" 1 (pos 500) [] (some now) true ready ≡ ok rule
evaluate-fewer_credentials_example =
    evaluate-fewer_credentials p profile "hold" "approach" now "bundle" 1 (pos 500) (some now) true
      rule evidence [] ready evaluates

earlier : ready.observed_at_ms ≤ℤ pos 5000000
unfolding ready readiness platform
earlier = ground arith

evaluate-later_readiness_example :
    evaluate p profile "hold" "approach" now "bundle" 1
      (pos 500)
      (evidence ++ [])
      (some now)
      true
      (record ready { observed_at_ms = pos 5000000 })
    ≡ ok rule
evaluate-later_readiness_example =
    evaluate-later_readiness p profile "hold" "approach" now "bundle" 1 (pos 500) (some now) true
      rule (evidence ++ []) ready (pos 5000000) earlier evaluates

unfoldable policy_engine : CedarPolicyEngine p
unfolding platform
policy_engine = record { policies = true; metadata = metadata }

abbrev facts : ContextValue
unfolding context
facts = context p evidence true true (some ready) true

authorize_iff_example :
    (authorize p policy_engine "stage_transition" "chaser" "begin_approach" "station" facts
      ≡ ok decision)
    ↔ IsAllowed p policy_engine "stage_transition" "chaser" "begin_approach" "station" facts
        decision
authorize_iff_example =
    authorize_iff p policy_engine "stage_transition" "chaser" "begin_approach" "station" facts
      decision

context_iff_example :
    ((facts.registered_vehicle ≡ true) ↔ Presents evidence "registered-vehicle-v1")
    × ((facts.docking_certified ≡ true) ↔ Presents evidence "idss-compatible-v1")
    × ((facts.initial_hold_confirmed ≡ true)
        ↔ Reports {p = p} (some ready) "initial_hold_confirmed")
    × ((facts.retreat_available ≡ true) ↔ Reports {p = p} (some ready) "retreat_available")
    × ((facts.relative_navigation_valid ≡ true)
        ↔ Reports {p = p} (some ready) "relative_navigation_valid")
    × ((facts.approach_corridor_clear ≡ true)
        ↔ Reports {p = p} (some ready) "approach_corridor_clear")
    × ((facts.closing_rate_within_limit ≡ true)
        ↔ Reports {p = p} (some ready) "closing_rate_within_limit")
    × ((facts.alignment_within_limit ≡ true)
        ↔ Reports {p = p} (some ready) "alignment_within_limit")
    × ((facts.capture_system_ready ≡ true) ↔ Reports {p = p} (some ready) "capture_system_ready")
    × ((facts.soft_capture_confirmed ≡ true)
        ↔ Reports {p = p} (some ready) "soft_capture_confirmed")
    × ((facts.latches_ready ≡ true) ↔ Reports {p = p} (some ready) "latches_ready")
    × ((facts.relative_motion_stable ≡ true)
        ↔ Reports {p = p} (some ready) "relative_motion_stable")
unfolding facts
context_iff_example = context_iff p evidence true true (some ready) true
