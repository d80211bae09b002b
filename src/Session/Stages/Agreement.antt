-- ===== src/Session/Stages/Agreement.antt =====
-- The engine's tables and the reducer agree.
use access.Common.{ℕ, zero, suc, ◌+◌, ◌≡◌, refl, true, some, String, arith}
use access.StateMachine.{
  DockingState, hold, approach, final_approach, soft_capture, hard_dock, aborted, DockingEvent,
  begin_approach, enter_final_approach, engage_soft_capture, engage_hard_dock,
}
use access.StateMachine.Steps.{Step, begins, closes, captures, docks}
use access.Protocol.Claims.{AuthorizedStage}
use access.Session.Stages.{state_number, transition_for, transition_names}

-- The state that a stage authorizes, and its name on the wire.
abbrev pub stage_state : AuthorizedStage → DockingState
stage_state AuthorizedStage.hold = hold
stage_state AuthorizedStage.approach = approach
stage_state AuthorizedStage.final_approach = final_approach
stage_state AuthorizedStage.soft_capture = soft_capture
stage_state AuthorizedStage.hard_dock = hard_dock

abbrev pub state_name : DockingState → String
state_name hold = "hold"
state_name approach = "approach"
state_name final_approach = "final_approach"
state_name soft_capture = "soft_capture"
state_name hard_dock = "hard_dock"
state_name aborted = "aborted"

-- A request for a state is for its successor, by the reducer's own event for it, under the stage of
-- that state; the names are those of the two states.
pub record IsTransition (s : DockingState) (requested : ℕ) (event : DockingEvent)
    (stage : AuthorizedStage) : Type 0 where
  pub numbered : state_number (stage_state stage) ≡ requested
  pub follows : requested ≡ state_number s + 1
  pub steps :
      Step
        (record { identity_verified = true; session_authorized = true; docking_authorized = true })
        s
        event
        (stage_state stage)
  pub named : transition_names s requested ≡ some (state_name s, state_name (stage_state stage))

-- Whenever the engine accepts a requested state, it is the number of the next state, the event it
-- pairs with it leads there in the reducer, the stage is that state's, and the names it hands to
-- the protocol profile are those of the two states.
pub transition_for-IsTransition :
    (s : DockingState) (requested : ℕ) (event : DockingEvent) (stage : AuthorizedStage)
    → transition_for s requested ≡ some (event, stage)
    → IsTransition s requested event stage
unfolding transition_for transition_names
transition_for-IsTransition hold (suc zero) begin_approach AuthorizedStage.approach h = record {
  numbered = refl;
  follows = refl;
  steps = begins;
  named = refl;
}
transition_for-IsTransition approach (suc (suc zero)) enter_final_approach
      AuthorizedStage.final_approach h =
    record { numbered = refl; follows = refl; steps = closes refl; named = refl }
transition_for-IsTransition final_approach (suc (suc (suc zero))) engage_soft_capture
      AuthorizedStage.soft_capture h =
    record { numbered = refl; follows = refl; steps = captures refl; named = refl }
transition_for-IsTransition soft_capture (suc (suc (suc (suc zero)))) engage_hard_dock
      AuthorizedStage.hard_dock h =
    record { numbered = refl; follows = refl; steps = docks refl; named = refl }
transition_for-IsTransition s requested event stage h = absurd (ground arith)
