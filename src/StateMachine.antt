-- ===== src/StateMachine.antt =====
-- rust/access_core/src/state_machine.rs: the reducer of the protected docking states.
pub mod Steps
pub mod Traces
use access.Common.{Bool, true, false}
use access.Common.Result.{Result, ok, err}

pub data DockingState : Type 0 where
  hold approach final_approach soft_capture hard_dock aborted : DockingState

pub data DockingEvent : Type 0 where
  begin_approach enter_final_approach engage_soft_capture engage_hard_dock abort : DockingEvent

pub record AuthorizationContext : Type 0 where
  pub identity_verified : Bool
  pub session_authorized : Bool
  pub docking_authorized : Bool

abbrev pub default_context : AuthorizationContext
default_context = record {
  identity_verified = false;
  session_authorized = false;
  docking_authorized = false;
}

pub data TransitionError : Type 0 where
  invalid_transition identity_required session_required : TransitionError
  docking_authorization_required : TransitionError

-- `flag.then_some(state).ok_or(error)`
abbrev granted : Bool → DockingState → TransitionError → Result TransitionError DockingState
granted true s e = ok s
granted false s e = err e

unfoldable pub reduce :
    DockingState → DockingEvent → AuthorizationContext → Result TransitionError DockingState
reduce state abort authorization = ok aborted
reduce hold begin_approach authorization = ok approach
reduce approach enter_final_approach authorization =
    granted authorization.identity_verified final_approach identity_required
reduce final_approach engage_soft_capture authorization =
    granted authorization.session_authorized soft_capture session_required
reduce soft_capture engage_hard_dock authorization =
    granted authorization.docking_authorized hard_dock docking_authorization_required
reduce _ _ authorization = err invalid_transition
