-- ===== src/Session/Stages.antt =====
-- rust/access_core/src/session.rs: the numbers, events and names of the docking states.
pub mod Agreement
use access.Common.{ℕ, zero, suc, Option, none, some, String}
use access.StateMachine.{
  DockingState, hold, approach, final_approach, soft_capture, hard_dock, aborted, DockingEvent,
  begin_approach, enter_final_approach, engage_soft_capture, engage_hard_dock,
}
use access.Protocol.Claims.{AuthorizedStage}

abbrev pub state_number : DockingState → ℕ
state_number hold = 0
state_number approach = 1
state_number final_approach = 2
state_number soft_capture = 3
state_number hard_dock = 4
state_number aborted = 5

unfoldable pub transition_for : DockingState → ℕ → Option (DockingEvent × AuthorizedStage)
transition_for hold (suc zero) = some (begin_approach, AuthorizedStage.approach)
transition_for approach (suc (suc zero)) =
    some (enter_final_approach, AuthorizedStage.final_approach)
transition_for final_approach (suc (suc (suc zero))) =
    some (engage_soft_capture, AuthorizedStage.soft_capture)
transition_for soft_capture (suc (suc (suc (suc zero)))) =
    some (engage_hard_dock, AuthorizedStage.hard_dock)
transition_for _ _ = none

unfoldable pub transition_names : DockingState → ℕ → Option (String × String)
transition_names hold (suc zero) = some ("hold", "approach")
transition_names approach (suc (suc zero)) = some ("approach", "final_approach")
transition_names final_approach (suc (suc (suc zero))) = some ("final_approach", "soft_capture")
transition_names soft_capture (suc (suc (suc (suc zero)))) = some ("soft_capture", "hard_dock")
transition_names _ _ = none

-- `{stage:?}`
abbrev pub debug_stage : AuthorizedStage → String
debug_stage AuthorizedStage.hold = "Hold"
debug_stage AuthorizedStage.approach = "Approach"
debug_stage AuthorizedStage.final_approach = "FinalApproach"
debug_stage AuthorizedStage.soft_capture = "SoftCapture"
debug_stage AuthorizedStage.hard_dock = "HardDock"
