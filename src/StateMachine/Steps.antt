-- ===== src/StateMachine/Steps.antt =====
-- The reducer against the protected transitions as a relation.
use access.Common.{◌≡◌, refl, ◌↔◌, true, arith}
use access.Common.Result.{ok}
use access.StateMachine.{
  DockingState, hold, approach, final_approach, soft_capture, hard_dock, aborted, DockingEvent,
  begin_approach, enter_final_approach, engage_soft_capture, engage_hard_dock, abort,
  AuthorizationContext, reduce,
}

-- The transitions that the documentation permits, each with the authorization that it needs.
pub data Step (a : AuthorizationContext) : DockingState → DockingEvent → DockingState → Type 0 where
  begins : Step a hold begin_approach approach
  closes : a.identity_verified ≡ true → Step a approach enter_final_approach final_approach
  captures : a.session_authorized ≡ true → Step a final_approach engage_soft_capture soft_capture
  docks : a.docking_authorized ≡ true → Step a soft_capture engage_hard_dock hard_dock
  aborts : (s : DockingState) → Step a s abort aborted

reduce-Step :
    (s : DockingState) (e : DockingEvent) (a : AuthorizationContext) (t : DockingState)
    → reduce s e a ≡ ok t
    → Step a s e t
unfolding reduce
reduce-Step hold begin_approach a approach h = begins
reduce-Step approach enter_final_approach a final_approach h = closes (ground arith)
reduce-Step final_approach engage_soft_capture a soft_capture h = captures (ground arith)
reduce-Step soft_capture engage_hard_dock a hard_dock h = docks (ground arith)
reduce-Step s abort a aborted h = aborts s
reduce-Step s e a t h = absurd (ground arith)

Step-reduce :
    {a : AuthorizationContext} {s : DockingState} {e : DockingEvent} {t : DockingState}
    → Step a s e t
    → reduce s e a ≡ ok t
unfolding reduce
Step-reduce begins = refl
Step-reduce (closes h) = rw h
Step-reduce (captures h) = rw h
Step-reduce (docks h) = rw h
Step-reduce (aborts s) = refl

-- The reducer accepts an event exactly when it is a permitted transition under the given
-- authorization, and then leads to that transition's target.
pub reduce_iff :
    (s : DockingState) (e : DockingEvent) (a : AuthorizationContext) (t : DockingState)
    → (reduce s e a ≡ ok t) ↔ Step a s e t
reduce_iff s e a t = (reduce-Step s e a t, λ p. Step-reduce p)
