-- ===== src/StateMachine/Traces.antt =====
-- Histories of the reducer, each event under its own authorization.
use access.Common.{ℕ, suc, ◌+◌, ◌≡◌, refl, ◌⊎◌, inl, inr, true, List, [], ◌∷◌, arith, Bool}
use access.Common.Result.{Result, ok, ◌>>=◌, >>=-eq-ok}
use access.StateMachine.{
  DockingState, hold, approach, final_approach, soft_capture, hard_dock, aborted, DockingEvent,
  begin_approach, enter_final_approach, engage_soft_capture, engage_hard_dock, abort,
  AuthorizationContext, TransitionError, reduce,
}
use access.StateMachine.Steps.{Step, begins, closes, captures, docks, aborts, reduce_iff}

-- The events of a history in turn; an event that is refused ends it.
unfoldable pub replay :
    DockingState → List (DockingEvent × AuthorizationContext) → Result TransitionError DockingState
replay s [] = ok s
replay s ((e, a) ∷ rest) = do t ← reduce s e a; replay t rest

-- The authorizations that a state presupposes, read off the events of a history.
abbrev pub Used :
    (AuthorizationContext → Bool)
    → DockingEvent
    → List (DockingEvent × AuthorizationContext)
    → Type 0
Used flag e [] = ⊥
Used flag e ((e', a) ∷ rest) = ((e' ≡ e) × (flag a ≡ true)) ⊎ Used flag e rest

-- Every protection that lies on the way from a state to hard dock.
abbrev pub Protected : DockingState → List (DockingEvent × AuthorizationContext) → Type 0
Protected hold es =
    Used (λ a. a.identity_verified) enter_final_approach es
    × Used (λ a. a.session_authorized) engage_soft_capture es
    × Used (λ a. a.docking_authorized) engage_hard_dock es
Protected approach es =
    Used (λ a. a.identity_verified) enter_final_approach es
    × Used (λ a. a.session_authorized) engage_soft_capture es
    × Used (λ a. a.docking_authorized) engage_hard_dock es
Protected final_approach es =
    Used (λ a. a.session_authorized) engage_soft_capture es
    × Used (λ a. a.docking_authorized) engage_hard_dock es
Protected soft_capture es = Used (λ a. a.docking_authorized) engage_hard_dock es
Protected hard_dock es = Unit
Protected aborted es = ⊥

Step-Protected :
    {a : AuthorizationContext} {s : DockingState} {e : DockingEvent} {t : DockingState}
    (rest : List (DockingEvent × AuthorizationContext))
    → Step a s e t
    → Protected t rest
    → Protected s ((e, a) ∷ rest)
Step-Protected rest begins (p, q, r) = (inr p, inr q, inr r)
Step-Protected rest (closes h) (q, r) = (inl (refl, h), inr q, inr r)
Step-Protected rest (captures h) r = (inl (refl, h), inr r)
Step-Protected rest (docks h) p = inl (refl, h)
Step-Protected rest (aborts s) p = absurd p

replay-Protected :
    (s : DockingState) (es : List (DockingEvent × AuthorizationContext))
    → replay s es ≡ ok hard_dock
    → Protected s es
unfolding replay
replay-Protected hold [] h = absurd (ground arith)
replay-Protected approach [] h = absurd (ground arith)
replay-Protected final_approach [] h = absurd (ground arith)
replay-Protected soft_capture [] h = absurd (ground arith)
replay-Protected hard_dock [] h = tt
replay-Protected aborted [] h = absurd (ground arith)
replay-Protected s ((e, a) ∷ rest) h =
    let (t, one, more) = >>=-eq-ok (reduce s e a) (λ u. replay u rest) h in
    Step-Protected rest ((reduce_iff s e a t).0 one) (replay-Protected t rest more)

-- A history that takes the machine from hold to hard dock passed final approach under a verified
-- identity, soft capture under an authorized session and hard dock under a docking authorization.
pub hard_dock-Protected :
    (es : List (DockingEvent × AuthorizationContext))
    → replay hold es ≡ ok hard_dock
    → Used (λ a. a.identity_verified) enter_final_approach es
      × Used (λ a. a.session_authorized) engage_soft_capture es
      × Used (λ a. a.docking_authorized) engage_hard_dock es
hard_dock-Protected es h = replay-Protected hold es h

abbrev pub rank : DockingState → ℕ
rank hold = 0
rank approach = 1
rank final_approach = 2
rank soft_capture = 3
rank hard_dock = 4
rank aborted = 5

Step-rank :
    {a : AuthorizationContext} {s : DockingState} {e : DockingEvent} {t : DockingState}
    → Step a s e t
    → (t ≡ aborted) ⊎ (rank t ≡ rank s + 1)
Step-rank begins = inr refl
Step-rank (closes h) = inr refl
Step-rank (captures h) = inr refl
Step-rank (docks h) = inr refl
Step-rank (aborts s) = inl refl

replay-aborted :
    (es : List (DockingEvent × AuthorizationContext)) (t : DockingState)
    → replay aborted es ≡ ok t
    → t ≡ aborted
unfolding replay reduce
replay-aborted [] t h = ground arith
replay-aborted ((abort, a) ∷ rest) t h = replay-aborted rest t h
replay-aborted ((begin_approach, a) ∷ rest) t h = cc
replay-aborted ((enter_final_approach, a) ∷ rest) t h = cc
replay-aborted ((engage_soft_capture, a) ∷ rest) t h = cc
replay-aborted ((engage_hard_dock, a) ∷ rest) t h = cc

abbrev pub count : List (DockingEvent × AuthorizationContext) → ℕ
count [] = 0
count (_ ∷ rest) = suc (count rest)

-- An accepted history ends aborted, for good, or has advanced one state at each event.
pub replay-rank :
    (s : DockingState) (es : List (DockingEvent × AuthorizationContext)) (t : DockingState)
    → replay s es ≡ ok t
    → (t ≡ aborted) ⊎ (rank t ≡ rank s + count es)
unfolding replay
replay-rank s [] t h = ground arith
replay-rank s ((e, a) ∷ rest) t h =
    let (u, one, more) = >>=-eq-ok (reduce s e a) (λ v. replay v rest) h in
    elim (Step-rank ((reduce_iff s e a u).0 one)) [
      | inl gone ↦ inl (replay-aborted rest t (rw gone at more))
      | inr up ↦ grind (arith, replay-rank u rest t more)
    ]
