-- ===== src/Services/Authority/Served.antt =====
-- The authority from its set-up through the lines that it is served.
use access.Common.{◌≡◌, ◌≢◌, sym, ◌∙◌, subst, true, some, List, String}
use access.Common.Int.{ℤ}
use access.Common.Result.{ok}
use access.Platform.{Platform}
use access.StateMachine.{hold}
use access.Session.Engine.{AccessEngine}
use access.Session.History.{IsGuarded, closed, run, run-IsGuarded, moved}
use access.Services.{Host, Input}
use access.Services.Authority.{AuthorityOs, AuthorityJson, serve}
use access.Services.Authority.Setup.{Environment, start}
use access.Services.Authority.Refines.{all_operations, serve-run}
use access.Services.Authority.Started.{start-IsBuilt}

-- Whatever lines an authority that has started is served, its engine is past the first protected
-- state only within an open session that is authorized and whose holder is identified.
pub served-protected :
    (p : Platform) (H : Host) (O : AuthorityOs p) (J : AuthorityJson p) (env : Environment)
    (now : ℤ) (inputs : List Input) (e f : AccessEngine p)
    → start p H O J env now ≡ ok e
    → (serve p J inputs e).1 ≡ f
    → f.state ≢ hold
    → (session_id : String) × (f.session_id ≡ some session_id)
      × (f.authorization.session_authorized ≡ true)
      × (f.authorization.identity_verified ≡ true)
served-protected p H O J env now inputs e f started served h =
    let k = start-IsBuilt p H O J env now e started in
    let reached : run p (all_operations p J inputs) e ≡ f = sym (serve-run p J inputs e) ∙ served in
    moved f
      (subst (λ x. IsGuarded x) reached
        (run-IsGuarded (all_operations p J inputs) e (closed k.closed k.first)))
      h
