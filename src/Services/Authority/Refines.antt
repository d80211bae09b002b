-- ===== src/Services/Authority/Refines.antt =====
-- The authority's line protocol against the engine's operations.
use access.Common.{◌≡◌, refl, sym, ap, ◌∙◌, List, [], ◌∷◌, ◌++◌, String, unwrap_or}
use access.Common.Int.{ℤ}
use access.Common.Result.{Result, ok, err, map_err}
use access.Common.Exec
use access.Common.Exec.{Exec}
use access.Platform.{Platform}
use access.Session.Outcomes.{AccessScenario, SessionError}
use access.Session.Engine.{AccessEngine}
use access.Session.Establish.{establish_session}
use access.Session.Request.{request_transition}
use access.Session.Redeem.{redeem_transition}
use access.Session.History.{Operation, establish, request, redeem, perform, run}
use access.Services.{Input}
use access.Services.Errors.{session_error_text}
use access.Services.Authority.{
  Reply, session, outcome, Command, describe, transition, redeem_entitlement, AuthorityJson,
  parse_scenario, on_engine, dispatch, handle_command, answer, serve,
}

module _ (p : Platform) where
  abbrev pub handshake : Result String AccessScenario → ℤ → List (Operation p)
  handshake (ok scenario) now_s = establish now_s scenario ∷ []
  handshake (err error) now_s = []

  -- The operation on the engine that a command is, if it is one: a description reads only, and a
  -- scenario may be unknown.
  unfoldable pub operation_of : Command p → ℤ → List (Operation p)
  operation_of describe unix_time = []
  operation_of (Command.establish scenario now_s) unix_time =
      handshake (parse_scenario scenario) (unwrap_or unix_time now_s)
  operation_of (transition requested now_s readiness) unix_time =
      request requested (unwrap_or unix_time now_s) readiness ∷ []
  operation_of (redeem_entitlement requested hex now_s readiness) unix_time =
      redeem hex requested (unwrap_or unix_time now_s) readiness ∷ []

  abbrev pub parsed_operations : Result String (Command p) → ℤ → List (Operation p)
  parsed_operations (ok command) unix_time = operation_of command unix_time
  parsed_operations (err error) unix_time = []

  module _ (J : AuthorityJson p) where
    abbrev pub read_operations : Result String String → ℤ → List (Operation p)
    read_operations (ok line) unix_time = parsed_operations (J.command_from_str line) unix_time
    read_operations (err error) unix_time = []

    -- The operations of the lines that the authority is served.
    unfoldable pub all_operations : List Input → List (Operation p)
    all_operations [] = []
    all_operations (input ∷ rest) =
        read_operations input.line input.unix_time ++ all_operations rest

  run-append :
      (xs ys : List (Operation p)) (e : AccessEngine p) → run p (xs ++ ys) e ≡ run p ys (run p xs e)
  unfolding run
  run-append [] ys e = refl
  run-append (x ∷ xs) ys e = run-append xs ys (perform p x e)

  replied :
      {A : Type 0} (f : A → Reply) (x : Result SessionError A × AccessEngine p)
      → (Exec.continue (map_err session_error_text x.0) (λ o. Exec.pure {E = String} (f o)) x.1).1
        ≡ x.1
  unfolding Exec.pure
  replied f (ok o, e) = refl
  replied f (err error, e) = refl

  on_engine-state :
      {A : Type 0} (m : Exec SessionError (AccessEngine p) A) (f : A → Reply) (e : AccessEngine p)
      → (Exec.◌>>=◌ (on_engine p m) (λ o. Exec.pure (f o)) e).1 ≡ (m e).1
  unfolding Exec.◌>>=◌ Exec.zoom
  on_engine-state m f e = replied f (m e)

  established-run :
      (parsed : Result String AccessScenario) (now_s : ℤ) (e : AccessEngine p)
      → (Exec.◌>>=◌
          (Exec.lift parsed)
          (λ scenario.
            Exec.◌>>=◌
              (on_engine p (establish_session p now_s scenario))
              (λ o. Exec.pure (session o)))
          e).1
        ≡ run p (handshake parsed now_s) e
  unfolding run perform Exec.lift Exec.◌>>=◌
  established-run (ok scenario) now_s e =
      on_engine-state (establish_session p now_s scenario) session e
  established-run (err error) now_s e = refl

  dispatch-run :
      (command : Command p) (unix_time : ℤ) (e : AccessEngine p)
      → (dispatch p command unix_time e).1 ≡ run p (operation_of command unix_time) e
  unfolding operation_of run perform
  dispatch-run describe unix_time e = unfold dispatch Exec.gets in refl
  dispatch-run (Command.establish scenario now_s) unix_time e =
      unfold dispatch in established-run (parse_scenario scenario) (unwrap_or unix_time now_s) e
  dispatch-run (transition requested now_s readiness) unix_time e =
      unfold dispatch in
      on_engine-state (request_transition p requested (unwrap_or unix_time now_s) readiness) outcome
        e
  dispatch-run (redeem_entitlement requested hex now_s readiness) unix_time e =
      unfold dispatch in
      on_engine-state (redeem_transition p hex requested (unwrap_or unix_time now_s) readiness)
        outcome e

  module _ (J : AuthorityJson p) where
    handled-run :
        (parsed : Result String (Command p)) (unix_time : ℤ) (e : AccessEngine p)
        → (Exec.◌>>=◌ (Exec.lift parsed) (λ command. dispatch p command unix_time) e).1
          ≡ run p (parsed_operations parsed unix_time) e
    unfolding run Exec.lift Exec.◌>>=◌
    handled-run (ok command) unix_time e = dispatch-run command unix_time e
    handled-run (err error) unix_time e = refl

    answered-run :
        (line : Result String String) (unix_time : ℤ) (e : AccessEngine p)
        → (answer p J (record { line = line; unix_time = unix_time }) e).1
          ≡ run p (read_operations J line unix_time) e
    unfolding answer run handle_command
    answered-run (ok line) unix_time e = handled-run (J.command_from_str line) unix_time e
    answered-run (err error) unix_time e = refl

    -- Whatever lines the authority is served, its engine ends in the state that the operations of
    -- the lines reach, in their order: one for each line that is read and parsed and is not a
    -- description or a handshake of an unknown scenario.
    pub serve-run :
        (inputs : List Input) (e : AccessEngine p)
        → (serve p J inputs e).1 ≡ run p (all_operations J inputs) e
    unfolding serve all_operations run
    serve-run [] e = refl
    serve-run (input ∷ rest) e =
        serve-run rest (answer p J input e).1
        ∙ ap (run p (all_operations J rest)) (answered-run input.line input.unix_time e)
        ∙ sym (run-append (read_operations J input.line input.unix_time) (all_operations J rest) e)
