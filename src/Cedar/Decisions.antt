-- ===== src/Cedar/Decisions.antt =====
-- When the policy engine allows a request.
use access.Common.{◌≡◌, ◌↔◌, true, false, [], ◌∷◌, String, arith}
use access.Common.Result.{ok, map_err, >>=-eq-ok, map_err-eq-ok}
use access.Common.Text.{format}
use access.Platform.{Platform, ContextValue}
use access.Cedar.{CedarPolicyEngine, AccessDecision, invalid_request, authorize}

module _ (p : Platform) (self : CedarPolicyEngine p) (gate vehicle action station : String)
    (facts : ContextValue) where
  -- The authorizer allows a well-formed request for these entities and facts, without any error.
  pub record IsAllowed (decision : AccessDecision) : Type 0 where
    pub principal : p.EntityUid
    pub principal_parsed :
        p.parse_entity_uid (format ("Vehicle::" ∷ p.debug_str vehicle ∷ [])) ≡ ok principal
    pub action_uid : p.EntityUid
    pub action_parsed :
        p.parse_entity_uid (format ("Action::" ∷ p.debug_str action ∷ [])) ≡ ok action_uid
    pub resource : p.EntityUid
    pub resource_parsed :
        p.parse_entity_uid (format ("Station::" ∷ p.debug_str station ∷ [])) ≡ ok resource
    pub built : p.Context
    pub context_built : p.context_from_json facts ≡ ok built
    pub request : p.Request
    pub request_made : p.new_request principal action_uid resource built ≡ ok request
    pub no_errors : p.has_errors (p.is_authorized request self.policies) ≡ false
    pub allowed : p.allows (p.is_authorized request self.policies) ≡ true
    pub decided : decision ≡ record {
      gate = gate;
      decision = "allow";
      diagnostics = p.diagnostics (p.is_authorized request self.policies);
      policy = self.metadata;
    }

  authorize-IsAllowed :
      (d : AccessDecision) → authorize p self gate vehicle action station facts ≡ ok d → IsAllowed d
  unfolding authorize
  authorize-IsAllowed d h =
      let (principal, e1, h1) =
        >>=-eq-ok
          (map_err invalid_request
            (p.parse_entity_uid (format ("Vehicle::" ∷ p.debug_str vehicle ∷ []))))
          _ h in
      let (action_uid, e2, h2) =
        >>=-eq-ok
          (map_err invalid_request
            (p.parse_entity_uid (format ("Action::" ∷ p.debug_str action ∷ []))))
          _ h1 in
      let (resource, e3, h3) =
        >>=-eq-ok
          (map_err invalid_request
            (p.parse_entity_uid (format ("Station::" ∷ p.debug_str station ∷ []))))
          _ h2 in
      let (built, e4, h4) = >>=-eq-ok (map_err invalid_request (p.context_from_json facts)) _ h3 in
      let (request, e5, h5) =
        >>=-eq-ok (map_err invalid_request (p.new_request principal action_uid resource built)) _
          h4 in
      record {
        principal = principal;
        principal_parsed = map_err-eq-ok _ _ e1;
        action_uid = action_uid;
        action_parsed = map_err-eq-ok _ _ e2;
        resource = resource;
        resource_parsed = map_err-eq-ok _ _ e3;
        built = built;
        context_built = map_err-eq-ok _ _ e4;
        request = request;
        request_made = map_err-eq-ok _ _ e5;
        no_errors = ground arith;
        allowed = ground arith;
        decided = ground arith;
      }

  IsAllowed-authorize :
      (d : AccessDecision) → IsAllowed d → authorize p self gate vehicle action station facts ≡ ok d
  unfolding authorize
  IsAllowed-authorize d k = rw (
    k.principal_parsed, k.action_parsed, k.resource_parsed, k.context_built, k.request_made,
    k.no_errors, k.allowed, k.decided,
  )

  -- The engine allows a request exactly when its three entities, its context and the request are
  -- well formed and the authorizer allows it with no evaluation error; the decision then names the
  -- gate and the engine's own policy bundle.
  pub authorize_iff :
      (d : AccessDecision)
      → (authorize p self gate vehicle action station facts ≡ ok d) ↔ IsAllowed d
  authorize_iff d = (authorize-IsAllowed d, IsAllowed-authorize d)
