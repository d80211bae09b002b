-- ===== src/Services/Authority/Started.antt =====
-- What the authority's engine is made of when its set-up succeeds.
use access.Common.{◌≡◌, refl, sym, ap, subst, ◌||◌, none, List, [], ◌∷◌, String, Bytes, arith}
use access.Common.Tests.{string_eq, nat_eq}
use access.Common.Int.{ℤ, ltb_ℤ, ◌≤ℤ◌}
use access.Common.Result.{
  Result, ok, err, ok-injective, map_err, map_err-eq-ok, try-then, bail_if-then,
}
use access.Platform.{Platform}
use access.Protocol.Identity.{IdentityKey, TrustStore}
use access.StateMachine.{hold}
use access.Cedar.{policy_error_text, from_source}
use access.Session.Engine.{AccessEngine, Cache, new, set_replay_state, enable_persistent_state}
use access.Protocol.Replay.{persistent}
use access.Services.Errors.{session_error_text}
use access.Session.Engine.Persistent.{IsCacheless, Keeps-enable_persistent_state}
use access.Services.{Host, timestamp, decode_key}
use access.Services.Authority.{
  TrustRecord, TrustBundle, AuthorityOs, AuthorityJson, AuthorizationPolicyBundle, keys_for,
}
use access.Services.Authority.Setup.{
  only, env_path, Environment, external_sign, add_records, store_for, external_identity,
  journal_path, ready, load_trust, load_policy, build_engine, start,
}

only-eq-ok : {A : Type 0} (xs : List A) (e : String) {a : A} → only xs e ≡ ok a → xs ≡ a ∷ []
only-eq-ok [] e h = cc
only-eq-ok (x ∷ []) e h = cc
only-eq-ok (x ∷ y ∷ rest) e h = cc

module _ (p : Platform) (H : Host) (O : AuthorityOs p) where
  -- The identity and the store are of the one key of the scope.
  pub record IsPaired (t : TrustBundle) (scope role command path : String)
      (identity : IdentityKey p) (store : TrustStore p) : Type 0 where
    pub record' : TrustRecord
    pub sole : keys_for t scope ≡ record' ∷ []
    pub decoded : decode_key p H record'.public_key_hex ≡ ok identity.verifying_key
    pub named : identity.key_id ≡ record'.key_id
    pub signs : identity.signer ≡ external_sign p H O command role path
    pub trusted : store ≡ (identity.key_id, identity.verifying_key) ∷ []

  -- A role's signing identity and the store of its scope hold the same, single key.
  pub external_identity-IsPaired :
      (t : TrustBundle) (scope role command path : String) (identity : IdentityKey p)
      (store : TrustStore p)
      → external_identity p H O t scope role command path ≡ ok identity
      → store_for p H O t scope ≡ ok store
      → IsPaired t scope role command path identity store
  unfolding external_identity store_for add_records nat_eq
  external_identity-IsPaired t scope role command path identity store h k =
      try-then (only (keys_for t scope) _) _ h λ r one h1.
        try-then (decode_key p H r.public_key_hex) _ h1 λ key decoded h2.
          let sole = only-eq-ok (keys_for t scope) _ one in
          let same = ok-injective h2 in
          let stored : ok ((r.key_id, key) ∷ []) ≡ ok store = rw (sole, decoded) at k in
          rw (← same) (record {
            record' = r;
            sole = sole;
            decoded = decoded;
            named = refl;
            signs = refl;
            trusted = sym (ok-injective stored);
          })

  module _ (J : AuthorityJson p) where
    -- The policy bundle that a file holds, within its interval, and the policies of its source file.
    pub record IsCurrent (path : String) (now : ℤ) (policy : AuthorizationPolicyBundle)
        (source : String) : Type 0 where
      pub bytes : Bytes
      pub read : H.read path ≡ ok bytes
      pub parsed : J.policy_from_slice bytes ≡ ok policy
      pub source_read : H.read_to_string policy.source_file ≡ ok source
      pub issued : ℤ
      pub until : ℤ
      pub policy_from : timestamp p H policy.issued_at ≡ ok issued
      pub policy_until : timestamp p H policy.valid_until ≡ ok until
      pub began : issued ≤ℤ now
      pub unexpired : now ≤ℤ until

    load_policy-IsCurrent :
        (path : String) (now : ℤ) (policy : AuthorizationPolicyBundle) (source : String)
        → load_policy p H O J path now ≡ ok (policy, source)
        → IsCurrent path now policy source
    unfolding load_policy
    load_policy-IsCurrent path now policy source h = try-then (H.read path) _ h λ bytes read h1.
        try-then (J.policy_from_slice bytes) _ h1 λ bundle parsed h2.
          try-then (timestamp p H bundle.issued_at) _ h2 λ issued from h3.
            try-then (timestamp p H bundle.valid_until) _ h3 λ until to h4.
              bail_if-then (ltb_ℤ now issued || ltb_ℤ until now) _ _ h4 λ within h5.
                try-then (H.read_to_string bundle.source_file) _ h5 λ text found h6.
                  let same : bundle ≡ policy = ap (λ x. x.0) (ok-injective h6) in
                  let text_same : text ≡ source = ap (λ x. x.1) (ok-injective h6) in
                  rw (← same, ← text_same)
                    (record {
                      bytes = bytes;
                      read = read;
                      parsed = parsed;
                      source_read = found;
                      issued = issued;
                      until = until;
                      policy_from = from;
                      policy_until = to;
                      began = ground (arith, within);
                      unexpired = ground (arith, within);
                    })

    -- The engine is built of one trust bundle, profile and policy bundle: each signing role is the
    -- single key of the scope that trusts it, the policies that the engine decides with are those of
    -- a bundle within its interval, and no session is open.
    pub record IsBuilt (env : Environment) (now : ℤ) (e : AccessEngine p) : Type 0 where
      pub trust : TrustBundle
      pub trust_loaded :
          load_trust p H O J
            (env_path env.trust_bundle_file "config/access/simulation-trust-bundle.json")
          ≡ ok trust
      pub trust_bundle_id : e.config.trust_bundle_id ≡ trust.bundle_id
      pub trust_bundle_version : e.config.trust_bundle_version ≡ trust.version
      pub issued_at : timestamp p H trust.issued_at ≡ ok e.config.trust_bundle_issued_at_s
      pub command : String
      pub path : String
      pub chaser : IsPaired trust "station_peer" "chaser" command path e.chaser e.station_peer_trust
      pub station :
          IsPaired trust "chaser_peer" "station" command path e.station e.chaser_peer_trust
      pub issuer :
          IsPaired trust "credential_issuer" "credential_issuer" command path e.credential_issuer
            e.credential_trust
      pub gate : store_for p H O trust "transition_gate" ≡ ok e.gate_trust
      pub profile_bytes : Bytes
      pub profile_read :
          H.read (env_path env.protocol_profile_file "config/access/access-protocol-profile.json")
          ≡ ok profile_bytes
      pub profile : J.profile_from_slice profile_bytes ≡ ok e.config.protocol_profile
      pub policy : AuthorizationPolicyBundle
      pub source : String
      pub current :
          IsCurrent
            (env_path env.authorization_policy_bundle_file
              "config/access/access-authorization-policy-bundle.json")
            now
            policy
            source
      pub policy_engine :
          from_source p policy.bundle_id policy.bundle_version source
          ≡ ok e.config.authorization_policy_engine
      pub closed : e.session_id ≡ none
      pub first : e.state ≡ hold

    build_engine-IsBuilt :
        (env : Environment) (now : ℤ) (e : AccessEngine p)
        → build_engine p H O J env now ≡ ok e
        → IsBuilt env now e
    unfolding build_engine new
    build_engine-IsBuilt env now e h =
        let command = env_path env.signer_command env.default_signer_command in
        let path = env_path env.identities_file "config/access/simulation-identities.json" in
        try-then (load_trust p H O J _) _ h λ t trust_loaded h1.
          try-then (H.read _) _ h1 λ profile_bytes profile_read h2.
            try-then (J.profile_from_slice profile_bytes) _ h2 λ profile profiled h3.
              try-then (load_policy p H O J _ now) _ h3 λ (policy, source) loaded h4.
                try-then
                  (map_err policy_error_text
                    (from_source p policy.bundle_id policy.bundle_version source))
                  _ h4
                  λ engine compiled h5.
                    try-then (timestamp p H t.issued_at) _ h5 λ issued_at issued h6.
                      try-then (external_identity p H O t "station_peer" "chaser" command path) _ h6
                        λ chaser one h7.
                          try-then (external_identity p H O t "chaser_peer" "station" command path)
                            _ h7
                            λ station two h8.
                              try-then
                                (external_identity p H O t "credential_issuer" "credential_issuer"
                                  command path)
                                _ h8
                                λ issuer three h9.
                                  try-then (store_for p H O t "station_peer") _ h9
                                    λ station_trust one' h10.
                                      try-then (store_for p H O t "chaser_peer") _ h10
                                        λ chaser_trust two' h11.
                                          try-then (store_for p H O t "credential_issuer") _ h11
                                            λ credential_trust three' h12.
                                              try-then (store_for p H O t "transition_gate") _ h12
                                                λ gate four h13. rw (← ok-injective h13) (record {
                                                  trust = t;
                                                  trust_loaded = trust_loaded;
                                                  trust_bundle_id = refl;
                                                  trust_bundle_version = refl;
                                                  issued_at = issued;
                                                  command = command;
                                                  path = path;
                                                  chaser =
                                                      external_identity-IsPaired t _ _ command path
                                                        chaser station_trust one one';
                                                  station =
                                                      external_identity-IsPaired t _ _ command path
                                                        station chaser_trust two two';
                                                  issuer =
                                                      external_identity-IsPaired t _ _ command path
                                                        issuer credential_trust three three';
                                                  gate = four;
                                                  profile_bytes = profile_bytes;
                                                  profile_read = profile_read;
                                                  profile = profiled;
                                                  policy = policy;
                                                  source = source;
                                                  policy_engine = map_err-eq-ok _ _ compiled;
                                                  current =
                                                      load_policy-IsCurrent _ now policy source
                                                        loaded;
                                                  closed = refl;
                                                  first = refl;
                                                })

    ready-eq-ok :
        (r : Result String (Unit {0})) {d e : AccessEngine p} → ready p H O J r d ≡ ok e → d ≡ e
    ready-eq-ok (ok _) h = ok-injective h
    ready-eq-ok (err error) h = cc

    module _ (env : Environment) (now : ℤ) where
      IsBuilt-set_replay_state :
          (a b c d : Cache p) (e : AccessEngine p)
          → IsBuilt env now e
          → IsBuilt env now (set_replay_state p a b c d e)
      unfolding set_replay_state
      IsBuilt-set_replay_state a b c d e k = record {
        trust = k.trust;
        trust_loaded = k.trust_loaded;
        trust_bundle_id = k.trust_bundle_id;
        trust_bundle_version = k.trust_bundle_version;
        issued_at = k.issued_at;
        command = k.command;
        path = k.path;
        chaser = k.chaser;
        station = k.station;
        issuer = k.issuer;
        gate = k.gate;
        profile_bytes = k.profile_bytes;
        profile_read = k.profile_read;
        profile = k.profile;
        policy = k.policy;
        source = k.source;
        policy_engine = k.policy_engine;
        current = k.current;
        closed = k.closed;
        first = k.first;
      }

      IsBuilt-IsCacheless : IsCacheless (IsBuilt env now)
      unfolding set_replay_state
      IsBuilt-IsCacheless = record {
        station_replay =
            λ c e. IsBuilt-set_replay_state c e.chaser_replay e.gate_replay e.consumed_grants e;
        chaser_replay =
            λ c e. IsBuilt-set_replay_state e.station_replay c e.gate_replay e.consumed_grants e;
        gate_replay =
            λ c e. IsBuilt-set_replay_state e.station_replay e.chaser_replay c e.consumed_grants e;
        consumed_grants =
            λ c e. IsBuilt-set_replay_state e.station_replay e.chaser_replay e.gate_replay c e;
      }

      pub start-IsBuilt : (e : AccessEngine p) → start p H O J env now ≡ ok e → IsBuilt env now e
      unfolding start
      start-IsBuilt e h =
          let open_journal = λ (name : String).
            persistent p.backend O.open_journal (journal_path p H O J env name) in
          try-then (build_engine p H O J env now) _ h λ built made h1.
            let opened = enable_persistent_state p open_journal built in
            let kept =
              (Keeps-enable_persistent_state (IsBuilt env now) open_journal IsBuilt-IsCacheless).at
                built (build_engine-IsBuilt env now built made) in
            subst (IsBuilt env now) (ready-eq-ok (map_err session_error_text opened.0) h1) kept
