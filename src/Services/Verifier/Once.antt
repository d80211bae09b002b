-- ===== src/Services/Verifier/Once.antt =====
-- The verifier over the lines that it is served: an entitlement is accepted once.
use mathlib.Core.Option.{some-injective}
use access.Common.{
  ◌≡◌, sym, ap, ◌∙◌, ◌≢◌, true, false, some, List, [], ◌∷◌, String, Bytes, contains, unwrap_or,
  ◌==◌, ◌!=◌, arith,
}
use access.Common.Tests.{string_eq, bytes_eq}
use access.Common.Int.{ℤ}
use access.Common.Result.{Result, ok, err, ok-injective, try-then, bail_if-then, ok_or-then}
use access.Common.Exec
use access.Common.Exec.{Exec}
use access.Common.Exec.Keeps.{Keeps, Keeps-bind, Keeps-lift, Keeps-zoom_part}
use access.Platform.{Platform}
use access.Protocol.Claims.{ProtocolClaims}
use access.Protocol.Identity.{TrustStore}
use access.Protocol.Replay.{ReplayStateBackend, ReplayCache}
use access.Protocol.Replay.Once.{contains-consume}
use access.Protocol.Envelope.{VerifiedEnvelope}
use access.Protocol.Envelope.Keeps.{Keeps-verify_envelope}
use access.Protocol.Envelope.Accepted.{IsChecked, IsChecked-claims, verify_envelope-IsChecked}
use access.Session.Outcomes.{max_clock_skew_s}
use access.Services.{Host, Input}
use access.Services.Verifier.{
  VerifyCommand, ClientTrustBundle, VerifiedEntitlement, VerifierJson, decode_command, accept,
  verify_command, answer, serve,
}
use access.Services.Verifier.Verified.{IsAccepted, accept-IsAccepted}

module _ (p : Platform) (H : Host) (J : VerifierJson) where
  -- The line is a request to verify, and carries these bytes.
  pub record IsRequest (input : String) (command : VerifyCommand) (encoded : Bytes) : Type 0 where
    pub parsed : J.command_from_str input ≡ ok command
    pub asked : command.command ≡ "verify_entitlement"
    pub hex : String
    pub given : command.entitlement_hex ≡ some hex
    pub decoded : p.hex_decode hex ≡ some encoded

  decode_command-IsRequest :
      (input : String) (command : VerifyCommand) (encoded : Bytes)
      → decode_command p H J input ≡ ok (command, encoded)
      → IsRequest input command encoded
  unfolding decode_command
  decode_command-IsRequest input command encoded h =
      try-then (J.command_from_str input) _ h λ c parsed h1.
        bail_if-then (c.command == "describe") _ _ h1 λ _ h2.
          bail_if-then (c.command != "verify_entitlement") _ _ h2 λ asked h3.
            ok_or-then c.entitlement_hex _ _ h3 λ hex given h4.
              ok_or-then (p.hex_decode hex) _ _ h4 λ bytes decoded h5.
                let same = ok-injective h5 in
                let one : c ≡ command = ap (λ x. x.0) same in
                let two : bytes ≡ encoded = ap (λ x. x.1) same in
                record {
                  parsed = rw (← one) parsed;
                  asked = rw (← one) (ground (arith, asked));
                  hex = hex;
                  given = rw (← one) given;
                  decoded = rw (← two) decoded;
                }

  -- A line has one reading.
  IsRequest-bytes :
      {input : String} {command command' : VerifyCommand} {encoded encoded' : Bytes}
      → IsRequest input command encoded
      → IsRequest input command' encoded'
      → encoded ≡ encoded'
  IsRequest-bytes one two =
      let same = ok-injective (sym one.parsed ∙ two.parsed) in
      let hex =
        some-injective _ _
          (sym one.given ∙ ap (λ (c : VerifyCommand). c.entitlement_hex) same ∙ two.given) in
      some-injective _ _ (sym one.decoded ∙ ap p.hex_decode hex ∙ two.decoded)

  module _ {S : Type 0} (B : ReplayStateBackend S) (bundle : ClientTrustBundle)
      (trust : TrustStore p) where
    -- What a positive answer establishes, of the line, the time, the cache before and after, and
    -- the answer.
    pub record IsVerified (input : String) (unix_time : ℤ) (c c' : ReplayCache S)
        (out : VerifiedEntitlement) : Type 0 where
      pub command : VerifyCommand
      pub encoded : Bytes
      pub request : IsRequest input command encoded
      pub envelope : VerifiedEnvelope
      pub checked :
          IsChecked p encoded trust bundle.client_id
            (unwrap_or unix_time command.now_s)
            max_clock_skew_s
            envelope
      pub accepted :
          IsAccepted command bundle
            (unwrap_or unix_time command.now_s)
            envelope.claims
            envelope.signer
            out
      pub unused : contains c.consumed envelope.claims.nonce ≡ false
      pub consumed : c'.consumed ≡ envelope.claims.nonce ∷ c.consumed

    -- A positive answer is to a request to verify, whose entitlement is an authentic and timely
    -- grant for the client, with an unused nonce, of the authority, session and stage that the request
    -- expects, issued by a trusted authority and not expired; it repeats the grant's claims, and
    -- exactly the grant's nonce is then consumed.
    pub verify_command-IsVerified :
        (input : String) (unix_time : ℤ) (c c' : ReplayCache S) (out : VerifiedEntitlement)
        → verify_command p H J B input bundle trust unix_time c ≡ (ok out, c')
        → IsVerified input unix_time c c' out
    unfolding verify_command
    verify_command-IsVerified input unix_time c c' out h =
        Exec.lift-then _ _ h λ (command, encoded) decoded h1.
          Exec.zoom-then _ _ _ _ _ h1 λ v cache verified h2.
            let now = unwrap_or unix_time command.now_s in
            let (accepted, same) = Exec.lift-eq-ok (accept command bundle now v) cache h2 in
            let (checked, unused, grown) =
              verify_envelope-IsChecked p B encoded trust bundle.client_id now max_clock_skew_s c
                cache v verified in
            record {
              command = command;
              encoded = encoded;
              request = decode_command-IsRequest input command encoded decoded;
              envelope = v;
              checked = checked;
              accepted = accept-IsAccepted command bundle now v out accepted;
              unused = unused;
              consumed = rw (← same) grown;
            }

    abbrev Consumed : Bytes → ReplayCache S → Type 0
    Consumed nonce c = contains c.consumed nonce ≡ true

    module _ (nonce : Bytes) where
      Keeps-verify_command :
          (input : String) (unix_time : ℤ)
          → Keeps (Consumed nonce) (verify_command p H J B input bundle trust unix_time)
      unfolding verify_command
      Keeps-verify_command input unix_time =
          Keeps-bind _ _ (Keeps-lift (decode_command p H J input)) λ (command, encoded).
            Keeps-bind _ _
              (Keeps-zoom_part _ _ _ _ (Consumed nonce) (λ c h. h) (λ c' c h h'. h')
                (Keeps-verify_envelope p B (Consumed nonce) encoded trust bundle.client_id
                  (unwrap_or unix_time command.now_s) max_clock_skew_s
                  λ n. record { at = λ c h. contains-consume B n nonce c h }))
              λ v. Keeps-lift _

      answered-Consumed :
          (line : Result String String) (unix_time : ℤ) (c : ReplayCache S)
          → Consumed nonce c
          → Consumed nonce
              (answer p H J B bundle trust (record { line = line; unix_time = unix_time }) c).1
      unfolding answer
      answered-Consumed (ok line) unix_time c h = (Keeps-verify_command line unix_time).at c h
      answered-Consumed (err error) unix_time c h = h

      serve-Consumed :
          (inputs : List Input) (c : ReplayCache S)
          → Consumed nonce c
          → Consumed nonce (serve p H J B bundle trust inputs c).1
      unfolding serve
      serve-Consumed [] c h = h
      serve-Consumed (input ∷ rest) c h =
          serve-Consumed rest (answer p H J B bundle trust input c).1
            (answered-Consumed input.line input.unix_time c h)

    -- An entitlement that was verified is not verified again, whatever lines are served in between
    -- and whatever the later command expects.
    pub serve_once :
        (input input' : String) (between : List Input) (unix_time unix_time' : ℤ)
        (c c' d : ReplayCache S) (out out' : VerifiedEntitlement) (command command' : VerifyCommand)
        (encoded : Bytes)
        → verify_command p H J B input bundle trust unix_time c ≡ (ok out, c')
        → IsRequest input command encoded
        → IsRequest input' command' encoded
        → verify_command p H J B input' bundle trust unix_time'
            (serve p H J B bundle trust between c').1
          ≢ (ok out', d)
    serve_once input input' between unix_time unix_time' c c' d out out' command command' encoded h
          one two k =
        let v = verify_command-IsVerified input unix_time c c' out h in
        let w = verify_command-IsVerified input' unix_time' _ d out' k in
        let same_bytes : v.encoded ≡ w.encoded =
          IsRequest-bytes v.request one ∙ sym (IsRequest-bytes w.request two) in
        let same =
          ap (λ (x : ProtocolClaims). x.nonce)
            (IsChecked-claims p w.encoded (rw same_bytes at v.checked) w.checked) in
        let nonce = v.envelope.claims.nonce in
        let used = serve-Consumed nonce between c' (rw v.consumed (ground arith)) in
        let clash : contains (serve p H J B bundle trust between c').1.consumed nonce ≡ false =
          rw same w.unused in
        cc
