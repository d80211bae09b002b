-- ===== src/Protocol/Envelope/Keeps.antt =====
-- An invariant of the replay cache that consumption keeps is kept by the check of a message.
use access.Common.{String, Bytes}
use access.Common.Int.{ℤ}
use access.Common.Exec.Keeps.{Keeps, Keeps-bind, Keeps-lift, Keeps-pure}
use access.Platform.{Platform}
use access.Protocol.Identity.{TrustStore}
use access.Protocol.Replay.{ReplayStateBackend, ReplayCache, consume}
use access.Protocol.Envelope.{verify_envelope, check_envelope, consume_nonce}

module _ (p : Platform) {S : Type 0} (B : ReplayStateBackend S) (Q : ReplayCache S → Type 0) where
  pub Keeps-verify_envelope :
      (encoded : Bytes) (trust : TrustStore p) (recipient : String) (now skew : ℤ)
      → ((nonce : Bytes) → Keeps Q (consume B nonce))
      → Keeps Q (verify_envelope p B encoded trust recipient now skew)
  unfolding verify_envelope consume_nonce
  Keeps-verify_envelope encoded trust recipient now skew kept =
      Keeps-bind _ _ (Keeps-lift (check_envelope p encoded trust recipient now skew))
        λ v. Keeps-bind _ _ (kept v.claims.nonce) λ _. Keeps-pure v
