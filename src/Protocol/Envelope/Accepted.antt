-- ===== src/Protocol/Envelope/Accepted.antt =====
-- What an accepted message establishes, and that it is accepted once.
use access.Common.{
  ◌≤◌, ◌≡◌, sym, ap, ◌∙◌, ◌↔◌, ◌≢◌, false, some, List, ◌∷◌, String, Bytes, ltb, length, contains,
  ◌!=◌, arith,
}
use access.Common.Tests.{string_eq, bytes_eq}
use access.Common.Int.{ℤ, abs_diff, unsigned_abs}
use access.Common.Result.{ok, err, ok_or, bail_if, >>=-eq-ok, ok_or-eq-ok}
use access.Common.Exec
use access.Platform.{Platform}
use access.Protocol.Claims.{ProtocolClaims, ProtocolError, min_nonce_bytes}
use access.Protocol.Identity.{TrustStore}
use access.Protocol.Cose.{verify_signed_payload}
use access.Protocol.Cose.Laws.{IsAuthentic, verify_signed_payload_iff}
use access.Protocol.Replay.{ReplayStateBackend, ReplayCache, consume}
use access.Protocol.Replay.Once.{consume-eq-ok, after, contains-after}
use access.Protocol.Envelope.{
  VerifiedEnvelope, envelope_aad, check_envelope, consume_nonce, verify_envelope,
}

module _ (p : Platform) where
  -- An authentic message of its named issuer, for this recipient, within the clock window, and
  -- with a nonce of at least 128 bits.
  pub record IsChecked (encoded : Bytes) (trust : TrustStore p) (recipient : String) (now skew : ℤ)
      (v : VerifiedEnvelope) : Type 0 where
    pub payload : Bytes
    pub authentic : IsAuthentic p encoded trust envelope_aad v.signer payload
    pub decoded : p.claims_from_cbor payload ≡ some v.claims
    pub issued_by : v.claims.issuer ≡ v.signer
    pub addressed : v.claims.recipient ≡ recipient
    pub fresh : abs_diff now v.claims.issued_at_s ≤ unsigned_abs skew
    pub strong : min_nonce_bytes ≤ length v.claims.nonce

  module _ (encoded : Bytes) (trust : TrustStore p) (recipient : String) (now skew : ℤ)
      (v : VerifiedEnvelope) where
    check_envelope-IsChecked :
        check_envelope p encoded trust recipient now skew ≡ ok v
        → IsChecked encoded trust recipient now skew v
    unfolding check_envelope
    check_envelope-IsChecked h =
        let ((signer, payload), signed, h1) =
          >>=-eq-ok (verify_signed_payload p encoded trust envelope_aad) _ h in
        let (claims, decoded, h2) = >>=-eq-ok (ok_or (p.claims_from_cbor payload) _) _ h1 in
        let (_, issuer, h3) = >>=-eq-ok (bail_if (claims.issuer != signer) _) _ h2 in
        let (_, addressed, h4) = >>=-eq-ok (bail_if (claims.recipient != recipient) _) _ h3 in
        let (_, fresh, h5) =
          >>=-eq-ok (bail_if (ltb (unsigned_abs skew) (abs_diff now claims.issued_at_s)) _) _ h4 in
        let (_, strong, h6) =
          >>=-eq-ok (bail_if (ltb (length claims.nonce) min_nonce_bytes) _) _ h5 in
        let same : record { signer = signer; claims = claims } ≡ v = ground arith in
        rw (← same) (record {
          payload = payload;
          authentic =
              (verify_signed_payload_iff p encoded trust envelope_aad signer payload).0 signed;
          decoded = ok_or-eq-ok _ _ decoded;
          issued_by = ground arith;
          addressed = ground arith;
          fresh = ground arith;
          strong = ground arith;
        })

    IsChecked-check_envelope :
        IsChecked encoded trust recipient now skew v
        → check_envelope p encoded trust recipient now skew ≡ ok v
    unfolding check_envelope
    IsChecked-check_envelope k =
        rw
          (
            (verify_signed_payload_iff p encoded trust envelope_aad v.signer k.payload).1
                k.authentic,
            k.decoded,
          )
          (ground arith)

    -- The checks pass exactly when the message is authentic and meets each of them.
    pub check_envelope_iff :
        (check_envelope p encoded trust recipient now skew ≡ ok v)
        ↔ IsChecked encoded trust recipient now skew v
    check_envelope_iff = (check_envelope-IsChecked, IsChecked-check_envelope)

-- One message has one reading, whatever store, recipient and time it is checked against.
pub IsChecked-claims :
    (p : Platform) (encoded : Bytes) {trust trust' : TrustStore p} {recipient recipient' : String}
    {now now' skew skew' : ℤ} {v w : VerifiedEnvelope}
    → IsChecked p encoded trust recipient now skew v
    → IsChecked p encoded trust' recipient' now' skew' w
    → v.claims ≡ w.claims
IsChecked-claims p encoded {v} {w} k j =
    let one : some k.authentic.message ≡ some j.authentic.message =
      sym k.authentic.parsed ∙ j.authentic.parsed in
    let same : k.authentic.message ≡ j.authentic.message = cc in
    let body : some k.payload ≡ some j.payload =
      sym k.authentic.carried ∙ ap p.payload same ∙ j.authentic.carried in
    let bytes : k.payload ≡ j.payload = cc in
    let read : some v.claims ≡ some w.claims =
      sym k.decoded ∙ ap p.claims_from_cbor bytes ∙ j.decoded in
    cc

module _ (p : Platform) {S : Type 0} (B : ReplayStateBackend S) (encoded : Bytes) where
  pub verify_envelope-eq-ok :
      (trust : TrustStore p) (recipient : String) (now skew : ℤ) (c c' : ReplayCache S)
      (v : VerifiedEnvelope)
      → verify_envelope p B encoded trust recipient now skew c ≡ (ok v, c')
      → (check_envelope p encoded trust recipient now skew ≡ ok v)
        × (consume B v.claims.nonce c ≡ (ok tt, c'))
  unfolding verify_envelope
  verify_envelope-eq-ok trust recipient now skew c c' v h =
      let checked = check_envelope p encoded trust recipient now skew in
      let (w, c1, e1, h1) = Exec.>>=-eq-ok (Exec.lift checked) (consume_nonce p B) c h in
      let (_, c2, e2, h2) = Exec.>>=-eq-ok (consume B w.claims.nonce) (λ _. Exec.pure w) c1 h1 in
      (ground arith, ground arith)

  -- An accepted message was authentic, issued by its signer, addressed to the recipient, within the
  -- clock window and of a strong nonce, and its nonce was unused; exactly that nonce is then consumed.
  pub verify_envelope-IsChecked :
      (trust : TrustStore p) (recipient : String) (now skew : ℤ) (c c' : ReplayCache S)
      (v : VerifiedEnvelope)
      → verify_envelope p B encoded trust recipient now skew c ≡ (ok v, c')
      → IsChecked p encoded trust recipient now skew v
        × (contains c.consumed v.claims.nonce ≡ false)
        × (c'.consumed ≡ v.claims.nonce ∷ c.consumed)
  verify_envelope-IsChecked trust recipient now skew c c' v h =
      let (checked, used) = verify_envelope-eq-ok trust recipient now skew c c' v h in
      let (unused, grown) = consume-eq-ok B v.claims.nonce c c' used in
      ((check_envelope_iff p encoded trust recipient now skew v).0 checked, unused, grown)

  -- A message that fails its checks consumes nothing and leaves the whole cache as it was.
  pub verify_envelope_rejected :
      (trust : TrustStore p) (recipient : String) (now skew : ℤ) (c : ReplayCache S)
      (e : ProtocolError)
      → check_envelope p encoded trust recipient now skew ≡ err e
      → verify_envelope p B encoded trust recipient now skew c ≡ (err e, c)
  unfolding verify_envelope
  verify_envelope_rejected trust recipient now skew c e h = rw h

  -- Once a message has been accepted, it is never accepted again by that cache, whatever else was
  -- presented in between and whichever trust store, recipient, time and window are used.
  pub verify_envelope_once :
      (trust trust' : TrustStore p) (recipient recipient' : String) (now now' skew skew' : ℤ)
      (c c' d : ReplayCache S) (v w : VerifiedEnvelope) (ns : List Bytes)
      → verify_envelope p B encoded trust recipient now skew c ≡ (ok v, c')
      → verify_envelope p B encoded trust' recipient' now' skew' (after B c' ns) ≢ (ok w, d)
  verify_envelope_once trust trust' recipient recipient' now now' skew skew' c c' d v w ns h k =
      let (one, _, grown) = verify_envelope-IsChecked trust recipient now skew c c' v h in
      let (two, unused, _) =
        verify_envelope-IsChecked trust' recipient' now' skew' (after B c' ns) d w k in
      let same = ap (λ (x : ProtocolClaims). x.nonce) (IsChecked-claims p encoded one two) in
      let used = contains-after B c' ns v.claims.nonce (rw grown (ground arith)) in
      let clash : contains (after B c' ns).consumed v.claims.nonce ≡ false = rw same unused in cc
