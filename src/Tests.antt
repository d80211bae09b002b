-- ===== src/Tests.antt =====
-- A platform to run the model on: its messages and credentials are those of a table, a signature is
-- the key's number, and a byte string is its own text.
pub mod Fixtures
pub mod Protocol
pub mod Replays
pub mod Redeem
pub mod Establish
pub mod Request
pub mod Policies
pub mod History
pub mod Verifier
pub mod Authority
pub mod Hex
pub mod Signer
pub mod Immediate
use mathlib.Core.Logic.{ite}
use access.Common.{
  ℕ, zero, suc, ◌≡◌, refl, ap, Bool, true, false, Option, none, some, List, [], ◌∷◌, ◌++◌, ◌+◌, ◌*◌,
  String, Bytes, length, replicate, unwrap_or, if◌then◌else◌, ◌==◌, arith,
}
use access.Common.Tests.{Eq, string_eq, bytes_eq, nat_eq}
use access.Common.Int.{ℤ, pos, int_eq}
use access.Common.Result.{Result, ok, err}
use access.Utf8.{as_bytes, from_utf8}
use access.Platform.{Platform, ContextValue}
use access.Platform.Laws.{CoseLaws, CborLaws}
use access.Protocol.Claims.{
  ProtocolClaims, CredentialClaims, MessageType-discrete, AuthorizedStage-discrete,
}
use access.Protocol.Identity.{IdentityKey, from_seed}
use access.Protocol.Replay.{ReplayStateBackend}

unfoldable ProtocolClaims-discrete : Discrete ProtocolClaims
unfolding string_eq int_eq nat_eq bytes_eq MessageType-discrete AuthorizedStage-discrete
ProtocolClaims-discrete = hlevel (
  string_eq.dec, int_eq.dec, nat_eq.dec, bytes_eq.dec, MessageType-discrete,
  AuthorizedStage-discrete,
)

unfoldable CredentialClaims-discrete : Discrete CredentialClaims
unfolding string_eq int_eq
CredentialClaims-discrete = hlevel (string_eq.dec, int_eq.dec)

instance unfoldable pub claims_eq : Eq ProtocolClaims
unfolding ProtocolClaims-discrete
claims_eq = record { dec = ProtocolClaims-discrete }

instance unfoldable pub credential_eq : Eq CredentialClaims
unfolding CredentialClaims-discrete
credential_eq = record { dec = CredentialClaims-discrete }

-- Where an entry stands in a table, and what stands there.
module _ {A : Type 0} ⦃e : Eq A⦄ where
  unfoldable index : List A → A → Option Bytes
  index [] a = none
  index (x ∷ xs) a =
      let later = index xs a in
      if x == a then some [] else elim later [ none ↦ none | some bs ↦ some (0 ∷ bs) ]

unfoldable entry : {A : Type 0} → List A → Bytes → Option A
entry [] bs = none
entry (x ∷ xs) [] = some x
entry (x ∷ xs) (b ∷ bs) = entry xs bs

-- The parts of a byte string at a length.
unfoldable split : ℕ → Bytes → Bytes × Bytes
split zero bs = ([], bs)
split (suc n) [] = ([], [])
split (suc n) (b ∷ bs) = let (front, back) = split n bs in (b ∷ front, back)

split-length : (front back : Bytes) → split (length front) (front ++ back) ≡ (front, back)
unfolding split
split-length [] back = refl
split-length (b ∷ front) back = rw (split-length front back) refl

pub record Message : Type 0 where
  pub key_id : Bytes
  pub payload : Bytes
  pub signature : Bytes

unfoldable write_message : Message → Bytes
write_message m = length m.key_id ∷ (m.key_id ++ (length m.payload ∷ (m.payload ++ m.signature)))

unfoldable read_signed : Bytes → Bytes → Option Message
unfolding split
read_signed key_id [] = none
read_signed key_id (n ∷ bs) =
    let (payload, signature) = split n bs in
    some (record { key_id = key_id; payload = payload; signature = signature })

unfoldable read_message : Bytes → Option Message
unfolding read_signed split
read_message [] = none
read_message (n ∷ bs) = let (key_id, rest) = split n bs in read_signed key_id rest

read_message-write_message : (m : Message) → read_message (write_message m) ≡ some m
unfolding read_message write_message read_signed
read_message-write_message m =
    rw (split-length m.key_id (length m.payload ∷ (m.payload ++ m.signature)))
      (rw (split-length m.payload m.signature) refl)

-- The text of bytes, and a time by its name.
abbrev text_of : Bytes → String
text_of bs = unwrap_or "" (from_utf8 bs)

abbrev time_of : String → Option ℤ
time_of s = if s == "start" then some (pos 0) else some (pos 1000000)

-- Byte strings and keys that are always accepted, except where the key differs.
module _ (messages : List ProtocolClaims) (credentials : List CredentialClaims) where
  unfoldable pub platform : Platform
  unfolding index entry write_message read_message claims_eq credential_eq bytes_eq
  platform = record {
    VerifyingKey = Bytes;
    Signature = Bytes;
    SigningKey = Bytes;
    verifying_key_from_bytes = λ bs. some bs;
    signature_from_slice = λ bs. some bs;
    verify_strict = λ key message signature. key == signature;
    signing_key_from_bytes = λ seed. seed;
    verifying_key = λ key. key;
    sign = λ key message. key;
    CoseSign1 = Message;
    to_be_signed = λ key_id payload aad. key_id ++ (payload ++ aad);
    build = λ k b s. record { key_id = k; payload = b; signature = s };
    alg_is_eddsa = λ m. true;
    key_id = λ m. m.key_id;
    payload = λ m. some m.payload;
    signature = λ m. m.signature;
    tbs_data = λ m aad. m.key_id ++ (m.payload ++ aad);
    to_tagged_vec = λ m. some (write_message m);
    from_tagged_slice = read_message;
    claims_to_cbor = index messages;
    claims_from_cbor = entry messages;
    credential_to_cbor = index credentials;
    credential_from_cbor = entry credentials;
    hex_encode = text_of;
    hex_decode = λ s. some (as_bytes s);
    parse_from_rfc3339 = time_of;
    sha256 = λ bs. bs;
    F64 = ℕ;
    times_1000 = λ x. x * 1000;
    ceil = λ x. x;
    f64_as_i64 = pos;
    debug_str = λ s. s;
    PolicySet = Bool;
    EntityUid = String;
    Context = ContextValue;
    Request = ContextValue;
    Response = Bool;
    parse_policy_set = λ s. ok true;
    policy_set_is_empty = λ ps. false;
    parse_entity_uid = λ s. ok s;
    context_from_json = λ c. ok c;
    new_request = λ principal action resource c. ok c;
    is_authorized = λ c ps. c.holder_proof_valid;
    diagnostics = λ r. "policy0";
    has_errors = λ r. false;
    allows = λ r. r;
    RandomSource = Bool;
    os_random_source = true;
    fill = λ works k buffer. if works then some (replicate (length buffer) (65 + k)) else none;
    Backend = List Bytes;
    backend = record {
      load = λ values. (ok values, values);
      append_and_sync = λ value values. (ok tt, value ∷ values);
    };
  }

  pub platform-CoseLaws : CoseLaws platform
  unfolding platform
  platform-CoseLaws = record {
    alg-build = λ k b s. refl;
    key_id-build = λ k b s. refl;
    payload-build = λ k b s. refl;
    signature-build = λ k b s. refl;
    tbs_data-build = λ k b s aad. refl;
    from_tagged_slice-to_tagged_vec = λ m bs h.
        let same : write_message m ≡ bs = cc in rw (← same) (read_message-write_message m);
  }

module _ {A : Type 0} (x a : A) (xs : List A) (bs : Bytes) where
  entry-next :
      (d : Dec (x ≡ a)) (later : Option Bytes)
      → ((cs : Bytes) → later ≡ some cs → entry xs cs ≡ some a)
      → (if ite d true false
          then some []
          else (elim later [ none ↦ none | some cs ↦ some (0 ∷ cs) ]))
        ≡ some bs
      → entry (x ∷ xs) bs ≡ some a
  unfolding entry
  entry-next (yes q) later k h = let empty : [] ≡ bs = cc in rw (← empty) (ap some q)
  entry-next (no n) none k h = absurd (cc)
  entry-next (no n) (some cs) k h = let first : 0 ∷ cs ≡ bs = cc in rw (← first) (k cs refl)

module _ {A : Type 0} ⦃e : Eq A⦄ where
  entry-index : (xs : List A) (a : A) (bs : Bytes) → index xs a ≡ some bs → entry xs bs ≡ some a
  unfolding index
  entry-index [] a bs h = absurd (cc)
  entry-index (x ∷ xs) a bs h = entry-next x a xs bs (e.dec x a) (index xs a) (entry-index xs a) h

pub platform-CborLaws :
    (messages : List ProtocolClaims) (credentials : List CredentialClaims)
    → CborLaws (platform messages credentials)
unfolding platform
platform-CborLaws messages credentials = record {
  claims_round_trip = λ c bs h. entry-index messages c bs h;
  credential_round_trip = λ c bs h. entry-index credentials c bs h;
}
