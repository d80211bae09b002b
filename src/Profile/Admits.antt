-- ===== src/Profile/Admits.antt =====
-- Evaluation of a profile against its meaning, condition by condition.
use access.Common.{
  ◌≡◌, refl, ◌↔◌, true, false, Option, none, some, List, [], ◌∷◌, contains, find, All, ◌==◌, arith,
}
use access.Common.Tests.{string_eq}
use access.Common.Int.{ℤ, ◌≤ℤ◌, saturating_sub}
use access.Common.Result.{ok, ok_or, bail_if, >>=-eq-ok, ok_or-eq-ok}
use access.Profile.{
  CredentialProfile, ProtocolProfile, VerifiedCredentialEvidence, violates, validate_credentials,
}

-- A credential that a profile of its identifier admits: its type, schema and issuer group are the
-- profile's, and its status check is no older than the profile allows.
pub record IsCovered (self : ProtocolProfile) (now : ℤ) (credential : VerifiedCredentialEvidence)
    : Type 0 where
  pub profile : CredentialProfile
  pub found :
      find
        (λ (c : CredentialProfile). c.profile_id == credential.profile_id)
        self.credential_profiles
      ≡ some profile
  pub same_type : credential.credential_type ≡ profile.credential_type
  pub same_schema : credential.schema_id ≡ profile.schema_id
  pub recognized : contains profile.issuer_groups credential.issuer_group ≡ true
  pub checked :
      (age : ℤ)
      → profile.maximum_status_age_s ≡ some age
      → saturating_sub now credential.status_checked_at_s ≤ℤ age

module _ (profile : CredentialProfile) (credential : VerifiedCredentialEvidence) (now : ℤ) where
  violates-eq-false :
      violates profile credential now ≡ false
      → (credential.credential_type ≡ profile.credential_type)
        × (credential.schema_id ≡ profile.schema_id)
        × (contains profile.issuer_groups credential.issuer_group ≡ true)
        × ((age : ℤ)
            → profile.maximum_status_age_s ≡ some age
            → saturating_sub now credential.status_checked_at_s ≤ℤ age)
  unfolding violates
  violates-eq-false h = (ground arith, ground arith, ground arith, λ age e. ground arith)

  violates_of_parts :
      credential.credential_type ≡ profile.credential_type
      → credential.schema_id ≡ profile.schema_id
      → contains profile.issuer_groups credential.issuer_group ≡ true
      → (o : Option ℤ) → profile.maximum_status_age_s ≡ o
      → ((age : ℤ) → o ≡ some age → saturating_sub now credential.status_checked_at_s ≤ℤ age)
      → violates profile credential now ≡ false
  unfolding violates
  violates_of_parts t s g none e k = ground arith
  violates_of_parts t s g (some age) e k = ground (arith, k age refl)

module _ (self : ProtocolProfile) (now : ℤ) where
  validate_credentials-IsCovered :
      (cs : List VerifiedCredentialEvidence)
      → validate_credentials self cs now ≡ ok tt
      → All (IsCovered self now) cs
  unfolding validate_credentials
  validate_credentials-IsCovered [] h = tt
  validate_credentials-IsCovered (c ∷ cs) h =
      let (profile, found, h1) = >>=-eq-ok (ok_or (find _ self.credential_profiles) _) _ h in
      let (_, kept, h2) = >>=-eq-ok (bail_if (violates profile c now) _) _ h1 in
      let (t, s, g, k) = violates-eq-false profile c now (ground arith) in
      (
        record {
          profile = profile;
          found = ok_or-eq-ok _ _ found;
          same_type = t;
          same_schema = s;
          recognized = g;
          checked = k;
        },
        validate_credentials-IsCovered cs h2,
      )

  IsCovered-validate_credentials :
      (cs : List VerifiedCredentialEvidence)
      → All (IsCovered self now) cs
      → validate_credentials self cs now ≡ ok tt
  unfolding validate_credentials
  IsCovered-validate_credentials [] h = refl
  IsCovered-validate_credentials (c ∷ cs) (k, rest) =
      let kept =
        violates_of_parts k.profile c now k.same_type k.same_schema k.recognized
          k.profile.maximum_status_age_s refl k.checked in
      rw (k.found, kept) (IsCovered-validate_credentials cs rest)

  -- The credentials are validated exactly when the profile admits each one that is presented.
  pub validate_credentials_iff :
      (cs : List VerifiedCredentialEvidence)
      → (validate_credentials self cs now ≡ ok tt) ↔ All (IsCovered self now) cs
  validate_credentials_iff cs =
      (validate_credentials-IsCovered cs, IsCovered-validate_credentials cs)
