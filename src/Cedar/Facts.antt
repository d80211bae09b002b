-- ===== src/Cedar/Facts.antt =====
-- The facts that a policy is given are no more than the evidence.
use access.Common.{◌≡◌, ◌⊎◌, ◌↔◌, Bool, true, Option, none, some, List, [], ◌∷◌, String, get, arith}
use access.Common.Tests.{string_eq}
use access.Platform.{Platform, ContextValue}
use access.Profile.{VerifiedCredentialEvidence, ReadinessEvidence}
use access.Cedar.{context, check, has_profile}

-- Some credential was verified against a profile.
abbrev pub Presents : List VerifiedCredentialEvidence → String → Type 0
Presents [] profile = ⊥
Presents (c ∷ cs) profile = (c.profile_id ≡ profile) ⊎ Presents cs profile

has_profile-Presents :
    (p : Platform) (cs : List VerifiedCredentialEvidence) (profile : String)
    → (has_profile p cs profile ≡ true) ↔ Presents cs profile
has_profile-Presents p [] profile = (λ h. cc, λ h. absurd h)
has_profile-Presents p (c ∷ cs) profile =
    let (to, from) = has_profile-Presents p cs profile in
    (λ h. ground (arith, to), λ h. ground (arith, from))

-- A readiness check was reported, and as passed.
abbrev pub Reports : {p : Platform} → Option (ReadinessEvidence p) → String → Type 0
Reports none name = ⊥
Reports (some evidence) name = get evidence.checks name ≡ some true

check-Reports :
    (p : Platform) (o : Option (ReadinessEvidence p)) (name : String)
    → (check p o name ≡ true) ↔ Reports o name
check-Reports p none name = (λ h. cc, λ h. absurd h)
check-Reports p (some evidence) name = (λ h. ground arith, λ h. rw h)

module _ (p : Platform) (credentials : List VerifiedCredentialEvidence) (proof session : Bool)
    (readiness : Option (ReadinessEvidence p)) (fresh : Bool) where
  abbrev facts : ContextValue
  facts = context p credentials proof session readiness fresh

  -- A vehicle or docking fact is true exactly when a credential of that profile was verified, and
  -- each of the ten readiness facts exactly when the evidence reports that check as passed: without
  -- the credential, the check or the evidence it is false.
  pub context_iff :
      ((facts.registered_vehicle ≡ true) ↔ Presents credentials "registered-vehicle-v1")
      × ((facts.docking_certified ≡ true) ↔ Presents credentials "idss-compatible-v1")
      × ((facts.initial_hold_confirmed ≡ true) ↔ Reports readiness "initial_hold_confirmed")
      × ((facts.retreat_available ≡ true) ↔ Reports readiness "retreat_available")
      × ((facts.relative_navigation_valid ≡ true) ↔ Reports readiness "relative_navigation_valid")
      × ((facts.approach_corridor_clear ≡ true) ↔ Reports readiness "approach_corridor_clear")
      × ((facts.closing_rate_within_limit ≡ true) ↔ Reports readiness "closing_rate_within_limit")
      × ((facts.alignment_within_limit ≡ true) ↔ Reports readiness "alignment_within_limit")
      × ((facts.capture_system_ready ≡ true) ↔ Reports readiness "capture_system_ready")
      × ((facts.soft_capture_confirmed ≡ true) ↔ Reports readiness "soft_capture_confirmed")
      × ((facts.latches_ready ≡ true) ↔ Reports readiness "latches_ready")
      × ((facts.relative_motion_stable ≡ true) ↔ Reports readiness "relative_motion_stable")
  unfolding context
  context_iff = (
    has_profile-Presents p credentials _,
    has_profile-Presents p credentials _,
    check-Reports p readiness _,
    check-Reports p readiness _,
    check-Reports p readiness _,
    check-Reports p readiness _,
    check-Reports p readiness _,
    check-Reports p readiness _,
    check-Reports p readiness _,
    check-Reports p readiness _,
    check-Reports p readiness _,
    check-Reports p readiness _,
  )
