-- ===== src/Store/Posture/Compliance.antt =====
-- What compliance means in crates/nac-store/src/posture.rs.
use native.Mathlib.Omega.{arith}
use lentropy.Common.{Bool, true, List, [], ◌∷◌, Text, ◌≡◌, refl, ◌↔◌, All, Bool-cases, inl, inr}
use lentropy.Store.Posture.{
  CompliancePolicy, PostureReport, SoftwareItem, is_empty, installed, software_loop, evaluate,
}

-- What a policy asks of a report.
module _ (to_lowercase : Text → Text) (contains : Text → Text → Bool) where
  pub Complies : CompliancePolicy → PostureReport → Type 0
  Complies p r =
      All (λ req. installed to_lowercase contains r.installed_software req ≡ true)
        p.required_software
      × (p.require_patches ≡ true → is_empty r.missing_patches ≡ true)
      × (r.usb_enabled ≡ true → p.allow_usb ≡ true)
      × (r.bluetooth_enabled ≡ true → p.allow_bluetooth ≡ true)
      × (r.folder_sharing_enabled ≡ true → p.allow_folder_sharing ≡ true)

  software_loop-All :
      (reqs : List Text) (software : List SoftwareItem) (rest : Bool)
      → (software_loop to_lowercase contains reqs software rest ≡ true)
        ↔ (All (λ req. installed to_lowercase contains software req ≡ true) reqs × (rest ≡ true))
  unfolding software_loop
  software_loop-All [] software rest = (λ h. (tt, h), λ h. h.1)
  software_loop-All (req ∷ reqs) software rest =
      let (to, from) = software_loop-All reqs software rest in
      elim (Bool-cases (installed to_lowercase contains software req)) [
        | inl e ↦ rw e (λ h. let (a, b) = to h in ((refl, a), b), λ h. from (h.0.1, h.1))
        | inr e ↦ rw e (λ h. absurd cc, λ h. absurd cc)
      ]

  -- The evaluation of a policy on a report is true exactly if every required name is part of an
  -- installed one's, no patch is missing where patches are required, and USB, Bluetooth and folder
  -- sharing are on only where they are allowed.
  pub evaluate_lem :
      (p : CompliancePolicy) (r : PostureReport)
      → (evaluate to_lowercase contains p r ≡ true) ↔ Complies p r
  unfolding evaluate Complies
  evaluate_lem p r =
      let (to, from) = software_loop-All p.required_software r.installed_software _ in
      (
        λ h. let (a, b) = to h in (a, ground arith, ground arith, ground arith, ground arith),
        λ (a, b, c, d, e). from (a, ground arith),
      )
