-- ===== src/Tests/Detector.antt =====
-- The change detectors, at concrete inputs.
use spinnaker_operator.Base.{
  ℕ, suc, String, Bool, true, false, ◌≡◌, refl, ◌↔◌, inr, List, [], ◌∷◌, ◌=ₛ◌, ◌&&◌,
}
use spinnaker_operator.Detector.Composite.{
  ChangeDetector, composite, AllUpToDate, after_all, composite-true,
}
use spinnaker_operator.Detector.Config.{
  Hashes, recorded, is_spinnaker_up_to_date, is_spinnaker_up_to_date-recorded,
}
use spinnaker_operator.Tests.Fixtures.{spinnaker}

-- A detector that counts its runs and gives a fixed answer.
abbrev counting : String → Bool → Bool → ChangeDetector ℕ String
counting name always_run answer = record {
  name = name;
  always_run = always_run;
  is_spinnaker_up_to_date = λ n. (suc n, inr answer);
}

abbrev three : List (ChangeDetector ℕ String)
three = counting "config" true true ∷ counting "expose" false true ∷ counting "x509" false true ∷ []

composite-true_example :
    (((composite three 0).1 ≡ inr true) ↔ AllUpToDate three 0)
    × ((composite three 0 ≡ (after_all three 0, inr true, [])) ↔ AllUpToDate three 0)
composite-true_example = composite-true three 0

abbrev two : List (ChangeDetector ℕ String)
two = counting "expose" false true ∷ counting "x509" true true ∷ []

abbrev hashes : Hashes String
hashes = record { config = λ c. inr "bb"; kustomize = λ k. inr "cc" }

is_spinnaker_up_to_date-recorded_example :
    let (svc', r) = is_spinnaker_up_to_date hashes 2 3 spinnaker in
    (r ≡ inr (("bb" =ₛ recorded "config" spinnaker) && ("cc" =ₛ recorded "kustomize" spinnaker)))
    × (recorded "config" svc' ≡ "bb")
    × (recorded "kustomize" svc' ≡ "cc")
    × (svc' ≡ record spinnaker { status = svc'.status })
is_spinnaker_up_to_date-recorded_example =
    is_spinnaker_up_to_date-recorded hashes 2 3 spinnaker "bb" "cc" refl refl
