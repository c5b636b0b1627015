-- ===== src/Validate/Docker/Repositories/Lost.antt =====
-- pkg/validate/docker_validator.go: errors of repositories that get lost.
use spinnaker_operator.Base.{◌≡◌, refl, Option, none, List, [], ◌∷◌, ◌++◌, append_assoc}
use spinnaker_operator.Validate.Docker.{present}
use spinnaker_operator.Validate.Docker.Repositories.{
  Goroutine, pending, holding, finished, read, write, Run, here, next, started, all_finished,
  Run-trans, Run-other, Run-first, Run-in_order,
}

module _ {E : Type 0} where
  -- Goroutines of which one has read the empty slice and has no error to append.
  one_reader : List (Option E) → List (Option E) → List (Goroutine E)
  one_reader before after = started before ++ holding [] none ∷ started after

  one_left : List (Option E) → List (Option E) → List (Goroutine E)
  one_left before after = all_finished before ++ holding [] none ∷ all_finished after

  Run-one_reader :
      (before after : List (Option E))
      → Run (started (before ++ none ∷ after)) [] (one_reader before after) []
  unfolding one_reader
  Run-one_reader [] after = next here (read none [] (started after))
  Run-one_reader (r ∷ before) after = Run-other (pending r) (Run-one_reader before after)

  Run-one_left :
      (before after errs : List (Option E))
      → Run (one_reader before after) errs (one_left before after) (errs ++ (before ++ after))
  unfolding one_reader one_left
  Run-one_left [] after errs = Run-other (holding [] none) (Run-in_order after errs)
  Run-one_left (r ∷ before) after errs = rw (← append_assoc errs (r ∷ []) (before ++ after)) (
      Run-trans (Run-first r (one_reader before after) errs)
        (Run-other finished (Run-one_left before after (errs ++ r ∷ []))))

  Run-last :
      (before after errs : List (Option E))
      → Run (one_left before after) errs (all_finished (before ++ none ∷ after)) (none ∷ [])
  unfolding one_left
  Run-last [] after errs = next here (write none [] errs (none ∷ []) (all_finished after) refl)
  Run-last (r ∷ before) after errs = Run-other finished (Run-last before after errs)

  -- As soon as one repository has no error, all the errors of the others can be lost: the goroutines
  -- can end with one nil in the slice, which the validator takes for no error.
  pub Run-errors_lost :
      (before after : List (Option E))
      → (errs : List (Option E)) × Run
          (started (before ++ none ∷ after))
          []
          (all_finished (before ++ none ∷ after))
          errs
        × (present errs ≡ [])
  Run-errors_lost before after = (
    none ∷ [],
    Run-trans (Run-one_reader before after)
        (Run-trans (Run-one_left before after []) (Run-last before after (before ++ after))),
    refl,
  )
