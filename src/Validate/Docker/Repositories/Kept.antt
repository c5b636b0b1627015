-- ===== src/Validate/Docker/Repositories/Kept.antt =====
-- pkg/validate/docker_validator.go: the goroutines of repositories that all have an error, and that
-- the goroutines can always end.
use spinnaker_operator.Base.{
  Bool, true, false, ◌≡◌, refl, ◌≢◌, Option, none, some, List, [], ◌∷◌, ◌++◌, all, any, ◌&&◌, ◌||◌,
  not, arith,
}
use spinnaker_operator.Validate.Docker.{present}
use spinnaker_operator.Validate.Docker.Repositories.{
  Goroutine, pending, holding, finished, Step, read, write, other, Run, here, next, started,
  all_finished,
}

module _ {E : Type 0} where
  abbrev pub is_error : Option E → Bool
  is_error none = false
  is_error (some e) = true

  abbrev all_errors : List (Option E) → Bool
  all_errors errs = all is_error errs

  abbrev goroutine_has_error : Goroutine E → Bool
  goroutine_has_error (pending r) = is_error r
  goroutine_has_error (holding seen r) = all_errors seen && is_error r
  goroutine_has_error finished = true

  abbrev is_finished : Goroutine E → Bool
  is_finished finished = true
  is_finished _ = false

  abbrev is_some_error : List (Option E) → Bool
  is_some_error [] = false
  is_some_error (e ∷ errs) = true

  all_errors-append :
      (errs : List (Option E)) (r : Option E)
      → all_errors errs ≡ true
      → is_error r ≡ true
      → (all_errors (errs ++ r ∷ []) ≡ true) × (is_some_error (errs ++ r ∷ []) ≡ true)
  all_errors-append [] r h e = ground arith
  all_errors-append (x ∷ errs) r h e = ground (arith, all_errors-append errs r)

  -- A slice is not empty once a goroutine has finished.
  abbrev filled : List (Goroutine E) → List (Option E) → Bool
  filled gs errs = not (any is_finished gs) || is_some_error errs

  -- Every goroutine and the slice hold only errors, and what was filled stays so.
  Step-keeps :
      {gs : List (Goroutine E)} {errs : List (Option E)} {gs' : List (Goroutine E)}
      {errs' : List (Option E)}
      → Step gs errs gs' errs'
      → all goroutine_has_error gs ≡ true
      → all_errors errs ≡ true
      → (all goroutine_has_error gs' ≡ true)
        × (all_errors errs' ≡ true)
        × ((not (is_some_error errs) || is_some_error errs') ≡ true)
        × ((not (filled gs errs) || filled gs' errs') ≡ true)
  Step-keeps (read e errs gs) h k = (ground arith, k, ground arith, ground arith)
  Step-keeps (write e seen errs errs' gs eq) h k =
      let (only, some_left) = all_errors-append seen e (ground arith) (ground arith) in
      (
        ground arith,
        rw eq only,
        rw (eq, some_left) (ground arith),
        rw (eq, some_left) (ground arith),
      )
  Step-keeps (other g st) h k =
      let (a, b, c, d) = Step-keeps st (ground arith) k in (ground arith, b, c, ground arith)

  Run-keeps :
      {gs : List (Goroutine E)} {errs : List (Option E)} {gs' : List (Goroutine E)}
      {errs' : List (Option E)}
      → all goroutine_has_error gs ≡ true
      → all_errors errs ≡ true
      → filled gs errs ≡ true
      → Run gs errs gs' errs'
      → (all goroutine_has_error gs' ≡ true) × (all_errors errs' ≡ true) × (filled gs' errs' ≡ true)
  Run-keeps h k f here = (h, k, f)
  Run-keeps h k f (next r st) =
      let (a, b, c) = Run-keeps h k f r in
      let (a', b', mono, d) = Step-keeps st a b in (a', b', ground arith)

  started-has_errors :
      (rs : List (Option E)) → all_errors rs ≡ true → all goroutine_has_error (started rs) ≡ true
  started-has_errors [] h = refl
  started-has_errors (r ∷ rs) h = ground (arith, started-has_errors rs)

  started-filled : (rs : List (Option E)) → filled (started rs) [] ≡ true
  started-filled [] = refl
  started-filled (r ∷ rs) = started-filled rs

  present-ne_nil :
      (errs : List (Option E))
      → all_errors errs ≡ true
      → is_some_error errs ≡ true
      → present errs ≢ []
  present-ne_nil [] h k = ground arith
  present-ne_nil (none ∷ errs) h k = ground arith
  present-ne_nil (some e ∷ errs) h k = λ p. cc

  -- If every repository has an error, then in whatever order the goroutines read and write, some error
  -- is left when they have ended.
  pub Run-error_kept :
      (r : Option E) (rs errs : List (Option E))
      → all is_error (r ∷ rs) ≡ true
      → Run (started (r ∷ rs)) [] (all_finished (r ∷ rs)) errs
      → present errs ≢ []
  Run-error_kept r rs errs h run =
      let (a, b, c) =
        Run-keeps (started-has_errors (r ∷ rs) h) refl (started-filled (r ∷ rs)) run in
      present-ne_nil errs b c
