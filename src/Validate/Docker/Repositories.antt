-- ===== src/Validate/Docker/Repositories.antt =====
-- pkg/validate/docker_validator.go: the goroutines of `repository`. Each appends its error, or nil, to a
-- slice that all of them share without a lock: it reads the slice, and later writes it one longer.
pub mod Lost
pub mod Kept
use spinnaker_operator.Base.{
  String, Bool, true, false, ◌≡◌, refl, ◌≢◌, Option, none, some, List, [], ◌∷◌, ◌++◌, map, all, any,
  ◌&&◌, ◌||◌, append_assoc, append-nil, arith,
}
use spinnaker_operator.Validate.Docker.{present}

-- `pending e` has the result `e` and has not read; `holding seen e` has read `seen`.
pub data Goroutine (E : Type 0) : Type 0 where
  pending : Option E → Goroutine E
  holding : List (Option E) → Option E → Goroutine E
  finished : Goroutine E

module _ {E : Type 0} where
  -- One goroutine moves.
  pub data Step
      : List (Goroutine E) → List (Option E) → List (Goroutine E) → List (Option E) → Type 0 where
    read :
        (e : Option E) (errs : List (Option E)) (gs : List (Goroutine E))
        → Step (pending e ∷ gs) errs (holding errs e ∷ gs) errs
    write :
        (e : Option E) (seen errs errs' : List (Option E)) (gs : List (Goroutine E))
        → errs' ≡ seen ++ e ∷ []
        → Step (holding seen e ∷ gs) errs (finished ∷ gs) errs'
    other :
        (g : Goroutine E) {gs gs' : List (Goroutine E)} {errs errs' : List (Option E)}
        → Step gs errs gs' errs'
        → Step (g ∷ gs) errs (g ∷ gs') errs'

  pub data Run (gs : List (Goroutine E)) (errs : List (Option E))
      : List (Goroutine E) → List (Option E) → Type 0 where
    here : Run gs errs gs errs
    next :
        {gs' gs'' : List (Goroutine E)} {errs' errs'' : List (Option E)}
        → Run gs errs gs' errs'
        → Step gs' errs' gs'' errs''
        → Run gs errs gs'' errs''

  abbrev pub started : List (Option E) → List (Goroutine E)
  started rs = map pending rs

  abbrev pub all_finished : List (Option E) → List (Goroutine E)
  all_finished rs = map (λ r. finished) rs

  pub Run-trans :
      {gs gs' : List (Goroutine E)} {errs errs' : List (Option E)} {gs'' : List (Goroutine E)}
      {errs'' : List (Option E)}
      → Run gs errs gs' errs'
      → Run gs' errs' gs'' errs''
      → Run gs errs gs'' errs''
  Run-trans r here = r
  Run-trans r (next q st) = next (Run-trans r q) st

  pub Run-other :
      (g : Goroutine E) {gs : List (Goroutine E)} {errs : List (Option E)}
      {gs' : List (Goroutine E)} {errs' : List (Option E)}
      → Run gs errs gs' errs'
      → Run (g ∷ gs) errs (g ∷ gs') errs'
  Run-other g here = here
  Run-other g (next r st) = next (Run-other g r) (other g st)

  -- The first goroutine reads and writes at once.
  pub Run-first :
      (r : Option E) (gs : List (Goroutine E)) (errs : List (Option E))
      → Run (pending r ∷ gs) errs (finished ∷ gs) (errs ++ r ∷ [])
  Run-first r gs errs =
      next (next here (read r errs gs)) (write r errs errs (errs ++ r ∷ []) gs refl)

  pub Run-in_order :
      (rs errs : List (Option E)) → Run (started rs) errs (all_finished rs) (errs ++ rs)
  Run-in_order [] errs = rw (append-nil errs) here
  Run-in_order (r ∷ rs) errs = rw (← append_assoc errs (r ∷ []) rs) (
      Run-trans (Run-first r (started rs) errs)
        (Run-other finished (Run-in_order rs (errs ++ r ∷ []))))
