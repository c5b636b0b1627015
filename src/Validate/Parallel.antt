-- ===== src/Validate/Parallel.antt =====
-- pkg/validate/parallel.go: `ParallelValidator.Validate`. The validators run at the same time, and the
-- results come in any order; a fatal one may cancel the context that the others look at.
pub mod AllResults
use spinnaker_operator.Base.{
  ℕ, zero, suc, ◌+◌, String, Bool, true, false, ◌≡◌, refl, sym, ap, ◌∙◌, ◌&&◌, ◌||◌, not, List, [],
  ◌∷◌, ◌++◌, length, length-append, arith,
}
use spinnaker_operator.Validate.Outcome.{
  ValidationResult, no_result, append_each, merge_results, has_errors, has_fatal_errors,
}

module _ (E P : Type 0) where
  -- What a validator gives, by whether it sees the context cancelled.
  abbrev pub Validator : Type 0
  Validator = Bool → ValidationResult E P

  -- The validators whose results have not been received, and what the loop knows.
  pub record State : Type 0 where
    pub pending : List (Bool → ValidationResult E P)
    pub result : ValidationResult E P
    pub cancelled : Bool
    pub done : Bool

module _ {E P : Type 0} where
  abbrev pub started : List (Validator E P) → State E P
  started vs = record { pending = vs; result = no_result; cancelled = false; done = false }

  -- The case `res := <-resCh`.
  unfoldable pub received :
      Bool → State E P → List (Validator E P) → ValidationResult E P → State E P
  unfolding merge_results has_fatal_errors
  received fail_fast s rest res = record {
    pending = rest;
    result = merge_results s.result res;
    cancelled = s.cancelled || (has_fatal_errors res && fail_fast);
    done = false;
  }

  -- One pass of the loop: any pending validator may be next, and sees a cancelled context only if
  -- it is cancelled; the loop ends when all have been received. Every validator is taken to return.
  pub data Step (fail_fast : Bool) (s t : State E P) : Type 0 where
    receive :
        (xs ys : List (Validator E P)) (v : Validator E P) (seen : Bool)
        → s.done ≡ false
        → s.pending ≡ xs ++ v ∷ ys
        → (seen && not s.cancelled) ≡ false
        → t ≡ received fail_fast s (xs ++ ys) (v seen)
        → Step fail_fast s t
    finish : s.done ≡ false → s.pending ≡ [] → t ≡ record s { done = true } → Step fail_fast s t

  pub data Run (fail_fast : Bool) (s : State E P) : ℕ → State E P → Type 0 where
    here : Run fail_fast s 0 s
    next :
        {n : ℕ} {t u : State E P}
        → Run fail_fast s n t
        → Step fail_fast t u
        → Run fail_fast s (suc n) u
