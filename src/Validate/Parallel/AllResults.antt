-- ===== src/Validate/Parallel/AllResults.antt =====
-- pkg/validate/parallel.go: the results and the length of the loop, over all schedules.
use mathlib.Core.List.{Perm, perm_append_comm}
use mathlib.Core.List.Perm
use mathlib.Core.Path.{subst}
use spinnaker_operator.Base.{
  ℕ, Bool, true, false, ◌≡◌, refl, sym, ap, ◌∙◌, ◌||◌, List, [], ◌∷◌, ◌++◌, append-nil,
  append_assoc, arith,
}
use spinnaker_operator.Validate.Outcome.{append_each, merge_results}
use spinnaker_operator.Validate.Parallel.{
  Validator, State, started, received, Step, receive, finish, Run, here, next,
}

append_each-append : {E : Type 0} (xs ys : List E) → append_each xs ys ≡ xs ++ ys
append_each-append xs [] = sym (append-nil xs)
append_each-append xs (y ∷ ys) = append_each-append (xs ++ y ∷ []) ys ∙ append_assoc xs (y ∷ []) ys

moved : {E : Type 0} (r e a b : List E) → Perm ((r ++ e) ++ (a ++ b)) (r ++ (a ++ (e ++ b)))
moved r e a b = rw (append_assoc r e (a ++ b)) (
    Perm.append_left r (
      rw (sym (append_assoc e a b), sym (append_assoc a e b))
        (Perm.append_right b (perm_append_comm e a))))

as_false : {R : Type 0} (v : Bool → R) (seen : Bool) → v true ≡ v false → v seen ≡ v false
as_false v true h = h
as_false v false h = refl

module _ {E P : Type 0} where
  -- The validators' errors where no context is cancelled, and whether one of them is fatal.
  abbrev pub all_errors : List (Validator E P) → List E
  all_errors [] = []
  all_errors (v ∷ vs) = (v false).errors ++ all_errors vs

  abbrev pub any_fatal : List (Validator E P) → Bool
  any_fatal [] = false
  any_fatal (v ∷ vs) = (v false).fatal || any_fatal vs

  -- Validators that give the same result whether or not they see the context cancelled.
  abbrev pub Steady : List (Validator E P) → Type 0
  Steady [] = Unit
  Steady (v ∷ vs) = (v true ≡ v false) × Steady vs

  all_errors-append :
      (xs ys : List (Validator E P)) → all_errors (xs ++ ys) ≡ all_errors xs ++ all_errors ys
  all_errors-append [] ys = refl
  all_errors-append (x ∷ xs) ys =
      rw (all_errors-append xs ys)
        (sym (append_assoc (x false).errors (all_errors xs) (all_errors ys)))

  any_fatal-append :
      (xs ys : List (Validator E P)) → any_fatal (xs ++ ys) ≡ (any_fatal xs || any_fatal ys)
  any_fatal-append [] ys = refl
  any_fatal-append (x ∷ xs) ys = ground (arith, any_fatal-append xs ys)

  Steady-without :
      (xs ys : List (Validator E P)) (v : Validator E P)
      → Steady (xs ++ v ∷ ys)
      → (v true ≡ v false) × Steady (xs ++ ys)
  Steady-without [] ys v (h, hs) = (h, hs)
  Steady-without (x ∷ xs) ys v (h, hs) =
      let rest = Steady-without xs ys v hs in (rest.0, (h, rest.1))

  -- What has been received and what is pending, together.
  abbrev Kept : List E → Bool → State E P → Type 0
  Kept errors fatal s =
      Steady s.pending
      × Perm (s.result.errors ++ all_errors s.pending) errors
      × ((s.result.fatal || any_fatal s.pending) ≡ fatal)

  received-Kept :
      (fail_fast : Bool) (s : State E P) (xs ys : List (Validator E P)) (v : Validator E P)
      (seen : Bool) (errors : List E) (fatal : Bool)
      → s.pending ≡ xs ++ v ∷ ys
      → Kept errors fatal s
      → Kept errors fatal (received fail_fast s (xs ++ ys) (v seen))
  unfolding received merge_results
  received-Kept fail_fast s xs ys v seen errors fatal is (steady, perm, fat) =
      let r = s.result.errors in
      let e = (v false).errors in
      let parts : (v true ≡ v false) × Steady (xs ++ ys) =
        Steady-without xs ys v (rw (sym is) steady) in
      let same : v seen ≡ v false = as_false v seen parts.0 in
      let before : Perm (r ++ all_errors (xs ++ v ∷ ys)) errors = rw (sym is) perm in
      let split : all_errors (xs ++ v ∷ ys) ≡ all_errors xs ++ (e ++ all_errors ys) =
        all_errors-append xs (v ∷ ys) in
      let before' : Perm (r ++ (all_errors xs ++ (e ++ all_errors ys))) errors =
        rw (sym split) before in
      let after : Perm ((r ++ e) ++ (all_errors xs ++ all_errors ys)) errors =
        Perm.trans (moved r e (all_errors xs) (all_errors ys)) before' in
      (
        parts.1,
        rw (same, append_each-append r e, all_errors-append xs ys) after,
        ground (
          arith,
          same,
          ap any_fatal is,
          fat,
          any_fatal-append xs ys,
          any_fatal-append xs (v ∷ ys),
        ),
      )

  step-Kept :
      (fail_fast : Bool) (s t : State E P) (errors : List E) (fatal : Bool)
      → Step fail_fast s t
      → Kept errors fatal s
      → Kept errors fatal t
  step-Kept fail_fast s t errors fatal (receive xs ys v seen on is ok' shape) h =
      rw shape (received-Kept fail_fast s xs ys v seen errors fatal is h)
  step-Kept fail_fast s t errors fatal (finish on is shape) h = rw shape h

  Run-Kept :
      (fail_fast : Bool) (s : State E P) (errors : List E) (fatal : Bool) {n : ℕ} {t : State E P}
      → Run fail_fast s n t
      → Kept errors fatal s
      → Kept errors fatal t
  Run-Kept fail_fast s errors fatal here h = h
  Run-Kept fail_fast s errors fatal (next {n = n} {t = t} {u = u} run step) h =
      step-Kept fail_fast t u errors fatal step (Run-Kept fail_fast s errors fatal run h)

  -- A loop that has ended has received everything.
  abbrev Ended : State E P → Type 0
  Ended s = s.done ≡ true → s.pending ≡ []

  step-Ended : (fail_fast : Bool) (s t : State E P) → Step fail_fast s t → Ended t
  unfolding received
  step-Ended fail_fast s t (receive xs ys v seen on is ok' shape) =
      rw shape (λ h. ground (arith, h))
  step-Ended fail_fast s t (finish on is shape) = rw shape (λ h. is)

  Run-Ended :
      (fail_fast : Bool) (s : State E P) {n : ℕ} {t : State E P}
      → Run fail_fast s n t
      → Ended s
      → Ended t
  Run-Ended fail_fast s here h = h
  Run-Ended fail_fast s (next {n = n} {t = t} {u = u} run step) h = step-Ended fail_fast t u step

  -- In whatever order the results of steady validators come, and whatever is cancelled on the way, a
  -- loop that has ended gives all their errors, up to their order, and is fatal exactly if one of
  -- the results is.
  pub Run-result :
      (fail_fast : Bool) (vs : List (Validator E P)) (n : ℕ) (t : State E P)
      → Steady vs
      → Run fail_fast (started vs) n t
      → t.done ≡ true
      → Perm t.result.errors (all_errors vs) × (t.result.fatal ≡ any_fatal vs)
  Run-result fail_fast vs n t steady run ended =
      let empty : t.pending ≡ [] =
        Run-Ended fail_fast (started vs) run (λ h. ground (arith, h)) ended in
      let (steady', perm, fat) =
        Run-Kept fail_fast (started vs) (all_errors vs) (any_fatal vs) run
          (steady, Perm.refl (all_errors vs), refl) in
      let perm' : Perm (t.result.errors ++ []) (all_errors vs) =
        subst (λ p. Perm (t.result.errors ++ all_errors p) (all_errors vs)) empty perm in
      (
        subst (λ es. Perm es (all_errors vs)) (append-nil t.result.errors) perm',
        ground (arith, fat, ap any_fatal empty),
      )
