-- ===== src/Validate/Docker/Accepted.antt =====
-- pkg/validate/docker_validator.go: what a registry that `validateRegistry` accepts is like.
use spinnaker_operator.Base.{
  ℕ, zero, suc, String, true, false, ◌≡◌, ◌≢◌, refl, ◌⊎◌, inl, inr, all, Option, none, some, List,
  [], ◌∷◌, arith,
}
use mathlib.Core.Path.{subst}
use spinnaker_operator.Base.Text.{is_empty}
use spinnaker_operator.Base.Result.{Result, ok, err, panic}
use spinnaker_operator.Base.Io.{Io, returned, wrapped, go_on-eq_ok, mapped-eq_ok}
use spinnaker_operator.Secrets.Context.{SecretContext}
use spinnaker_operator.Config.{SpinnakerConfig}
use spinnaker_operator.Validate.Docker.{
  DockerRegistryAccount, RegistryError, World, S, matches_name, more_than_one, resolve_password,
  check_account, image_tags, repository, results_of, present, validate_registry, beside, in_world,
  enough_tags, collected, service_of, check_name, check_both, check_base, after_name,
  after_password, after_both, no_errors, after_account,
}
use spinnaker_operator.Validate.Docker.Repositories.{Run, started, all_finished}
use spinnaker_operator.Validate.Docker.Repositories.Kept.{is_error, Run-error_kept}
use spinnaker_operator.Validate.Docker.Service.{DockerRegistryService, ServiceError, get_tags_count}

module _ {W E : Type 0} (world : World W E) where
  -- The registry is asked in this state, and lists at least one tag.
  abbrev pub HasTags : DockerRegistryService → String → S world → Type 0
  HasTags s image st =
      (w : W) × (n : ℕ) × (get_tags_count world.web world.json world.encode_base64 s image st.1
        ≡ (w, ok (suc n)))

  -- One of the repositories has tags when it is asked for, after those before it.
  abbrev pub OneHasTags : DockerRegistryService → List String → S world → Type 0
  OneHasTags s [] st = false ≡ true
  OneHasTags s (r ∷ rs) st = HasTags s r st ⊎ OneHasTags s rs (image_tags world s r st).0

  beside-eq_ok :
      {A : Type 0} (ctx : Option SecretContext) (p : W × Result (ServiceError E) A) {t : S world}
      {a : A}
      → beside world ctx p ≡ (t, ok a)
      → (w' : W) × (p ≡ (w', ok a))
  beside-eq_ok ctx (w, ok a) h = (w, ground arith)
  beside-eq_ok ctx (w, err e) h = ground arith
  beside-eq_ok ctx (w, panic) h = ground arith

  positive :
      (r : String) (n : ℕ) {t u : S world}
      → returned (enough_tags world r n) t ≡ (u, ok tt)
      → (m : ℕ) × (n ≡ suc m)
  positive r zero h = ground arith
  positive r (suc n) h = (n, refl)

  image_tags-HasTags :
      (s : DockerRegistryService) (r : String) (st : S world) {st' : S world}
      → image_tags world s r st ≡ (st', ok tt)
      → HasTags s r st
  unfolding image_tags
  image_tags-HasTags s r (ctx, w) h =
      let count = get_tags_count world.web world.json world.encode_base64 s r in
      let (n, t, counted, rest) =
        go_on-eq_ok (λ n. returned (enough_tags world r n)) (in_world world count (ctx, w)) h in
      let (w', answered) = beside-eq_ok ctx (count w) counted in
      let (m, e) = positive r n rest in (w', m, rw (← e) answered)

  -- What a goroutine and those after it give: no error, or one.
  collected-cases :
      (p : S world × Result (RegistryError E) (Unit {0}))
      (rest : Io (S world) (List (RegistryError E)) (List (Option (RegistryError E))))
      {st' : S world} {errs : List (Option (RegistryError E))}
      → collected world p rest ≡ (st', ok errs)
      → (errs' : List (Option (RegistryError E))) × (rest p.0 ≡ (st', ok errs'))
        × ((p ≡ (p.0, ok tt)) ⊎ ((e : RegistryError E) × (errs ≡ some e ∷ errs')))
  collected-cases (s, ok u) rest h =
      let (errs', t, first, last) = go_on-eq_ok (λ errs. returned (ok (none ∷ errs))) (rest s) h in
      (errs', ground arith, inl refl)
  collected-cases (s, err e) rest h =
      let (errs', t, first, last) =
        go_on-eq_ok (λ errs. returned (ok (some e ∷ errs))) (rest s) h in
      (errs', ground arith, inr (e, ground arith))
  collected-cases (s, panic) rest h = ground arith

  results_of-cases :
      (s : DockerRegistryService) (rs : List String) (st : S world) {st' : S world}
      {errs : List (Option (RegistryError E))}
      → results_of world s rs st ≡ (st', ok errs)
      → OneHasTags s rs st ⊎ (all is_error errs ≡ true)
  unfolding results_of
  results_of-cases s [] st h = inr (ground arith)
  results_of-cases s (r ∷ rs) st h =
      let (errs', rest, this) =
        collected-cases (image_tags world s r st) (results_of world s rs) h in
      at this (results_of-cases s rs (image_tags world s r st).0 rest)
    where
      at :
          {errs errs' : List (Option (RegistryError E))}
          → ((image_tags world s r st ≡ ((image_tags world s r st).0, ok tt))
              ⊎ ((e : RegistryError E) × (errs ≡ some e ∷ errs')))
          → OneHasTags s rs (image_tags world s r st).0 ⊎ (all is_error errs' ≡ true)
          → OneHasTags s (r ∷ rs) st ⊎ (all is_error errs ≡ true)
      at (inl good) later = inl (inl (image_tags-HasTags s r st good))
      at (inr failed) (inl later) = inl (inr later)
      at (inr (e, eq)) (inr later) = inr (rw eq later)

  results_of-some :
      (s : DockerRegistryService) (r : String) (rs : List String) (st : S world) {st' : S world}
      {errs : List (Option (RegistryError E))}
      → results_of world s (r ∷ rs) st ≡ (st', ok errs)
      → (e : Option (RegistryError E)) × (errs' : List (Option (RegistryError E))) × (errs
          ≡ e ∷ errs')
  unfolding results_of
  results_of-some s r rs st h = at (image_tags world s r st) h
    where
      at :
          (p : S world × Result (RegistryError E) (Unit {0})) {st' : S world}
          {errs : List (Option (RegistryError E))}
          → collected world p (results_of world s rs) ≡ (st', ok errs)
          → (e : Option (RegistryError E)) × (errs' : List (Option (RegistryError E))) × (errs
              ≡ e ∷ errs')
      at (s', ok u) h =
          let (errs', t, first, last) =
            go_on-eq_ok (λ errs. returned (ok (none ∷ errs))) (results_of world s rs s') h in
          (none, errs', ground arith)
      at (s', err e) h =
          let (errs', t, first, last) =
            go_on-eq_ok (λ errs. returned (ok (some e ∷ errs))) (results_of world s rs s') h in
          (some e, errs', ground arith)
      at (s', panic) h = ground arith

  error_kept :
      (results : List (Option (RegistryError E))) {e : Option (RegistryError E)}
      {more errs : List (Option (RegistryError E))}
      → results ≡ e ∷ more
      → all is_error results ≡ true
      → Run (started results) [] (all_finished results) errs
      → present errs ≢ []
  error_kept [] shape h run = ground arith
  error_kept (x ∷ xs) {errs = errs} shape h run = Run-error_kept x xs errs h run

  -- In whatever order the goroutines read and write, no error is left only if a repository has tags.
  repository-OneHasTags :
      (s : DockerRegistryService) (r : String) (rs : List String) (st : S world) {st' : S world}
      {errs : List (Option (RegistryError E))}
      → ((results : List (Option (RegistryError E)))
          → Run (started results) [] (all_finished results) (world.left_by_goroutines results))
      → repository world s (r ∷ rs) st ≡ (st', ok errs)
      → present errs ≡ []
      → OneHasTags s (r ∷ rs) st
  unfolding repository
  repository-OneHasTags s r rs st race h clean =
      let (results, t, ran, left) =
        go_on-eq_ok (λ errs. returned (ok (world.left_by_goroutines errs)))
          (results_of world s (r ∷ rs) st) h in
      let (e, more, shape) = results_of-some s r rs st ran in
      elim (results_of-cases s (r ∷ rs) st ran) [
        | inl tags ↦ tags
        | inr errors ↦ absurd (error_kept results shape errors (race results) (ground arith))
      ]

  named_right :
      (r : DockerRegistryAccount) {t t' : S world} {u : Unit {0}}
      → returned (check_name world r) t ≡ (t', ok u)
      → matches_name r.name ≡ true
  named_right r h = ground arith

  one_password :
      (r : DockerRegistryAccount) {t t' : S world} {u : Unit {0}}
      → returned (check_name world r) t ≡ (t', ok u)
      → more_than_one r ≡ false
  one_password r h = ground arith

  both_or_none :
      (r : DockerRegistryAccount) (password : String) {t t' : S world} {u : Unit {0}}
      → returned (check_both world r password) t ≡ (t', ok u)
      → is_empty password ≡ is_empty r.username
  both_or_none r password h = ground arith

  -- The checks of an account that lead to a service.
  check_account-ok :
      (cfg : SpinnakerConfig) (r : DockerRegistryAccount) (st : S world) {st' : S world}
      {s : DockerRegistryService}
      → check_account world cfg r st ≡ (st', ok s)
      → (matches_name r.name ≡ true)
        × (more_than_one r ≡ false)
        × (password : String) × (s ≡ service_of world r password)
        × (is_empty password ≡ is_empty r.username)
  unfolding check_account
  check_account-ok cfg r st h =
      let (u, t, named, h1) =
        go_on-eq_ok (after_name world cfg r) (returned (check_name world r) st) h in
      let (password, t1, resolved, h2) =
        go_on-eq_ok (after_password world r) (resolve_password world cfg r t) h1 in
      let (u2, t2, both, h3) =
        go_on-eq_ok (after_both world r password) (returned (check_both world r password) t1) h2 in
      let (u3, t3, based, h4) =
        go_on-eq_ok (λ v. returned (ok (service_of world r password)))
          (check_base world r password t2) h3 in
      (
        named_right r named,
        one_password r named,
        password,
        ground arith,
        both_or_none r password both,
      )

  no_errors-ok :
      (errs : List (RegistryError E)) {t t' : S world} {u : Unit {0}}
      → returned (no_errors world errs) t ≡ (t', ok u)
      → errs ≡ []
  no_errors-ok [] h = refl
  no_errors-ok (e ∷ es) h = ground arith

  -- A registry is accepted only if its name has the required form, at most one way to give a password
  -- is set, the password that was found is empty exactly when the username is, and, where
  -- repositories are set, one of them at least, asked as that user after those checks, was answered
  -- with a tag. The goroutines of the repositories read and write their slice in any order that a run of
  -- them allows; that every repository has tags does not follow, since errors can be lost.
  pub validate_registry-accepted :
      (cfg : SpinnakerConfig) (r : DockerRegistryAccount) (st : S world) {st' : S world}
      → ((results : List (Option (RegistryError E)))
          → Run (started results) [] (all_finished results) (world.left_by_goroutines results))
      → validate_registry world cfg r st ≡ (st', ok tt)
      → (matches_name r.name ≡ true)
        × (more_than_one r ≡ false)
        × (password : String) × (is_empty password ≡ is_empty r.username)
        × (st1 : S world) × (check_account world cfg r st ≡ (st1, ok (service_of world r password)))
        × ((r.repositories ≡ []) ⊎ OneHasTags (service_of world r password) r.repositories st1)
  unfolding validate_registry
  validate_registry-accepted cfg r st race h =
      let (s, st1, first, h1) =
        go_on-eq_ok (after_account world r) (wrapped (λ e. e ∷ []) (check_account world cfg r) st)
          h in
      let (errs, t, asked, h2) =
        go_on-eq_ok (λ errs. returned (no_errors world (present errs)))
          (repository world s r.repositories st1) h1 in
      let checked = mapped-eq_ok (λ e. e ∷ []) (check_account world cfg r st) first in
      let (named, single, password, same, both) = check_account-ok cfg r st checked in
      let tags = at s st1 r.repositories asked (no_errors-ok (present errs) h2) in
      (
        named,
        single,
        password,
        both,
        st1,
        rw (← same) checked,
        subst (λ s. (r.repositories ≡ []) ⊎ OneHasTags s r.repositories st1) same tags,
      )
    where
      at :
          (s : DockerRegistryService) (st1 : S world) (rs : List String) {t : S world}
          {errs : List (Option (RegistryError E))}
          → repository world s rs st1 ≡ (t, ok errs)
          → present errs ≡ []
          → (rs ≡ []) ⊎ OneHasTags s rs st1
      at s st1 [] asked clean = inl refl
      at s st1 (x ∷ xs) asked clean = inr (repository-OneHasTags s x xs st1 race asked clean)
