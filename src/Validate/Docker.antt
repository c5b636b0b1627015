-- ===== src/Validate/Docker.antt =====
-- pkg/validate/docker_validator.go: the validation of the accounts of Docker registries.
pub mod Challenge
pub mod Service
pub mod Repositories
pub mod Accepted
use spinnaker_operator.Base.{
  ℕ, String, Bool, true, false, ◌||◌, not, ◌&&◌, ◌⊎◌, inl, inr, Option, none, some, List, [], ◌∷◌,
  ◌++◌, ◌=ₛ◌, ◌==◌, leb, if◌then◌else◌,
}
use Prim.Native.Char.{code}
use spinnaker_operator.Base.Dict.{Dict, lookup}
use spinnaker_operator.Base.Text.{append, is_empty, has_prefix, lower_is}
use spinnaker_operator.Base.Result.{Result, ok, err, panic}
use spinnaker_operator.Base.Io.{Io, ◌>>=◌, returned, wrapped}
use spinnaker_operator.Inspect.Value.{Value, Fields}
use spinnaker_operator.Inspect.Json.{Json}
use spinnaker_operator.Http.{Web}
use spinnaker_operator.Secrets.Context.{SecretContext}
use spinnaker_operator.Secrets.Decode.{Engines, DecodeError, Decoded, decode, decode_as_file}
use spinnaker_operator.Config.{
  SpinnakerConfig, get_file_content, get_hal_config_prop_bool, get_hal_config_object_array,
}
use spinnaker_operator.Api.Types.{SpinnakerService, SpinnakerValidation, ValidationSetting}
use spinnaker_operator.Api.Hash.{get_validation_settings}
use spinnaker_operator.Validate.Outcome.{ValidationResult, no_result, new_result_from_errors}
use spinnaker_operator.Validate.Docker.Service.{
  DockerRegistryService, ServiceError, get_base, get_tags_count,
}

-- The fields that the validator reads.
pub record DockerRegistryAccount : Type 0 where
  pub name : String
  pub address : String
  pub username : String
  pub password : String
  pub password_command : String
  pub password_file : String
  pub repositories : List String

unfoldable pub get_address : DockerRegistryAccount → String
unfolding has_prefix append
get_address d =
    if has_prefix "https://" d.address || has_prefix "http://" d.address
    then d.address
    else append "https://" d.address

abbrev is_alnum : ℕ → Bool
is_alnum c = (leb b'a' c && leb c b'z') || (leb b'0' c && leb c b'9')

-- `^[a-z0-9]+([-a-z0-9]*[a-z0-9])?$`, as an automaton: the flag tells that the last character was
-- no dash, and that there was one.
unfoldable pub matches_name_from : Bool → Bool → String → Bool
matches_name_from started alnum String.[] = alnum
matches_name_from started alnum (String.◌∷◌ c s) =
    let go = matches_name_from true true s in
    let dash = matches_name_from true false s in
    if is_alnum (code c) then go else if code c == b'-' && started then dash else false

unfoldable pub matches_name : String → Bool
unfolding matches_name_from
matches_name s = matches_name_from false false s

pub data RegistryError (E : Type 0) : Type 0 where
  missing_name : String → RegistryError E
  bad_name more_than_one_password : String → RegistryError E
  cannot_load : String → String → RegistryError E
  empty_file command_failed empty_output : String → RegistryError E
  no_username no_password : String → RegistryError E
  trailing_newline bad_credentials : String → RegistryError E
  service_error : ServiceError E → RegistryError E
  no_tags : String → RegistryError E
  cannot_decode : E → RegistryError E

-- What the validator calls: the registry over HTTP, a shell, the file system, and libraries.
pub record World (W E : Type 0) : Type 0 where
  pub web : Web W E
  pub json : Json E
  pub encode_base64 : String → String
  pub decode_base64 : String → Option String
  pub engines : Engines E
  pub bash : String → W → W × (E ⊎ String)
  pub exists : String → Bool
  pub read_file : String → E ⊎ String
  pub is_abs : String → Bool
  pub ends_in_space : String → Bool
  pub trim_newlines : String → String
  pub decode_registry : Fields → E ⊎ DockerRegistryAccount
  -- What the slice that the goroutines of `repository` share holds when all have ended, from the results
  -- that they append, by the order in which they happen to read and write it.
  pub left_by_goroutines : List (Option (RegistryError E)) → List (Option (RegistryError E))

-- At most one of the three ways to give a password.
abbrev pub more_than_one : DockerRegistryAccount → Bool
more_than_one r =
    (not (is_empty r.password) && not (is_empty r.password_file))
    || ((not (is_empty r.password_command) && not (is_empty r.password))
        || (not (is_empty r.password_command) && not (is_empty r.password_file)))

-- The errors that are not nil.
abbrev pub present : {A : Type 0} → List (Option A) → List A
present [] = []
present (none ∷ es) = present es
present (some e ∷ es) = e ∷ present es

module _ {W E : Type 0} (world : World W E) where
  -- The context of secrets, and the world.
  abbrev pub S : Type 0
  S = Option SecretContext × W

  abbrev of_read : String → String → E ⊎ String → Result (RegistryError E) String
  of_read name file (inl e) = err (cannot_load name file)
  of_read name file (inr s) = ok s

  abbrev decoded_file :
      W
      → String
      → String
      → Option SecretContext × String × Option (DecodeError E)
      → S × Result (RegistryError E) String
  decoded_file w name file (ctx, p, some e) = ((ctx, w), err (cannot_load name file))
  decoded_file w name file (ctx, p, none) = ((ctx, w), of_read name file (world.read_file p))

  unfoldable pub load_password_from_file :
      SpinnakerConfig → String → String → Io S (RegistryError E) String
  unfolding decode_as_file get_file_content
  load_password_from_file cfg name file (ctx, w) =
      if world.engines.is_encrypted_secret file
      then decoded_file w name file (decode_as_file world.engines world.exists ctx file)
      else if world.is_abs file
      then ((ctx, w), of_read name file (world.read_file file))
      else ((ctx, w), ok (get_file_content world.decode_base64 cfg file))

  abbrev unless_empty : RegistryError E → String → Result (RegistryError E) String
  unless_empty e s = if is_empty s then err e else ok s

  -- An error of the decoding leaves the password empty.
  abbrev decoded_password :
      W → Option SecretContext × Decoded E → S × Result (RegistryError E) String
  decoded_password w (ctx, (s, f, none)) = ((ctx, w), ok s)
  decoded_password w (ctx, (s, f, some e)) = ((ctx, w), ok String.[])

  abbrev output :
      DockerRegistryAccount
      → Option SecretContext
      → W × (E ⊎ String)
      → S × Result (RegistryError E) String
  output r ctx (w, inl e) = ((ctx, w), err (command_failed r.name))
  output r ctx (w, inr out) =
      ((ctx, w), unless_empty (empty_output r.name) (world.trim_newlines out))

  unfoldable pub resolve_password :
      SpinnakerConfig → DockerRegistryAccount → Io S (RegistryError E) String
  unfolding decode load_password_from_file
  resolve_password cfg r (ctx, w) =
      if not (is_empty r.password)
      then decoded_password w (decode world.engines ctx r.password)
      else if not (is_empty r.password_file)
      then (load_password_from_file cfg r.name r.password_file >>= λ s.
            returned (unless_empty (empty_file r.name) s))
          (ctx, w)
      else if not (is_empty r.password_command)
      then output r ctx (world.bash r.password_command w)
      else ((ctx, w), ok String.[])

  abbrev beside :
      {A : Type 0}
      → Option SecretContext
      → W × Result (ServiceError E) A
      → S × Result (RegistryError E) A
  beside ctx (w, ok a) = ((ctx, w), ok a)
  beside ctx (w, err e) = ((ctx, w), err (service_error e))
  beside ctx (w, panic) = ((ctx, w), panic)

  abbrev in_world : {A : Type 0} → Io W (ServiceError E) A → Io S (RegistryError E) A
  in_world m (ctx, w) = beside ctx (m w)

  abbrev pub service_of : DockerRegistryAccount → String → DockerRegistryService
  service_of r password = record {
    address = get_address r;
    username = r.username;
    password = password;
  }

  -- `GetBase` is false only beside an error; the code reads a false without one all the same.
  abbrev base_checked : DockerRegistryAccount → String → Bool → Result (RegistryError E) (Unit {0})
  base_checked r password true = ok tt
  base_checked r password false =
      if not (is_empty password) && world.ends_in_space password
      then err (trailing_newline r.name)
      else err (bad_credentials r.name)

  abbrev check_base : DockerRegistryAccount → String → Io S (RegistryError E) (Unit {0})
  check_base r password =
      if not (is_empty r.username) && not (is_empty password)
      then (in_world (get_base world.web world.json world.encode_base64 (service_of r password))
          >>= λ good. returned (base_checked r password good))
      else returned (ok tt)

  abbrev check_both : DockerRegistryAccount → String → Result (RegistryError E) (Unit {0})
  check_both r password =
      if not (is_empty password) && is_empty r.username
      then err (no_username r.name)
      else if is_empty password && not (is_empty r.username)
      then err (no_password r.name)
      else ok tt

  abbrev check_name : DockerRegistryAccount → Result (RegistryError E) (Unit {0})
  check_name r =
      if is_empty r.name
      then err (missing_name r.address)
      else if not (matches_name r.name)
      then err (bad_name r.name)
      else if more_than_one r
      then err (more_than_one_password r.name)
      else ok tt

  abbrev after_both :
      DockerRegistryAccount → String → Unit {0} → Io S (RegistryError E) DockerRegistryService
  after_both r password u = check_base r password >>= λ v. returned (ok (service_of r password))

  abbrev after_password :
      DockerRegistryAccount → String → Io S (RegistryError E) DockerRegistryService
  after_password r password = returned (check_both r password) >>= after_both r password

  abbrev after_name :
      SpinnakerConfig
      → DockerRegistryAccount
      → Unit {0}
      → Io S (RegistryError E) DockerRegistryService
  after_name cfg r u = resolve_password cfg r >>= after_password r

  -- All the checks but that of the repositories; the service has the password that was found.
  unfoldable pub check_account :
      SpinnakerConfig → DockerRegistryAccount → Io S (RegistryError E) DockerRegistryService
  unfolding matches_name resolve_password get_base get_address
  check_account cfg r = returned (check_name r) >>= after_name cfg r

  abbrev enough_tags : String → ℕ → Result (RegistryError E) (Unit {0})
  enough_tags repository n = if n == 0 then err (no_tags repository) else ok tt

  unfoldable pub image_tags : DockerRegistryService → String → Io S (RegistryError E) (Unit {0})
  unfolding get_tags_count
  image_tags s repository =
      in_world (get_tags_count world.web world.json world.encode_base64 s repository) >>= λ n.
      returned (enough_tags repository n)

  abbrev nil_or : {A : Type 0} → Result (RegistryError E) A → Option (RegistryError E)
  nil_or (err e) = some e
  nil_or r = none

  abbrev collected :
      S × Result (RegistryError E) (Unit {0})
      → (S → S × Result (List (RegistryError E)) (List (Option (RegistryError E))))
      → S × Result (List (RegistryError E)) (List (Option (RegistryError E)))
  collected (s, panic) rest = (s, panic)
  collected (s, ok u) rest = (rest >>= λ errs. returned (ok (none ∷ errs))) s
  collected (s, err e) rest = (rest >>= λ errs. returned (ok (some e ∷ errs))) s

  -- The results of the goroutines. Their requests are made one after the other.
  unfoldable pub results_of :
      DockerRegistryService
      → List String
      → Io S (List (RegistryError E)) (List (Option (RegistryError E)))
  unfolding image_tags
  results_of s [] st = (st, ok [])
  results_of s (r ∷ rs) st = collected (image_tags s r st) (results_of s rs)

  unfoldable pub repository :
      DockerRegistryService
      → List String
      → Io S (List (RegistryError E)) (List (Option (RegistryError E)))
  unfolding results_of
  repository s rs = results_of s rs >>= λ errs. returned (ok (world.left_by_goroutines errs))

  abbrev no_errors : List (RegistryError E) → Result (List (RegistryError E)) (Unit {0})
  no_errors [] = ok tt
  no_errors (e ∷ es) = err (e ∷ es)

  abbrev after_account :
      DockerRegistryAccount → DockerRegistryService → Io S (List (RegistryError E)) (Unit {0})
  after_account r s = repository s r.repositories >>= λ errs. returned (no_errors (present errs))

  -- An error stands for `false` with these errors.
  unfoldable pub validate_registry :
      SpinnakerConfig → DockerRegistryAccount → Io S (List (RegistryError E)) (Unit {0})
  unfolding check_account repository
  validate_registry cfg r = wrapped (λ e. e ∷ []) (check_account cfg r) >>= after_account r

  -- The first registry that is refused ends the loop.
  unfoldable pub validate_registries :
      SpinnakerConfig → List Fields → Io S (List (RegistryError E)) (Unit {0})
  unfolding validate_registry
  validate_registries cfg [] = returned (ok tt)
  validate_registries cfg (rm ∷ rms) = elim (world.decode_registry rm) [
    | inl e ↦ returned (err (cannot_decode e ∷ []))
    | inr registry ↦ validate_registry cfg registry >>= λ u. validate_registries cfg rms
  ]

  abbrev provider_setting : Dict ValidationSetting → Option ValidationSetting
  provider_setting [] = none
  provider_setting ((n, s) ∷ more) =
      let rest = provider_setting more in if lower_is n "docker" then some s else rest

  unfoldable pub validation_enabled : SpinnakerValidation → Bool
  unfolding get_validation_settings lower_is
  validation_enabled v = elim (provider_setting v.providers) [
    | some s ↦ s.enabled
    | none ↦ (get_validation_settings v).enabled
  ]

  abbrev outcome :
      {P : Type 0}
      → S × Result (List (RegistryError E)) (Unit {0})
      → S × Result (List (RegistryError E)) (ValidationResult (RegistryError E) P)
  outcome (s, ok u) = (s, ok no_result)
  outcome (s, err es) = (s, ok (new_result_from_errors es true))
  outcome (s, panic) = (s, panic)

  -- The path names no element of a slice, so the read does not panic.
  abbrev account_enabled : SpinnakerConfig → Bool
  account_enabled cfg =
      elim (get_hal_config_prop_bool cfg "providers.dockerRegistry.enabled" false) [
        | ok b ↦ b
        | _ ↦ false
      ]

  -- A validation never ends in an error of its own: what fails is in its result.
  unfoldable pub validate :
      {P : Type 0}
      → SpinnakerService
      → Io S (List (RegistryError E)) (ValidationResult (RegistryError E) P)
  unfolding validate_registries validation_enabled get_hal_config_object_array
  validate spin st =
      if validation_enabled spin.validation && account_enabled spin.spinnaker_config
      then elim (get_hal_config_object_array spin.spinnaker_config
          "providers.dockerRegistry.accounts") [
            | ok rms ↦ outcome (validate_registries spin.spinnaker_config rms st)
            | err e ↦ (st, ok no_result)
            | panic ↦ (st, panic)
          ]
      else (st, ok no_result)
