-- ===== src/Tests/Docker.antt =====
-- The validation of Docker registries, at concrete inputs.
use spinnaker_operator.Base.{
  ℕ, suc, String, Bool, true, false, ◌≡◌, ◌≢◌, refl, ◌⊎◌, inl, inr, Option, none, some, List, [],
  ◌∷◌, ◌=ₛ◌, ◌==◌, if◌then◌else◌,
}
use spinnaker_operator.Base.Dict.{lookup, insert}
use spinnaker_operator.Base.Text.{append, is_empty}
use spinnaker_operator.Base.Result.{ok}
use spinnaker_operator.Inspect.Value.{Value, string, slice, end, item, Fields, empty, field}
use spinnaker_operator.Inspect.Json.{Json, convert_json}
use spinnaker_operator.Http.{Web, Request, Response, parse_response_body}
use spinnaker_operator.Validate.Docker.Challenge.{parse_bearer_authenticate_header}
use spinnaker_operator.Validate.Docker.Challenge.RoundTrip.{
  challenge, parse_bearer_authenticate_header-challenge,
}
use spinnaker_operator.Validate.Docker.Service.{DockerRegistryService, client}
use spinnaker_operator.Validate.Docker.Service.Answered.{client-ok, client-authenticated}
use spinnaker_operator.Validate.Docker.{
  DockerRegistryAccount, World, validate_registry, check_account, matches_name, more_than_one,
  service_of, present,
}
use spinnaker_operator.Validate.Docker.Accepted.{OneHasTags, validate_registry-accepted}
use spinnaker_operator.Validate.Docker.Repositories.{
  Run, here, next, read, write, other, holding, finished, started, all_finished, Run-in_order,
}
use spinnaker_operator.Validate.Docker.Repositories.Lost.{Run-errors_lost}
use spinnaker_operator.Validate.Docker.Repositories.Kept.{Run-error_kept}
use spinnaker_operator.Secrets.Context.{SecretContext}
use spinnaker_operator.Tests.Fixtures.{no_secrets, first_config}

abbrev realm : String × String
realm = ("realm", "https://auth")

abbrev service : String × String
service = ("service", "hub")

parse_bearer_authenticate_header-challenge_example :
    parse_bearer_authenticate_header {E = String}
      (challenge "Bearer" "," (realm ∷ service ∷ []) ∷ [])
    ≡ ok (insert "service" "hub" (insert "realm" "https://auth" (("auth", "Bearer") ∷ [])))
unfolding ◌=ₛ◌ spinnaker_operator.Base.Text.lacks
parse_bearer_authenticate_header-challenge_example =
    parse_bearer_authenticate_header-challenge {E = String} "Bearer" realm (service ∷ []) refl
      (refl, refl, (refl, refl, tt))

-- The world counts the requests: the first one is refused, the second one gets a token, and the others
-- get a list of tags.
abbrev refusal : Response String
refusal = record {
  status_code = 401;
  headers = ("Www-Authenticate", challenge "Bearer" "," (realm ∷ service ∷ []) ∷ []) ∷ [];
  body = inr "";
}

abbrev answer : String → Response String
answer body = record { status_code = 200; headers = []; body = inr body }

abbrev registry_web : Web ℕ String
registry_web = record {
  new_request = λ method url. none;
  do_request = λ req w.
      (suc w, inr (if w == 0 then refusal else if w == 1 then answer "token" else answer "tags"));
}

abbrev body_of : String → Fields
body_of b =
    if b =ₛ "token"
    then field "token" (string "t0") empty
    else field "tags" (slice (item (string "latest") end)) empty

abbrev registry_json : Json String
registry_json = record { unmarshal = λ b. inr (body_of b); sprint = λ v. "t0" }

abbrev hub : DockerRegistryService
hub = record { address = "https://hub"; username = "ann"; password = "pw" }

abbrev encode : String → String
encode s = s

client-authenticated_example :
    client registry_web registry_json encode hub "/v2/" [] 0 ≡ (3, ok (answer "tags"))
unfolding ◌=ₛ◌ lookup insert parse_response_body convert_json is_empty
    spinnaker_operator.Base.Text.lacks
client-authenticated_example =
    client-authenticated registry_web registry_json encode hub "/v2/" [] 0 1 2 3 realm
      (service ∷ []) refusal (answer "token") (answer "tags") "token"
      (field "token" (string "t0") empty) refl refl (refl, refl, (refl, refl, tt))
      (λ method url. refl) refl refl refl refl refl refl refl refl refl refl

answered_with_tags :
    client registry_web registry_json encode hub "/v2/" [] 5 ≡ (6, ok (answer "tags"))
unfolding client spinnaker_operator.Http.request spinnaker_operator.Http.execute
answered_with_tags = refl

client-ok_example : (answer "tags").status_code ≡ 200
client-ok_example = client-ok registry_web registry_json encode hub "/v2/" [] 5 answered_with_tags

abbrev registry : DockerRegistryAccount
registry = record {
  name = "hub";
  address = "https://hub";
  username = "ann";
  password = "pw";
  password_command = "";
  password_file = "";
  repositories = "library/nginx" ∷ [];
}

abbrev test_world : World ℕ String
test_world = record {
  web = registry_web;
  json = registry_json;
  encode_base64 = encode;
  decode_base64 = λ s. none;
  engines = no_secrets;
  bash = λ command w. (w, inl "no shell");
  exists = λ path. false;
  read_file = λ path. inl "no file";
  is_abs = λ path. false;
  ends_in_space = λ s. false;
  trim_newlines = λ s. s;
  decode_registry = λ fields. inr registry;
  left_by_goroutines = λ results. results;
}

-- Three requests for the base, and one for the tags.
registry_accepted :
    validate_registry test_world first_config registry (none, 0) ≡ ((none, 4), ok tt)
unfolding validate_registry is_empty lookup ◌=ₛ◌ spinnaker_operator.Base.Text.split insert
    spinnaker_operator.Inspect.Value.get_field
registry_accepted = refl

validate_registry-accepted_example :
    (matches_name "hub" ≡ true)
    × (more_than_one registry ≡ false)
    × (password : String) × (is_empty password ≡ is_empty "ann")
    × (st1 : Option SecretContext × ℕ) × (check_account test_world first_config registry (none, 0)
        ≡ (st1, ok (service_of test_world registry password)))
    × ((registry.repositories ≡ [])
        ⊎ OneHasTags test_world
            (service_of test_world registry password)
            ("library/nginx" ∷ [])
            st1)
validate_registry-accepted_example =
    validate_registry-accepted test_world first_config registry (none, 0)
      (λ results. Run-in_order results []) registry_accepted

Run-errors_lost_example :
    (errs : List (Option String)) × Run
      (started (some "no tags" ∷ none ∷ []))
      []
      (all_finished (some "no tags" ∷ none ∷ []))
      errs
    × (present errs ≡ [])
Run-errors_lost_example = Run-errors_lost (some "no tags" ∷ []) []

-- The second write takes the place of the first.
both_fail :
    Run {E = String}
      (started (some "no tags" ∷ some "no such image" ∷ []))
      []
      (all_finished (some "no tags" ∷ some "no such image" ∷ []))
      (some "no such image" ∷ [])
both_fail =
    next
      (next
        (next (next here (read (some "no tags") [] (started (some "no such image" ∷ []))))
          (other (holding [] (some "no tags")) (read (some "no such image") [] [])))
        (write (some "no tags") [] [] (some "no tags" ∷ []) (holding [] (some "no such image") ∷ [])
          refl))
      (other finished
        (write (some "no such image") [] (some "no tags" ∷ []) (some "no such image" ∷ []) [] refl))

Run-error_kept_example : present {A = String} (some "no such image" ∷ []) ≢ []
Run-error_kept_example =
    Run-error_kept (some "no tags") (some "no such image" ∷ []) (some "no such image" ∷ []) refl
      both_fail
