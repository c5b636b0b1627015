-- ===== src/Validate/Docker/Service.antt =====
-- pkg/validate/docker_service.go: the calls of a Docker registry, with its token authentication.
pub mod Answered
use spinnaker_operator.Base.{
  ℕ, suc, String, Bool, true, ◌||◌, not, ◌&&◌, Option, none, some, List, [], ◌∷◌, ◌++◌, ◌=ₛ◌, ◌==◌,
  if◌then◌else◌,
}
use spinnaker_operator.Base.Dict.{Dict, lookup}
use spinnaker_operator.Base.Text.{append, is_empty}
use spinnaker_operator.Base.Result.{Result, ok, err, panic}
use spinnaker_operator.Base.Io.{Io, ◌>>=◌, returned, wrapped}
use spinnaker_operator.Inspect.Value.{Value, nil, slice, Items, end, item, Fields, get_field}
use spinnaker_operator.Inspect.Json.{Json, convert_json}
use spinnaker_operator.Http.{
  Web, Request, Response, HttpError, get, request, execute, parse_response_body,
}
use spinnaker_operator.Validate.Docker.Challenge.{parse_bearer_authenticate_header}

pub record DockerRegistryService : Type 0 where
  pub address : String
  pub username : String
  pub password : String

pub data ServiceError (E : Type 0) : Type 0 where
  http : HttpError E → ServiceError E
  making_request building_request parsing_response : String → HttpError E → ServiceError E
  bad_json : E → ServiceError E
  bad_token_json : String → E → ServiceError E
  no_challenge registry_error : String → ℕ → String → ServiceError E
  bad_status : String → ℕ → ServiceError E
  not_authenticated : String → ℕ → ServiceError E

-- A missing key of a map of texts reads as the empty text.
abbrev pub text_at : String → Dict String → String
text_at key m = elim (lookup key m) [ none ↦ String.[] | some v ↦ v ]

-- A missing key of a map of values reads as nil.
abbrev pub value_at : String → Fields → Value
value_at key fs = elim (get_field key fs) [ none ↦ nil | some v ↦ v ]

abbrev pub count_items : Items → ℕ
count_items end = 0
count_items (item v xs) = suc (count_items xs)

-- A parameter that is empty is left out of the request.
abbrev param : String → Dict String → Dict String
param key details = if is_empty (text_at key details) then [] else (key, text_at key details) ∷ []

abbrev pub sent_headers : Dict String
sent_headers =
    ("Docker-Distribution-API-Version", "registry/2.0") ∷ ("User-Agent", "Spinnaker-Operator") ∷ []

module _ {W E : Type 0} (web : Web W E) (json : Json E) (encode_base64 : String → String) where
  abbrev basic_auth : String → String → String
  basic_auth username password = encode_base64 (append username (append ":" password))

  abbrev with_basic_auth : DockerRegistryService → Request → Request
  with_basic_auth s req =
      if not (is_empty s.username) && not (is_empty s.password)
      then record req { basic = some (s.username, s.password) }
      else req

  abbrev lift : {F A : Type 0} → (F → ServiceError E) → Result F A → Io W (ServiceError E) A
  lift f r = wrapped f (returned r)

  abbrev token_of : DockerRegistryService → String → Response E → Io W (ServiceError E) String
  token_of s realm resp =
      if resp.status_code == 200
      then (do
        b ← lift (parsing_response realm) (parse_response_body resp)
        body ← lift (bad_token_json realm) (convert_json json b)
        returned (ok (json.sprint (value_at "token" body))))
      else returned (err (not_authenticated s.address resp.status_code))

  -- For the scheme Basic the token is made of the credentials, and no request is sent.
  unfoldable pub request_token : DockerRegistryService → Dict String → Io W (ServiceError E) String
  unfolding request execute parse_response_body convert_json
  request_token s details =
      let realm = text_at "realm" details in
      do
        req ←
            lift (building_request realm)
              (request web get realm (param "service" details ++ param "scope" details) [])
        let with_token : Io W (ServiceError E) String =
            wrapped (making_request realm) (execute web (with_basic_auth s req))
            >>= token_of s realm
        if text_at "auth" details =ₛ "Basic"
            then returned (ok (basic_auth s.username s.password))
            else with_token

  abbrev checked :
      DockerRegistryService → String → Response E → Result (ServiceError E) (Response E)
  checked s url resp =
      if resp.status_code == 200
      then ok resp
      else err (registry_error s.address resp.status_code url)

  abbrev authorized : String → String → Request → Request
  authorized auth token req = record req {
    headers = req.headers ++ ("Authorization", append auth (append " " token)) ∷ [];
  }

  abbrev after_token :
      DockerRegistryService
      → String
      → Request
      → Dict String
      → String
      → Io W (ServiceError E) (Response E)
  after_token s url req details token =
      wrapped http (execute web (authorized (text_at "auth" details) token req)) >>= λ resp.
      returned (checked s url resp)

  abbrev after_challenge :
      DockerRegistryService → String → Request → Dict String → Io W (ServiceError E) (Response E)
  after_challenge s url req details = request_token s details >>= after_token s url req details

  -- The request is sent again with the token that the challenge leads to.
  abbrev challenged :
      DockerRegistryService
      → String
      → Request
      → ℕ
      → List String
      → Io W (ServiceError E) (Response E)
  challenged s url req code [] = returned (err (no_challenge s.address code url))
  challenged s url req code (b ∷ bs) =
      returned (parse_bearer_authenticate_header (b ∷ bs)) >>= after_challenge s url req

  abbrev answered :
      DockerRegistryService → String → Request → Response E → Io W (ServiceError E) (Response E)
  answered s url req resp =
      if resp.status_code == 200
      then returned (ok resp)
      else if resp.status_code == 401 || resp.status_code == 400
      then challenged s url req resp.status_code
          (elim (lookup "Www-Authenticate" resp.headers) [ none ↦ [] | some hs ↦ hs ])
      else returned (err (bad_status url resp.status_code))

  abbrev after_request :
      DockerRegistryService → String → Request → Io W (ServiceError E) (Response E)
  after_request s url req = wrapped (making_request url) (execute web req) >>= answered s url req

  unfoldable pub client :
      DockerRegistryService → String → Dict String → Io W (ServiceError E) (Response E)
  unfolding request execute request_token parse_bearer_authenticate_header
  client s path params =
      lift http (request web get (append s.address path) params sent_headers)
      >>= after_request s (append s.address path)

  unfoldable pub get_base : DockerRegistryService → Io W (ServiceError E) Bool
  unfolding client
  get_base s = do resp ← client s "/v2/" []; returned (ok true)

  -- A body whose `tags` is no slice panics.
  abbrev count_tags : Value → Result (ServiceError E) ℕ
  count_tags (slice xs) = ok (count_items xs)
  count_tags _ = panic

  unfoldable pub get_tags_count : DockerRegistryService → String → Io W (ServiceError E) ℕ
  unfolding client parse_response_body convert_json
  get_tags_count s image = do
    resp ← client s (append "/v2/" (append image "/tags/list")) (("n", "1") ∷ [])
    b ← lift http (parse_response_body resp)
    body ← lift bad_json (convert_json json b)
    returned (count_tags (value_at "tags" body))
