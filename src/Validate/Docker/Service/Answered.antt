-- ===== src/Validate/Docker/Service/Answered.antt =====
-- pkg/validate/docker_service.go: how a registry that is asked answers.
use spinnaker_operator.Base.{
  ℕ, String, false, ◌≡◌, refl, inr, none, some, List, [], ◌∷◌, ◌++◌, arith, ◌=ₛ◌,
}
use spinnaker_operator.Base.Dict.{Dict, lookup}
use spinnaker_operator.Base.Text.{append, is_empty}
use spinnaker_operator.Base.Result.{ok}
use spinnaker_operator.Base.Io.{returned, wrapped, go_on-eq_ok}
use spinnaker_operator.Inspect.Value.{Fields, get_field}
use spinnaker_operator.Inspect.Json.{Json, convert_json}
use spinnaker_operator.Http.{
  Web, Request, Response, HttpMethod, get, request, execute, parse_response_body,
}
use spinnaker_operator.Validate.Docker.Challenge.{parse_bearer_authenticate_header}
use spinnaker_operator.Validate.Docker.Challenge.RoundTrip.{
  ArePlain, insert_all, challenge, parse_bearer_authenticate_header-challenge,
}
use spinnaker_operator.Validate.Docker.Service.{
  DockerRegistryService, ServiceError, request_token, client, checked, after_token, after_challenge,
  challenged, answered, after_request, sent_headers, authorized, text_at, value_at, param,
}

module _ {W E : Type 0} (web : Web W E) (json : Json E) (encode_base64 : String → String) where
  checked-ok :
      (s : DockerRegistryService) (url : String) (r : Response E) {w w' : W} {resp : Response E}
      → returned (checked web json encode_base64 s url r) w ≡ (w', ok resp)
      → resp.status_code ≡ 200
  checked-ok s url r h = ground arith

  challenged-ok :
      (s : DockerRegistryService) (url : String) (req : Request) (code : ℕ) (bs : List String)
      (w : W) {w' : W} {resp : Response E}
      → challenged web json encode_base64 s url req code bs w ≡ (w', ok resp)
      → resp.status_code ≡ 200
  challenged-ok s url req code [] w h = ground arith
  challenged-ok s url req code (b ∷ bs) w h =
      let (details, w1, read, h1) =
        go_on-eq_ok (after_challenge web json encode_base64 s url req)
          (returned (parse_bearer_authenticate_header (b ∷ bs)) w) h in
      let (token, w2, requested, h2) =
        go_on-eq_ok (after_token web json encode_base64 s url req details)
          (request_token web json encode_base64 s details w1) h1 in
      let (r, w3, sent, h3) =
        go_on-eq_ok (λ r. returned (checked web json encode_base64 s url r))
          (wrapped ServiceError.http
            (execute web (authorized web json encode_base64 (text_at "auth" details) token req)) w2)
          h2 in
      checked-ok s url r h3

  answered-ok :
      (s : DockerRegistryService) (url : String) (req : Request) (r : Response E) (w : W) {w' : W}
      {resp : Response E}
      → answered web json encode_base64 s url req r w ≡ (w', ok resp)
      → resp.status_code ≡ 200
  answered-ok s url req r w h = ground (
    arith,
    challenged-ok s url req r.status_code
        (elim (lookup "Www-Authenticate" r.headers) [ none ↦ [] | some hs ↦ hs ]) w,
  )

  -- Whatever a call of a registry returns without an error was answered with the status 200, at once
  -- or after the authentication.
  pub client-ok :
      (s : DockerRegistryService) (path : String) (params : Dict String) (w : W) {w' : W}
      {resp : Response E}
      → client web json encode_base64 s path params w ≡ (w', ok resp)
      → resp.status_code ≡ 200
  unfolding client
  client-ok s path params w h =
      let url = append s.address path in
      let (req, w1, made, h1) =
        go_on-eq_ok (after_request web json encode_base64 s url)
          (wrapped ServiceError.http (returned (request web get url params sent_headers)) w) h in
      let (r, w2, sent, h2) =
        go_on-eq_ok (answered web json encode_base64 s url req)
          (wrapped (ServiceError.making_request url) (execute web req) w1) h1 in
      answered-ok s url req r w2 h2

  -- The request of a token, with the user and the password.
  abbrev pub token_request : DockerRegistryService → Dict String → Request
  token_request s details = record {
    method = get;
    url = text_at "realm" details;
    params = param "service" details ++ param "scope" details;
    headers = [];
    basic = some (s.username, s.password);
  }

  abbrev pub plain_request : DockerRegistryService → String → Dict String → Request
  plain_request s path params = record {
    method = get;
    url = append s.address path;
    params = params;
    headers = sent_headers;
    basic = none;
  }

  -- The first request with the token.
  abbrev pub token_sent_request : DockerRegistryService → String → Dict String → String → Request
  token_sent_request s path params token = record {
    method = get;
    url = append s.address path;
    params = params;
    headers = sent_headers ++ ("Authorization", append "Bearer " token) ∷ [];
    basic = none;
  }

  abbrev pub token_at : Fields → String
  token_at body = json.sprint (value_at "token" body)

  request-ok :
      (url : String) (params headers : Dict String)
      → web.new_request get url ≡ none
      → request web get url params headers
        ≡ ok (record { method = get; url = url; params = params; headers = headers; basic = none })
  unfolding request
  request-ok url params headers fit = ground arith

  execute-ok :
      (req : Request) (w : W) {w' : W} {r : Response E}
      → web.do_request req w ≡ (w', inr r)
      → execute web req w ≡ (w', ok r)
  unfolding execute
  execute-ok req w sent = ground arith

  request_token-ok :
      (s : DockerRegistryService) (details : Dict String) (w w' : W) (r : Response E) (b : String)
      (body : Fields)
      → is_empty s.username ≡ false
      → is_empty s.password ≡ false
      → text_at "auth" details ≡ "Bearer"
      → web.new_request get (text_at "realm" details) ≡ none
      → web.do_request (token_request s details) w ≡ (w', inr r)
      → r.status_code ≡ 200
      → parse_response_body r ≡ ok b
      → convert_json json b ≡ ok body
      → request_token web json encode_base64 s details w ≡ (w', ok (token_at body))
  unfolding request_token ◌=ₛ◌ get_field
  request_token-ok s details w w' r b body user pass bearer fit sent given read_body decoded = rw (
    request-ok (text_at "realm" details) (param "service" details ++ param "scope" details) [] fit,
    bearer,
    user,
    pass,
    execute-ok (token_request s details) w sent,
    given,
    read_body,
    decoded,
  )

  -- A user and a password are set. The registry refuses the first request with 401 and a Bearer
  -- challenge that is well written (see the round trip of challenges); the realm that it names answers the
  -- request for a token, for the service and the scope that it names, with the user and the password,
  -- with 200 and a token; and the first request, sent again with that token as its authorization, is
  -- answered with 200. Then that last response is returned.
  pub client-authenticated :
      (s : DockerRegistryService) (path : String) (params : Dict String) (w w1 w2 w3 : W)
      (p : String × String) (ps : List (String × String)) (first second last : Response E)
      (b : String) (body : Fields)
      → let details = insert_all (p ∷ ps) (("auth", "Bearer") ∷ []) in
        is_empty s.username ≡ false
        → is_empty s.password ≡ false
        → ArePlain (p ∷ ps)
        → ((method : HttpMethod) (url : String) → web.new_request method url ≡ none)
        → web.do_request (plain_request s path params) w ≡ (w1, inr first)
        → first.status_code ≡ 401
        → lookup "Www-Authenticate" first.headers ≡ some (challenge "Bearer" "," (p ∷ ps) ∷ [])
        → text_at "auth" details ≡ "Bearer"
        → web.do_request (token_request s details) w1 ≡ (w2, inr second)
        → second.status_code ≡ 200
        → parse_response_body second ≡ ok b
        → convert_json json b ≡ ok body
        → web.do_request (token_sent_request s path params (token_at body)) w2 ≡ (w3, inr last)
        → last.status_code ≡ 200
        → client web json encode_base64 s path params w ≡ (w3, ok last)
  unfolding client ◌=ₛ◌ append
  client-authenticated s path params w w1 w2 w3 p ps first second last b body user pass plain fit
        sent refused there bearer token_sent given read_body decoded sent_again good =
      rw (
        request-ok (append s.address path) params sent_headers (fit get (append s.address path)),
        execute-ok (plain_request s path params) w sent,
        refused,
        there,
        parse_bearer_authenticate_header-challenge {E = ServiceError E} "Bearer" p ps (refl) plain,
        request_token-ok s (insert_all (p ∷ ps) (("auth", "Bearer") ∷ [])) w1 w2 second b body user
            pass bearer (fit get (text_at "realm" (insert_all (p ∷ ps) (("auth", "Bearer") ∷ []))))
            token_sent given read_body decoded,
        bearer,
        execute-ok (token_sent_request s path params (token_at body)) w2 sent_again,
        good,
      )
