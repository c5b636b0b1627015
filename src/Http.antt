-- ===== src/Http.antt =====
-- pkg/util/http.go: requests over HTTP, and what they are answered.
use spinnaker_operator.Base.{ℕ, String, Option, none, some, List, ◌⊎◌, inl, inr}
use spinnaker_operator.Base.Dict.{Dict}
use spinnaker_operator.Base.Result.{Result, ok, err}
use spinnaker_operator.Base.Io.{Io}

pub data HttpMethod : Type 0 where
  get post put delete : HttpMethod

-- `params` are the parameters that `Request` adds to the query; `basic` is the user and the password
-- of `SetBasicAuth`.
pub record Request : Type 0 where
  pub method : HttpMethod
  pub url : String
  pub params : Dict String
  pub headers : Dict String
  pub basic : Option (String × String)

-- `body` is what reading the whole body gives.
pub record Response (E : Type 0) : Type 0 where
  pub status_code : ℕ
  pub headers : Dict (List String)
  pub body : E ⊎ String

-- net/http: the error of `http.NewRequest`, and `Client.Do` in a world that each request may change.
pub record Web (W E : Type 0) : Type 0 where
  pub new_request : HttpMethod → String → Option E
  pub do_request : Request → W → W × (E ⊎ Response E)

pub data HttpError (E : Type 0) : Type 0 where
  building sending : String → E → HttpError E
  reading : E → HttpError E

module _ {E : Type 0} where
  unfoldable pub request :
      {W : Type 0}
      → Web W E
      → HttpMethod
      → String
      → Dict String
      → Dict String
      → Result (HttpError E) Request
  request web method url params headers = elim (web.new_request method url) [
    | some e ↦ err (building url e)
    | none ↦
        ok (record { method = method; url = url; params = params; headers = headers; basic = none })
  ]

  abbrev sent :
      {W : Type 0} → Request → W × (E ⊎ Response E) → W × Result (HttpError E) (Response E)
  sent req (w, inl e) = (w, err (sending req.url e))
  sent req (w, inr resp) = (w, ok resp)

  unfoldable pub execute : {W : Type 0} → Web W E → Request → Io W (HttpError E) (Response E)
  execute web req w = sent req (web.do_request req w)

  unfoldable pub parse_response_body : Response E → Result (HttpError E) String
  parse_response_body resp = elim resp.body [ inl e ↦ err (reading e) | inr b ↦ ok b ]
