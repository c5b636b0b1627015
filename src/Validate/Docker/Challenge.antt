-- ===== src/Validate/Docker/Challenge.antt =====
-- pkg/validate/docker_service.go: the header in which a registry says how to authenticate
-- (`parseBearerAuthenticateHeader`).
pub mod RoundTrip
use spinnaker_operator.Base.{
  ℕ, String, Bool, true, false, ◌||◌, List, [], ◌∷◌, ◌=ₛ◌, ◌==◌, if◌then◌else◌,
}
use Prim.Native.Char.{code}
use spinnaker_operator.Base.Dict.{Dict, insert}
use spinnaker_operator.Base.Text.{split}
use spinnaker_operator.Base.Result.{Result, ok, err, panic, ◌>>=◌}

-- `strings.Replace(s, c, "", -1)` for one character.
unfoldable pub without : ℕ → String → String
without c String.[] = String.[]
without c (String.◌∷◌ d s) =
    let rest = without c s in if code d == c then rest else String.◌∷◌ d rest

abbrev pub is_scheme : String → Bool
is_scheme s = s =ₛ "Bearer" || s =ₛ "Basic"

module _ {E : Type 0} where
  -- The value is the text up to a second `=`; a part without one has no `fields[1]`.
  abbrev fields_of : Dict String → List String → Result E (Dict String)
  fields_of out (key ∷ val ∷ more) = ok (insert key (without b'"' val) out)
  fields_of out _ = panic

  unfoldable pub parameters : List String → Dict String → Result E (Dict String)
  unfolding without
  parameters [] out = ok out
  parameters (params ∷ ps) out = fields_of out (split b'=' params) >>= parameters ps

  unfoldable pub words : List String → Dict String → Result E (Dict String)
  unfolding parameters
  words [] out = ok out
  words (s ∷ ss) out =
      let scheme = words ss (insert "auth" s out) in
      let others = parameters (split b',' s) out >>= words ss in
      if is_scheme s then scheme else others

  unfoldable pub headers : List String → Dict String → Result E (Dict String)
  unfolding words
  headers [] out = ok out
  headers (b ∷ bs) out = words (split 32 b) out >>= headers bs

  unfoldable pub parse_bearer_authenticate_header : List String → Result E (Dict String)
  unfolding headers
  parse_bearer_authenticate_header bearer = headers bearer []
