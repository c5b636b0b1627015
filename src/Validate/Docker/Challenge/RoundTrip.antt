-- ===== src/Validate/Docker/Challenge/RoundTrip.antt =====
-- pkg/validate/docker_service.go: challenges that `parseBearerAuthenticateHeader` reads back, and
-- challenges at which it panics.
use spinnaker_operator.Base.{
  ℕ, String, Bool, true, false, ◌≡◌, refl, ◌≢◌, ◌&&◌, inl, inr, ◌∙◌, Bool-cases, List, [], ◌∷◌,
  ◌=ₛ◌, =ₛ→≡, arith,
}
use spinnaker_operator.Base.Dict.{Dict, insert}
use spinnaker_operator.Base.Text.{
  split, append, lacks, lacks-append, append-append, split_of_lacks, split-append,
}
use spinnaker_operator.Base.Result.{ok, panic}
use spinnaker_operator.Validate.Docker.Challenge.{
  without, is_scheme, parameters, words, headers, parse_bearer_authenticate_header,
}

-- A text without a space, a comma, an equals sign or a quote.
abbrev pub plain : String → Bool
plain s = (lacks 32 s && lacks b',' s) && (lacks b'=' s && lacks b'"' s)

-- `key="value"`
abbrev pub assigned : String × String → String
assigned (k, v) = append k (append "=\"" (append v "\""))

abbrev pub joined : String → List (String × String) → String
joined sep [] = String.[]
joined sep (p ∷ []) = assigned p
joined sep (p ∷ q ∷ ps) = append (assigned p) (append sep (joined sep (q ∷ ps)))

abbrev pub challenge : String → String → List (String × String) → String
challenge auth sep ps = append auth (append " " (joined sep ps))

abbrev pub ArePlain : List (String × String) → Type 0
ArePlain [] = Unit
ArePlain ((k, v) ∷ ps) = (plain k ≡ true) × (plain v ≡ true) × ArePlain ps

abbrev pub insert_all : List (String × String) → Dict String → Dict String
insert_all [] out = out
insert_all ((k, v) ∷ ps) out = insert_all ps (insert k v out)

unquoted : (v : String) → lacks b'"' v ≡ true → without b'"' (append v "\"") ≡ v
unfolding without append lacks
unquoted String.[] h = refl
unquoted (String.◌∷◌ d s) h = ground (arith, unquoted s)

assigned-lacks :
    (c : ℕ) (p : String × String)
    → lacks c p.0 ≡ true
    → lacks c p.1 ≡ true
    → lacks c "=\"" ≡ true
    → lacks c "\"" ≡ true
    → lacks c (assigned p) ≡ true
assigned-lacks c (k, v) hk hv eq quote = rw (
  lacks-append c k (append "=\"" (append v "\"")),
  lacks-append c "=\"" (append v "\""),
  lacks-append c v "\"",
  hk,
  hv,
  eq,
  quote,
)

split-assigned :
    (k v : String)
    → plain k ≡ true
    → plain v ≡ true
    → split b'=' (assigned (k, v)) ≡ k ∷ append "\"" (append v "\"") ∷ []
unfolding append lacks
split-assigned k v hk hv = rw (
  split-append b'=' k "=" (append "\"" (append v "\"")) (ground arith) refl,
  split_of_lacks b'=' (append "\"" (append v "\"")) (rw (lacks-append b'=' v "\"") (ground arith)),
)

plain-lacks_comma : (s : String) → plain s ≡ true → lacks b',' s ≡ true
plain-lacks_comma s h = ground arith

plain-lacks_space : (s : String) → plain s ≡ true → lacks 32 s ≡ true
plain-lacks_space s h = ground arith

assigned-one_part :
    (k v : String) → plain k ≡ true → plain v ≡ true → lacks b',' (assigned (k, v)) ≡ true
unfolding lacks
assigned-one_part k v hk hv =
    assigned-lacks b',' (k, v) (plain-lacks_comma k hk) (plain-lacks_comma v hv) refl refl

joined-one_word : (ps : List (String × String)) → ArePlain ps → lacks 32 (joined "," ps) ≡ true
unfolding lacks append
joined-one_word [] h = refl
joined-one_word ((k, v) ∷ []) h =
    assigned-lacks 32 (k, v) (plain-lacks_space k h.0) (plain-lacks_space v h.1) refl refl
joined-one_word ((k, v) ∷ q ∷ ps) h = rw (
  lacks-append 32 (assigned (k, v)) (append "," (joined "," (q ∷ ps))),
  assigned-lacks 32 (k, v) (plain-lacks_space k h.0) (plain-lacks_space v h.1) refl refl,
  joined-one_word (q ∷ ps) h.2,
)

assigned-has_equals : (k v rest : String) → lacks b'=' (append (assigned (k, v)) rest) ≡ false
unfolding lacks append
assigned-has_equals k v rest =
    rw
      (lacks-append b'=' (assigned (k, v)) rest, lacks-append b'=' k (append "=\"" (append v "\"")))
      (ground arith)

is_scheme-lacks : (s : String) → is_scheme s ≡ true → lacks b'=' s ≡ true
unfolding lacks
is_scheme-lacks s h = elim (Bool-cases (s =ₛ "Bearer")) [
  | inl e ↦ rw (=ₛ→≡ s "Bearer" e) refl
  | inr n ↦ rw (=ₛ→≡ s "Basic" (ground (arith, n))) refl
]

and_false : (b : Bool) → (b && false) ≡ false
and_false b = ground arith

joined-has_equals :
    (sep : String) (p : String × String) (ps : List (String × String))
    → lacks b'=' (joined sep (p ∷ ps)) ≡ false
unfolding lacks append
joined-has_equals sep (k, v) [] =
    rw (lacks-append b'=' k (append "=\"" (append v "\""))) (and_false (lacks b'=' k))
joined-has_equals sep (k, v) (q ∷ ps) = assigned-has_equals k v (append sep (joined sep (q ∷ ps)))

has_equals-no_scheme : (s : String) → lacks b'=' s ≡ false → is_scheme s ≡ false
has_equals-no_scheme s h = elim (Bool-cases (is_scheme s)) [
  | inl e ↦ absurd (let g = is_scheme-lacks s e in cc)
  | inr n ↦ n
]

scheme-one_word : (auth : String) → is_scheme auth ≡ true → lacks 32 auth ≡ true
unfolding lacks
scheme-one_word auth h = elim (Bool-cases (auth =ₛ "Bearer")) [
  | inl e ↦ rw (=ₛ→≡ auth "Bearer" e) refl
  | inr n ↦ rw (=ₛ→≡ auth "Basic" (ground (arith, n))) refl
]

-- What stands before the first space of such a challenge ends in a comma.
first_word :
    (k v rest : String)
    → plain k ≡ true
    → plain v ≡ true
    → split 32 (append (assigned (k, v)) (append ", " rest))
      ≡ append (assigned (k, v)) "," ∷ split 32 rest
unfolding append lacks
first_word k v rest hk hv = rw (
  ← append-append (assigned (k, v)) "," (append " " rest),
  split-append 32 (append (assigned (k, v)) ",") " " rest
      (rw
        (
          lacks-append 32 (assigned (k, v)) ",",
          assigned-lacks 32 (k, v) (plain-lacks_space k hk) (plain-lacks_space v hv) refl refl,
        )
        refl)
      refl,
)

module _ {E : Type 0} where
  parameters-assigned :
      (k v : String) (ps : List String) (out : Dict String)
      → plain k ≡ true
      → plain v ≡ true
      → parameters {E = E} (assigned (k, v) ∷ ps) out ≡ parameters ps (insert k v out)
  unfolding parameters append without
  parameters-assigned k v ps out hk hv =
      rw (split-assigned k v hk hv, unquoted v (ground arith)) refl

  parameters-joined :
      (ps : List (String × String)) (out : Dict String)
      → ArePlain ps
      → ps ≢ []
      → parameters {E = E} (split b',' (joined "," ps)) out ≡ ok (insert_all ps out)
  unfolding append parameters
  parameters-joined [] out h ne = absurd (ne refl)
  parameters-joined ((k, v) ∷ []) out h ne =
      rw (split_of_lacks b',' (assigned (k, v)) (assigned-one_part k v h.0 h.1))
        (parameters-assigned k v [] out h.0 h.1)
  parameters-joined ((k, v) ∷ q ∷ ps) out h ne =
      rw
        (split-append b',' (assigned (k, v)) "," (joined "," (q ∷ ps))
          (assigned-one_part k v h.0 h.1) refl)
        (parameters-assigned k v (split b',' (joined "," (q ∷ ps))) out h.0 h.1
          ∙ parameters-joined (q ∷ ps) (insert k v out) h.2 (λ e. cc))

  -- A challenge of the scheme Bearer or Basic with parameters `key="value"` between commas, whose
  -- keys and values have no space, comma, equals sign or quote in them, is read as the scheme under
  -- `auth` and each value under its key, a later one of a key over an earlier one.
  pub parse_bearer_authenticate_header-challenge :
      (auth : String) (p : String × String) (ps : List (String × String))
      → is_scheme auth ≡ true
      → ArePlain (p ∷ ps)
      → parse_bearer_authenticate_header {E = E} (challenge auth "," (p ∷ ps) ∷ [])
        ≡ ok (insert_all (p ∷ ps) (("auth", auth) ∷ []))
  unfolding parse_bearer_authenticate_header headers words append insert
  parse_bearer_authenticate_header-challenge auth p ps scheme h = rw (
    split-append 32 auth " " (joined "," (p ∷ ps)) (scheme-one_word auth scheme) refl,
    split_of_lacks 32 (joined "," (p ∷ ps)) (joined-one_word (p ∷ ps) h),
    scheme,
    has_equals-no_scheme (joined "," (p ∷ ps)) (joined-has_equals "," p ps),
    parameters-joined (p ∷ ps) (("auth", auth) ∷ []) h (λ e. cc),
  )

  last_parameter_empty :
      (k v : String) (out : Dict String)
      → plain k ≡ true
      → plain v ≡ true
      → parameters {E = E} (split b',' (append (assigned (k, v)) ",")) out ≡ panic
  unfolding parameters append split
  last_parameter_empty k v out hk hv =
      rw (split-append b',' (assigned (k, v)) "," String.[] (assigned-one_part k v hk hv) refl)
        (parameters-assigned k v (String.[] ∷ []) out hk hv)

  -- With a space after the comma, as RFC 7235 writes such a list, a challenge of two or more
  -- parameters makes the parser panic.
  parse_bearer_authenticate_header-spaced :
      (auth : String) (p q : String × String) (ps : List (String × String))
      → is_scheme auth ≡ true
      → ArePlain (p ∷ [])
      → parse_bearer_authenticate_header {E = E} (challenge auth ", " (p ∷ q ∷ ps) ∷ []) ≡ panic
  unfolding parse_bearer_authenticate_header headers words append insert parameters
  parse_bearer_authenticate_header-spaced auth (k, v) q ps scheme h = rw (
    split-append 32 auth " " (append (assigned (k, v)) (append ", " (joined ", " (q ∷ ps))))
        (scheme-one_word auth scheme) refl,
    first_word k v (joined ", " (q ∷ ps)) h.0 h.1,
    scheme,
    has_equals-no_scheme (append (assigned (k, v)) ",") (assigned-has_equals k v ","),
    last_parameter_empty k v (("auth", auth) ∷ []) h.0 h.1,
  )
