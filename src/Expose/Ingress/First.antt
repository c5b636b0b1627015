-- ===== src/Expose/Ingress/First.antt =====
-- pkg/deploy/spindeploy/expose_ingress/ingress.go: the search for a service in the ingresses, against the
-- list of all their backends.
use mathlib.Core.Path.{ap₂}
use spinnaker_operator.Base.{
  ap, String, Bool, ◌≡◌, refl, Option, none, some, List, [], ◌∷◌, ◌++◌, map, arith, if◌then◌else◌,
  ◌∙◌,
}
use spinnaker_operator.Base.Number.{ℤ}
use spinnaker_operator.Expose.Ingress.{
  IngressPath, IngressRule, Ingress, IngressExplorer, IngressUrl, references, url_at, find_in_paths,
  find_in_rules, find_in_ingresses, get_actual_extension_host, get_actual_networking_host,
  get_extension_ingress_url, get_networking_ingress_url, get_ingress_url, returned, items, or_else,
  find_in_http,
}

-- A path, with the ingress and the rule that it stands in.
abbrev pub Backend : Type 0
Backend = Ingress × IngressRule × IngressPath

abbrev pub paths_of : Ingress → IngressRule → Option (List IngressPath) → List Backend
paths_of ing rule none = []
paths_of ing rule (some ps) = map (λ p. (ing, rule, p)) ps

abbrev pub rules_of : Ingress → List IngressRule → List Backend
rules_of ing [] = []
rules_of ing (rule ∷ rules) = paths_of ing rule rule.http ++ rules_of ing rules

-- All the paths of the ingresses, in their order.
abbrev pub backends : List Ingress → List Backend
backends [] = []
backends (ing ∷ ings) = rules_of ing ing.rules ++ backends ings

abbrev pub first_that : {A : Type 0} → (A → Bool) → List A → Option A
first_that test [] = none
first_that test (x ∷ xs) = let rest = first_that test xs in if test x then some x else rest

first_that-append :
    {A : Type 0} (test : A → Bool) (xs ys : List A)
    → first_that test (xs ++ ys) ≡ or_else (first_that test xs) (first_that test ys)
first_that-append test [] ys = refl
first_that-append test (x ∷ xs) ys = ground (arith, first_that-append test xs ys)

-- The URL of a backend, if there is one.
abbrev pub url_of : (String → Ingress → String) → Option Backend → Option IngressUrl
url_of actual_host none = none
url_of actual_host (some (ing, rule, p)) = url_at actual_host ing rule p

module _ (actual_host : String → Ingress → String) (service_name : String) (service_port : ℤ) where
  abbrev is_backend : Backend → Bool
  is_backend b = references service_name service_port b.2

  abbrev end_at : Option Backend → Option (Option IngressUrl)
  end_at none = none
  end_at (some (ing, rule, p)) = some (url_at actual_host ing rule p)

  find_in_paths-first :
      (ing : Ingress) (rule : IngressRule) (ps : List IngressPath)
      → find_in_paths actual_host service_name service_port ing rule ps
        ≡ end_at (first_that is_backend (map (λ p. (ing, rule, p)) ps))
  unfolding find_in_paths
  find_in_paths-first ing rule [] = refl
  find_in_paths-first ing rule (p ∷ ps) = ground (arith, find_in_paths-first ing rule ps)

  find_in_http-first :
      (ing : Ingress) (rule : IngressRule) (http : Option (List IngressPath))
      → find_in_http actual_host service_name service_port ing rule http
        ≡ end_at (first_that is_backend (paths_of ing rule http))
  find_in_http-first ing rule none = refl
  find_in_http-first ing rule (some ps) = find_in_paths-first ing rule ps

  end_at-or_else : (a b : Option Backend) → end_at (or_else a b) ≡ or_else (end_at a) (end_at b)
  end_at-or_else none b = refl
  end_at-or_else (some x) b = refl

  -- The parts' searches, one after the other, are the search of the parts put together.
  or_else-first :
      (xs ys : List Backend)
      → or_else (end_at (first_that is_backend xs)) (end_at (first_that is_backend ys))
        ≡ end_at (first_that is_backend (xs ++ ys))
  or_else-first xs ys = rw (
    first_that-append is_backend xs ys,
    end_at-or_else (first_that is_backend xs) (first_that is_backend ys),
  )

  find_in_rules-first :
      (ing : Ingress) (rules : List IngressRule)
      → find_in_rules actual_host service_name service_port ing rules
        ≡ end_at (first_that is_backend (rules_of ing rules))
  unfolding find_in_rules
  find_in_rules-first ing [] = refl
  find_in_rules-first ing (rule ∷ rules) =
      ap₂ or_else (find_in_http-first ing rule rule.http) (find_in_rules-first ing rules)
      ∙ or_else-first (paths_of ing rule rule.http) (rules_of ing rules)

  find_in_ingresses-first :
      (ings : List Ingress)
      → find_in_ingresses actual_host service_name service_port ings
        ≡ end_at (first_that is_backend (backends ings))
  unfolding find_in_ingresses
  find_in_ingresses-first [] = refl
  find_in_ingresses-first (ing ∷ ings) =
      ap₂ or_else (find_in_rules-first ing ing.rules) (find_in_ingresses-first ings)
      ∙ or_else-first (rules_of ing ing.rules) (backends ings)

  returned-end_at : (b : Option Backend) → returned (end_at b) ≡ url_of actual_host b
  returned-end_at none = refl
  returned-end_at (some b) = refl

  returned-find_in_ingresses :
      (ings : List Ingress)
      → returned (find_in_ingresses actual_host service_name service_port ings)
        ≡ url_of actual_host (first_that is_backend (backends ings))
  returned-find_in_ingresses ings =
      ap returned (find_in_ingresses-first ings)
      ∙ returned-end_at (first_that is_backend (backends ings))

-- The URL of a service is made of the first path, in the order of all paths of all ingresses, whose
-- backend is that service on a port named `http` or of the given number; the ingresses of the
-- extensions are searched first, and those of the networking group only where they give no URL, because
-- no path fits or the first one that does has no host.
pub get_ingress_url-first :
    (i : IngressExplorer) (service_name : String) (service_port : ℤ)
    → let first = λ (ings : Option (List Ingress)).
      first_that (λ b. references service_name service_port b.2) (backends (items ings)) in
      get_ingress_url i service_name service_port
      ≡ or_else
          (url_of get_actual_extension_host (first i.extension_ingresses))
          (url_of get_actual_networking_host (first i.networking_ingresses))
unfolding get_ingress_url get_extension_ingress_url get_networking_ingress_url
get_ingress_url-first i service_name service_port =
    ap₂ or_else
      (returned-find_in_ingresses get_actual_extension_host service_name service_port
        (items i.extension_ingresses))
      (returned-find_in_ingresses get_actual_networking_host service_name service_port
        (items i.networking_ingresses))
