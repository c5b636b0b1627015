-- ===== src/Expose/Annotations.antt =====
-- pkg/apis/spinnaker/interfaces/interfaces.go: the annotations of an exposed service.
use spinnaker_operator.Base.{String, ◌≡◌, refl, Option, none, some, [], ◌∷◌, arith, =ₛ→≡}
use spinnaker_operator.Base.Dict.{Dict, lookup, insert, lookup-insert, insert-NodupKeys, NodupKeys}
use spinnaker_operator.Api.Types.{ExposeConfig, ExposeConfigServiceOverrides}

-- `for k, v := range m { annotations[k] = v }`
unfoldable pub put_all : Dict String → Dict String → Dict String
put_all [] annotations = annotations
put_all ((k, v) ∷ m) annotations = put_all m (insert k v annotations)

unfoldable pub get_aggregated_annotations : ExposeConfig → String → Dict String
unfolding put_all
get_aggregated_annotations e service_name = elim (lookup service_name e.service.overrides) [
  | none ↦ put_all e.service.annotations []
  | some c ↦ put_all c.annotations (put_all e.service.annotations [])
]

lookup-put_all :
    (m r : Dict String) (k : String)
    → NodupKeys m
    → lookup k (put_all m r) ≡ (elim (lookup k m) [ some v ↦ some v | none ↦ lookup k r ])
unfolding put_all lookup
lookup-put_all [] r k u = refl
lookup-put_all ((j, v) ∷ m) r k (fresh, u) =
    ground (arith, lookup-put_all m (insert j v r) k u, lookup-insert j k v r, =ₛ→≡ j k)

-- The annotations that the service's own entry of the overrides asks for.
abbrev pub own : ExposeConfig → String → Dict String
own e service_name = elim (lookup service_name e.service.overrides) [
  | none ↦ []
  | some c ↦ c.annotations
]

aggregated :
    (e : ExposeConfig) (service_name : String)
    → get_aggregated_annotations e service_name
      ≡ put_all (own e service_name) (put_all e.service.annotations [])
unfolding get_aggregated_annotations
aggregated e service_name = at (lookup service_name e.service.overrides)
  where
    at :
        (o : Option ExposeConfigServiceOverrides)
        → ◌≡◌ {A = Dict String}
            (elim o [
              | none ↦ put_all e.service.annotations []
              | some c ↦ put_all c.annotations (put_all e.service.annotations [])
            ])
            (put_all
              (elim o [ none ↦ [] | some c ↦ c.annotations ])
              (put_all e.service.annotations []))
    at none = refl
    at (some c) = refl

put_all-NodupKeys : (m r : Dict String) → NodupKeys r → NodupKeys (put_all m r)
unfolding put_all
put_all-NodupKeys [] r u = u
put_all-NodupKeys ((k, v) ∷ m) r u = put_all-NodupKeys m (insert k v r) (insert-NodupKeys k v r u)

pub get_aggregated_annotations-NodupKeys :
    (e : ExposeConfig) (service_name : String)
    → NodupKeys (get_aggregated_annotations e service_name)
get_aggregated_annotations-NodupKeys e service_name =
    rw aggregated
      (put_all-NodupKeys (own e service_name) _ (put_all-NodupKeys e.service.annotations [] tt))

-- An annotation has the value that the service's own overrides give it, and otherwise the one that
-- all exposed services have. (In neither of the two maps does a key stand twice.)
lookup-get_aggregated_annotations :
    (e : ExposeConfig) (service_name k : String)
    → NodupKeys e.service.annotations
    → NodupKeys (own e service_name)
    → lookup k (get_aggregated_annotations e service_name) ≡ (elim (lookup k (own e service_name)) [
      | some v ↦ some v
      | none ↦ lookup k e.service.annotations
    ])
lookup-get_aggregated_annotations e service_name k u w =
    let global = e.service.annotations in
    rw aggregated (
      unfold lookup in
      ground (
        arith,
        lookup-put_all (own e service_name) (put_all global []) k w,
        lookup-put_all global [] k u,
      ))
