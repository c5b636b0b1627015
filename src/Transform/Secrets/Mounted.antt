-- ===== src/Transform/Secrets/Mounted.antt =====
-- pkg/deploy/spindeploy/transformer/secrets.go: what the container of a service gets for its secrets.
use spinnaker_operator.Base.{
  ap, sym, ◌∙◌, map, if◌then◌else◌, String, Bool, true, false, ◌≡◌, refl, Option, none, some, List,
  [], ◌∷◌, ◌++◌, any, ◌||◌, ◌=ₛ◌, =ₛ→≡, arith,
}
use spinnaker_operator.Base.Result.{ok}
use spinnaker_operator.Kubernetes.Workload.{EnvVar, Container, Volume, Deployment}
use spinnaker_operator.Transform.SecretCollector.{
  SecretEnvVar, from_secret, raw, SecretVolume, Collector,
}
use spinnaker_operator.Transform.Containers.{get_container_in_deployment}
use spinnaker_operator.Transform.Secrets.{
  is_volume_in_array, add_volumes, with_secrets, env_of, volume_of, change_container,
  set_in_container, needs_nothing, if_monitored, set_in_monitoring, set_in_deployment,
}

get_container-change_self :
    (name : String) (f : Container → Container) (cs : List Container) {c : Container}
    → ((c : Container) → (f c).name ≡ c.name)
    → get_container_in_deployment name cs ≡ some c
    → get_container_in_deployment name (change_container name f cs) ≡ some (f c)
unfolding get_container_in_deployment change_container
get_container-change_self name f [] keeps h = ground arith
get_container-change_self name f (d ∷ cs) {c} keeps h =
    ground (arith, keeps d, get_container-change_self name f cs {c = c} keeps)

get_container-change_other :
    (name other : String) (f : Container → Container) (cs : List Container)
    → ((c : Container) → (f c).name ≡ c.name)
    → (other =ₛ name) ≡ false
    → get_container_in_deployment name (change_container other f cs)
      ≡ get_container_in_deployment name cs
unfolding get_container_in_deployment change_container
get_container-change_other name other f [] keeps ne = refl
get_container-change_other name other f (d ∷ cs) keeps ne =
    ground (arith, keeps d, get_container-change_other name other f cs keeps ne, =ₛ→≡ d.name other)

volume-append :
    (w : SecretVolume) (xs ys : List Volume)
    → is_volume_in_array w (xs ++ ys) ≡ (is_volume_in_array w xs || is_volume_in_array w ys)
volume-append w [] ys = refl
volume-append w (x ∷ xs) ys = ground (arith, volume-append w xs ys)

volume-same :
    (v w : SecretVolume) (volumes : List Volume)
    → (v.name =ₛ w.name) ≡ true
    → is_volume_in_array w volumes ≡ is_volume_in_array v volumes
volume-same v w volumes h =
    ap (λ n. any (λ (vol : Volume). vol.name =ₛ n) volumes) (sym (=ₛ→≡ v.name w.name h))

abbrev has_some : List SecretVolume → Bool
has_some [] = false
has_some (v ∷ vs) = true

abbrev pub has_volume : SecretVolume → List SecretVolume → Bool
has_volume w vs = any (λ v. v.name =ₛ w.name) vs

add_volumes-volume :
    (w : SecretVolume) (vs : List SecretVolume) (volumes : List Volume)
    → is_volume_in_array w (add_volumes vs volumes)
      ≡ (is_volume_in_array w volumes || has_volume w vs)
unfolding add_volumes
add_volumes-volume w [] volumes = ground arith
add_volumes-volume w (v ∷ vs) volumes = ground (
  arith,
  add_volumes-volume w vs volumes,
  add_volumes-volume w vs (volumes ++ volume_of v ∷ []),
  volume-append w volumes (volume_of v ∷ []),
  volume-same v w volumes,
)

-- The variable in the container: a reference to the secret, or the text.
abbrev pub variable : SecretEnvVar → EnvVar
variable e = elim e.source [
  | from_secret name key ↦ record { name = e.name; value = ""; from_source = true }
  | raw value ↦ record { name = e.name; value = value; from_source = false }
]

-- The container with all that was collected, after what it has.
abbrev pub equipped : Collector → Container → Container
equipped k c = record {
  name = c.name;
  image = c.image;
  env = c.env ++ map variable k.env_vars;
  volume_mounts =
      if has_some k.volumes then c.volume_mounts ++ k.volume_mounts else c.volume_mounts;
  ports = c.ports;
  readiness_probe = c.readiness_probe;
}

with_secrets-equipped : (k : Collector) (c : Container) → with_secrets k c ≡ equipped k c
with_secrets-equipped k c = at k.volumes
  where
    at :
        (vs : List SecretVolume)
        → record c {
          volume_mounts = elim vs [
            | [] ↦ c.volume_mounts
            | v ∷ vs ↦ c.volume_mounts ++ k.volume_mounts
          ];
          env = c.env ++ map env_of k.env_vars;
        }
          ≡ record (equipped k c) {
            volume_mounts =
                if has_some vs then c.volume_mounts ++ k.volume_mounts else c.volume_mounts;
          }
    at [] = refl
    at (v ∷ vs) = refl

with_secrets-name : (k : Collector) (c : Container) → (with_secrets k c).name ≡ c.name
with_secrets-name k c = refl

-- What the part for the monitoring daemon leaves, and what it keeps.
if_monitored-container :
    (k : Collector) (d : Deployment) (o : Option Container)
    → ("monitoring-daemon" =ₛ k.svc) ≡ false
    → get_container_in_deployment k.svc (if_monitored k d o).containers
      ≡ get_container_in_deployment k.svc d.containers
if_monitored-container k d none other = refl
if_monitored-container k d (some c) other =
    get_container-change_other k.svc "monitoring-daemon" (with_secrets k) d.containers
      (with_secrets-name k) other

if_monitored-volumes :
    (k : Collector) (d : Deployment) (o : Option Container) (w : SecretVolume)
    → is_volume_in_array w
        (if_monitored k (record d { volumes = add_volumes k.volumes d.volumes }) o).volumes
      ≡ (is_volume_in_array w d.volumes || has_volume w k.volumes)
if_monitored-volumes k d none w = add_volumes-volume w k.volumes d.volumes
if_monitored-volumes k d (some c) w = ground (
  arith,
  add_volumes-volume w k.volumes (add_volumes k.volumes d.volumes),
  add_volumes-volume w k.volumes d.volumes,
)

-- Where something was collected for a service that is not the monitoring daemon itself, and its
-- deployment has a container of its name: that container gets, after its own, all the variables that
-- were collected, as a reference to a secret or as the text, and, if there are volumes, all the
-- mounts, and nothing else in it changes; and a volume is one of the pod's, by its name, exactly if it
-- was so before or was collected.
pub set_in_deployment-mounted :
    {E : Type 0} (k : Collector) (d : Deployment) (c : Container)
    → needs_nothing k ≡ false
    → ("monitoring-daemon" =ₛ k.svc) ≡ false
    → get_container_in_deployment k.svc d.containers ≡ some c
    → (d' : Deployment) × (set_in_deployment {E = E} k d ≡ ok d')
      × (get_container_in_deployment k.svc d'.containers ≡ some (equipped k c))
      × ((w : SecretVolume)
          → is_volume_in_array w d'.volumes
            ≡ (is_volume_in_array w d.volumes || has_volume w k.volumes))
unfolding set_in_deployment
set_in_deployment-mounted k d c needed other found =
    let first = set_in_container k k.svc d in
    let monitoring = get_container_in_deployment "monitoring-daemon" first.containers in
    (
      set_in_monitoring k first,
      rw (needed, found) refl,
      if_monitored-container k first monitoring other
          ∙ get_container-change_self k.svc (with_secrets k) d.containers (with_secrets-name k)
              found
          ∙ ap some (with_secrets-equipped k c),
      λ w. if_monitored-volumes k (record d { containers = first.containers }) monitoring w,
    )
