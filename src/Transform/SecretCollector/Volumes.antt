-- ===== src/Transform/SecretCollector/Volumes.antt =====
-- pkg/deploy/spindeploy/transformer/secrets.go: which keys of which secrets are mounted.
use spinnaker_operator.Base.{
  String, Bool, true, ◌≡◌, refl, List, [], ◌∷◌, ◌++◌, any, arith, ◌&&◌, ◌||◌, ◌=ₛ◌, =ₛ→≡,
  if◌then◌else◌,
}
use spinnaker_operator.Kubernetes.Workload.{VolumeMount}
use spinnaker_operator.Transform.SecretCollector.{
  SecretVolume, Collector, has_key, with_key, add_volume, mount_of, handle_secret_file_reference,
}

abbrev pub mounted : String → String → List SecretVolume → Bool
mounted secret_name key vs = any (λ v. v.secret_name =ₛ secret_name && has_key key v.keys) vs

abbrev pub mounts : String → List SecretVolume → List VolumeMount
mounts svc [] = []
mounts svc (v ∷ vs) = mount_of svc v.secret_name ∷ mounts svc vs

has_key-append :
    (key k : String) (keys : List String)
    → has_key k (keys ++ key ∷ []) ≡ (has_key k keys || key =ₛ k)
has_key-append key k [] = ground arith
has_key-append key k (j ∷ keys) = ground (arith, has_key-append key k keys)

-- Of two equal keys either both are there or none is.
has_key-same :
    (key k : String) (keys : List String) → (key =ₛ k) ≡ true → has_key key keys ≡ has_key k keys
has_key-same key k keys h = rw (=ₛ→≡ key k h) refl

has_key-with_key :
    (key k : String) (keys : List String)
    → has_key k (with_key key keys) ≡ (has_key k keys || key =ₛ k)
has_key-with_key key k keys = ground (arith, has_key-append key k keys, has_key-same key k keys)

mounted-add_volume :
    (secret_name key s k : String) (vs : List SecretVolume)
    → mounted s k (add_volume secret_name key vs).0
      ≡ (mounted s k vs || (secret_name =ₛ s && key =ₛ k))
unfolding add_volume
mounted-add_volume secret_name key s k [] = ground arith
mounted-add_volume secret_name key s k (v ∷ vs) = ground (
  arith,
  mounted-add_volume secret_name key s k vs,
  has_key-with_key key k v.keys,
  =ₛ→≡ v.secret_name secret_name,
)

mounts-add_volume :
    (svc secret_name key : String) (vs : List SecretVolume)
    → mounts svc (add_volume secret_name key vs).0 ≡ (
        if (add_volume secret_name key vs).1
        then mounts svc vs ++ mount_of svc secret_name ∷ []
        else mounts svc vs)
unfolding add_volume
mounts-add_volume svc secret_name key [] = refl
mounts-add_volume svc secret_name key (v ∷ vs) =
    ground (arith, mounts-add_volume svc secret_name key vs)

-- After a reference to a file, the volumes mount what they mounted before and that key of that
-- secret, and nothing else; and if each volume had its mount and no other mount was there, that is
-- so again.
pub handle_secret_file_reference-mounted :
    (secret_name key s k : String) (c : Collector)
    → c.volume_mounts ≡ mounts c.svc c.volumes
    → let c' = (handle_secret_file_reference secret_name key c).0 in
      (mounted s k c'.volumes ≡ (mounted s k c.volumes || (secret_name =ₛ s && key =ₛ k)))
      × (c'.volume_mounts ≡ mounts c'.svc c'.volumes)
unfolding handle_secret_file_reference
handle_secret_file_reference-mounted secret_name key s k c h = (
  mounted-add_volume secret_name key s k c.volumes,
  ground (arith, mounts-add_volume c.svc secret_name key c.volumes),
)
