-- ===== src/Detector/Config.antt =====
-- pkg/deploy/spindeploy/config/detector.go: whether the configuration or the kustomization has changed
-- since its hash was last recorded. The check records the new hashes.
use spinnaker_operator.Base.{
  String, Bool, true, false, ◌≡◌, refl, ◌⊎◌, inl, inr, Option, none, some, arith, ◌&&◌, ◌=ₛ◌,
  =ₛ_refl,
}
use spinnaker_operator.Base.Dict.{Dict, lookup, insert, lookup-insert, lookup-insert_self}
use spinnaker_operator.Config.{SpinnakerConfig}
use spinnaker_operator.Api.Types.{Time, HashStatus, ServiceKustomization, SpinnakerService}
use spinnaker_operator.Api.Hash.{update_hash_if_not_exist}
use spinnaker_operator.Detector.Composite.{ChangeDetector}

abbrev pub spinnaker_config_hash_key : String
spinnaker_config_hash_key = "config"

abbrev pub kustomize_hash_key : String
kustomize_hash_key = "kustomize"

-- JSON encoding and MD5 in hexadecimal, of the two types that are hashed.
pub record Hashes (E : Type 0) : Type 0 where
  pub config : SpinnakerConfig → E ⊎ String
  pub kustomize : Dict ServiceKustomization → E ⊎ String

abbrev hash_of : Option HashStatus → String
hash_of none = String.[]
hash_of (some ld) = ld.hash

-- The hash that the status holds at a key; the empty text if there is none.
abbrev pub recorded : String → SpinnakerService → String
recorded key svc = hash_of (lookup key svc.status.last_deployed)

keys_differ : ("config" =ₛ "kustomize") ≡ false
unfolding ◌=ₛ◌
keys_differ = refl

keys_differ' : ("kustomize" =ₛ "config") ≡ false
unfolding ◌=ₛ◌
keys_differ' = refl

module _ {E : Type 0} where
  is_up_to_date : E ⊎ String → String → Time → SpinnakerService → SpinnakerService × (E ⊎ Bool)
  unfolding update_hash_if_not_exist
  is_up_to_date (inl e) hash_key now svc = (svc, inl e)
  is_up_to_date (inr h) hash_key now svc =
      let (st, prior) = update_hash_if_not_exist hash_key h now svc.status in
      (record svc { status = st }, inr (h =ₛ prior.hash))

  abbrev second : Hashes E → Time → SpinnakerService × (E ⊎ Bool) → SpinnakerService × (E ⊎ Bool)
  second hashes now (svc, inl e) = (svc, inl e)
  second hashes now (svc, inr upd) =
      let (svc', k_upd) =
        is_up_to_date (hashes.kustomize svc.kustomize) kustomize_hash_key now svc in
      (svc', elim k_upd [ inl e ↦ inl e | inr k ↦ inr (upd && k) ])

  -- `now` is read for each of the two hashes.
  unfoldable pub is_spinnaker_up_to_date :
      Hashes E → Time → Time → SpinnakerService → SpinnakerService × (E ⊎ Bool)
  unfolding is_up_to_date
  is_spinnaker_up_to_date hashes now now' svc =
      second hashes now'
        (is_up_to_date (hashes.config svc.spinnaker_config) spinnaker_config_hash_key now svc)

  unfoldable pub config_detector : Hashes E → Time → Time → ChangeDetector SpinnakerService E
  unfolding is_spinnaker_up_to_date
  config_detector hashes now now' = record {
    name = "config";
    always_run = true;
    is_spinnaker_up_to_date = is_spinnaker_up_to_date hashes now now';
  }

  -- Where both hashes can be computed, the answer is whether each of them is the recorded one; then
  -- the status records both, and nothing else of the service has changed but its status.
  pub is_spinnaker_up_to_date-recorded :
      (hashes : Hashes E) (now now' : Time) (svc : SpinnakerService) (h k : String)
      → hashes.config svc.spinnaker_config ≡ inr h
      → hashes.kustomize svc.kustomize ≡ inr k
      → let (svc', r) = is_spinnaker_up_to_date hashes now now' svc in
        (r ≡ inr ((h =ₛ recorded "config" svc) && (k =ₛ recorded "kustomize" svc)))
        × (recorded "config" svc' ≡ h)
        × (recorded "kustomize" svc' ≡ k)
        × (svc' ≡ record svc { status = svc'.status })
  unfolding is_spinnaker_up_to_date
  is_spinnaker_up_to_date-recorded hashes now now' svc h k eh ek =
      let m = svc.status.last_deployed in
      let c : HashStatus = record { hash = h; last_updated_at = now } in
      let d : HashStatus = record { hash = k; last_updated_at = now' } in
      ground (
        arith,
        eh,
        ek,
        keys_differ,
        keys_differ',
        lookup-insert_self "config" c m,
        lookup-insert "config" "kustomize" c m,
        lookup-insert "kustomize" "config" d (insert "config" c m),
        lookup-insert_self "kustomize" d (insert "config" c m),
      )

  -- A check that follows a check of the same configuration finds it up to date.
  is_spinnaker_up_to_date-again :
      (hashes : Hashes E) (t u v w : Time) (svc : SpinnakerService) (h k : String)
      → hashes.config svc.spinnaker_config ≡ inr h
      → hashes.kustomize svc.kustomize ≡ inr k
      → (is_spinnaker_up_to_date hashes v w (is_spinnaker_up_to_date hashes t u svc).0).1 ≡ inr true
  is_spinnaker_up_to_date-again hashes t u v w svc h k eh ek =
      let first = is_spinnaker_up_to_date-recorded hashes t u svc h k eh ek in
      let svc' = (is_spinnaker_up_to_date hashes t u svc).0 in
      let again =
        is_spinnaker_up_to_date-recorded hashes v w svc' h k (rw first.3 eh) (rw first.3 ek) in
      ground (arith, first, again, =ₛ_refl h, =ₛ_refl k)
