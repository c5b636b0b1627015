-- ===== src/Api/Hash.antt =====
-- pkg/apis/spinnaker/interfaces/validation.go: the hashes of what was last deployed or validated, and
-- when a validation is due.
use spinnaker_operator.Base.{
  suc, ◌+◌, ◌*◌, ◌^◌, String, Bool, true, ◌≡◌, refl, Option, none, some, ◌==◌, ltb, ◌=ₛ◌,
  if◌then◌else◌,
}
use spinnaker_operator.Base.Number.{ℤ, pos, negsuc}
use spinnaker_operator.Base.Dict.{lookup, insert, lookup-insert}
use spinnaker_operator.Api.Types.{
  Time, ValidationSetting, SpinnakerValidation, HashStatus, SpinnakerServiceStatus,
}

abbrev pub no_hash : HashStatus
no_hash = record { hash = String.[]; last_updated_at = 0 }

-- The status with the new hash and time at the key, and the prior entry: the zero one if there was
-- none.
unfoldable pub update_hash_if_not_exist :
    String → String → Time → SpinnakerServiceStatus → SpinnakerServiceStatus × HashStatus
update_hash_if_not_exist key hash t s = (
  record s {
    last_deployed = insert key (record { hash = hash; last_updated_at = t }) s.last_deployed;
  },
  elim (lookup key s.last_deployed) [ some ld ↦ ld | none ↦ no_hash ],
)

unfoldable pub get_hash : String → SpinnakerServiceStatus → Option HashStatus
get_hash key s = lookup key s.last_deployed

-- `time.Now().After(lastValid + secs)`
abbrev after_seconds : Time → Time → ℤ → Bool
after_seconds now last (pos s) = ltb (last + s * 10 ^ 9) now
after_seconds now last (negsuc s) = ltb last (now + suc s * 10 ^ 9)

abbrev pub default_validation_freq_seconds : ℤ
default_validation_freq_seconds = pos 30

abbrev pub or_default : ℤ → ℤ
or_default (pos s) = if s == 0 then default_validation_freq_seconds else pos s
or_default z = z

unfoldable pub needs_validation : ValidationSetting → Time → Time → Bool
needs_validation v last_valid now =
    if last_valid == 0 then true else after_seconds now last_valid (or_default v.frequency_seconds)

unfoldable pub is_fatal : ValidationSetting → Bool
is_fatal v = elim v.fail_on_error [ none ↦ true | some b ↦ b ]

unfoldable pub get_validation_settings : SpinnakerValidation → ValidationSetting
get_validation_settings s = record {
  enabled = true;
  fail_on_error = s.fail_on_error;
  frequency_seconds = or_default s.frequency_seconds;
}

-- After an update of one key, that key holds the new hash and time, every other key what it held,
-- and what is returned is what the key held before, or the zero entry.
pub get_hash-update_hash_if_not_exist :
    (key k hash : String) (t : Time) (s : SpinnakerServiceStatus)
    → let (s', prior) = update_hash_if_not_exist key hash t s in
      (get_hash k s'
        ≡ (if key =ₛ k then some (record { hash = hash; last_updated_at = t }) else get_hash k s))
      × (prior ≡ elim (get_hash key s) [ some ld ↦ ld | none ↦ no_hash ])
unfolding update_hash_if_not_exist get_hash
get_hash-update_hash_if_not_exist key k hash t s =
    (lookup-insert key k (record { hash = hash; last_updated_at = t }) s.last_deployed, refl)
