-- ===== src/Tests/Secrets.antt =====
-- pkg/secrets, at concrete inputs.
use spinnaker_operator.Base.{String, true, false, ◌≡◌, refl, inr, [], ◌∷◌}
use spinnaker_operator.Base.Text.{is_empty, lacks}
use spinnaker_operator.Base.Result.{ok}
use spinnaker_operator.Secrets.Params.{parse_kubernetes_secret_params}
use spinnaker_operator.Secrets.Params.RoundTrip.{
  parse_kubernetes_secret_params-joined, joined, name_token, key_token,
}
use spinnaker_operator.Secrets.Context.{SecretContext}
use spinnaker_operator.Secrets.Decode.{Engines}

parse_kubernetes_secret_params-joined_example :
    (parse_kubernetes_secret_params (joined (name_token "db") (key_token "password"))
      ≡ ok ("db", "password"))
    × (parse_kubernetes_secret_params (joined (key_token "password") (name_token "db"))
        ≡ ok ("db", "password"))
unfolding lacks is_empty
parse_kubernetes_secret_params-joined_example =
    parse_kubernetes_secret_params-joined "db" "password" (refl, refl, refl) (refl, refl, refl)

abbrev one_file_cached : SecretContext
one_file_cached = record {
  cache = [];
  file_cache = ("encryptedFile:s3!k", "/tmp/kubeconfig") ∷ [];
  namespace = "spinnaker";
}

abbrev answers : String → Engines String
answers v = record {
  is_encrypted_secret = λ s. true;
  new_decrypter = λ ctx s. inr (record { is_file = false; decrypt = inr v });
}

abbrev fresh : SecretContext
fresh = record { cache = []; file_cache = []; namespace = "spinnaker" }
