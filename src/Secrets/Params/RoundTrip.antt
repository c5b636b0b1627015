-- ===== src/Secrets/Params/RoundTrip.antt =====
-- pkg/secrets/kubernetes.go: references that are written from a name and a key.
use spinnaker_operator.Base.{String, ◌≡◌, refl, true, false, [], ◌∷◌, ◌=ₛ◌, arith, ap, ◌∙◌}
use spinnaker_operator.Base.Text.{split, is_empty, append, lacks, split-append, split_of_lacks}
use spinnaker_operator.Base.Result.{ok}
use spinnaker_operator.Secrets.Params.{params_loop, parse_kubernetes_secret_params}

abbrev pub name_token : String → String
name_token name = append "n" (append ":" name)

abbrev pub key_token : String → String
key_token key = append "k" (append ":" key)

split-name_token :
    (name : String) → lacks b':' name ≡ true → split b':' (name_token name) ≡ "n" ∷ name ∷ []
unfolding append split
split-name_token name h = ground (arith, split_of_lacks b':' name h)

split-key_token :
    (key : String) → lacks b':' key ≡ true → split b':' (key_token key) ≡ "k" ∷ key ∷ []
unfolding append split
split-key_token key h = ground (arith, split_of_lacks b':' key h)

lacks-name_token : (name : String) → lacks b'!' name ≡ true → lacks b'!' (name_token name) ≡ true
unfolding append lacks
lacks-name_token name h = h

lacks-key_token : (key : String) → lacks b'!' key ≡ true → lacks b'!' (key_token key) ≡ true
unfolding append lacks
lacks-key_token key h = h

parse_tokens :
    (name key : String)
    → lacks b':' name ≡ true
    → lacks b':' key ≡ true
    → params_loop (name_token name ∷ key_token key ∷ []) String.[] String.[] ≡ ok (name, key)
unfolding params_loop ◌=ₛ◌
parse_tokens name key hn hk = ground (arith, split-name_token name hn, split-key_token key hk)

parse_tokens_swapped :
    (name key : String)
    → lacks b':' name ≡ true
    → lacks b':' key ≡ true
    → params_loop (key_token key ∷ name_token name ∷ []) String.[] String.[] ≡ ok (name, key)
unfolding params_loop ◌=ₛ◌
parse_tokens_swapped name key hn hk =
    ground (arith, split-name_token name hn, split-key_token key hk)

-- `a!b`
abbrev pub joined : String → String → String
joined a b = append a (String.◌∷◌ "!" b)

split-joined :
    (a b : String)
    → lacks b'!' a ≡ true
    → lacks b'!' b ≡ true
    → split b'!' (joined a b) ≡ a ∷ b ∷ []
split-joined a b ha hb =
    split-append b'!' a "!" b ha refl ∙ ap (λ t. a ∷ t) (split_of_lacks b'!' b hb)

-- A reference made of a name and a key, neither empty nor with a `:` or `!` in it, is read back as
-- that name and key, whichever of the two comes first.
pub parse_kubernetes_secret_params-joined :
    (name key : String)
    → (lacks b':' name ≡ true) × (lacks b'!' name ≡ true) × (is_empty name ≡ false)
    → (lacks b':' key ≡ true) × (lacks b'!' key ≡ true) × (is_empty key ≡ false)
    → (parse_kubernetes_secret_params (joined (name_token name) (key_token key)) ≡ ok (name, key))
      × (parse_kubernetes_secret_params (joined (key_token key) (name_token name)) ≡ ok (name, key))
unfolding parse_kubernetes_secret_params
parse_kubernetes_secret_params-joined name key (n1, n2, n3) (k1, k2, k3) = (
  ground (
    arith,
    split-joined (name_token name) (key_token key) (lacks-name_token name n2)
        (lacks-key_token key k2),
    parse_tokens name key n1 k1,
  ),
  ground (
    arith,
    split-joined (key_token key) (name_token name) (lacks-key_token key k2)
        (lacks-name_token name n2),
    parse_tokens_swapped name key n1 k1,
  ),
)
