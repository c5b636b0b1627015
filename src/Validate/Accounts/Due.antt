-- ===== src/Validate/Accounts/Due.antt =====
-- pkg/validate/accounts.go: when the accounts are validated again.
use spinnaker_operator.Base.{
  ap, sym, ◌∙◌, String, ◌≡◌, refl, ◌⊎◌, inl, inr, List, [], ◌∷◌, map, arith, if◌then◌else◌,
}
use spinnaker_operator.Base.Result.{Result, ok, err, panic}
use spinnaker_operator.Base.Text.{append}
use spinnaker_operator.Api.Types.{Time, ValidationSetting, SpinnakerServiceStatus}
use spinnaker_operator.Accounts.Kubernetes.{Account, AccountError}
use spinnaker_operator.Validate.Accounts.{
  AccountValidator, HashOf, base_account, get_validation_hash_key, is_due, get_account_hash,
  with_validator, with_rest, due_validators,
}

abbrev pub told : {K : Type 0} → AccountValidator K → String × String
told a = (a.key, a.hash)

abbrev name_of : {K : Type 0} → Account K → String
name_of a = a.name

-- What is told of the validators, or the error.
abbrev pub told_all :
    {K E : Type 0}
    → Result (AccountError E) (List (AccountValidator K))
    → Result (AccountError E) (List (String × String))
told_all (ok vs) = ok (map told vs)
told_all (err e) = err e
told_all panic = panic

abbrev told_rest :
    {E : Type 0}
    → (List (String × String) → List (String × String))
    → Result (AccountError E) (List (String × String))
    → Result (AccountError E) (List (String × String))
told_rest f (ok ts) = ok (f ts)
told_rest f (err e) = err e
told_rest f panic = panic

abbrev told_if_due :
    SpinnakerServiceStatus
    → ValidationSetting
    → Time
    → String
    → String
    → List (String × String)
    → List (String × String)
told_if_due status v now key h rest = if is_due status v now key h then (key, h) ∷ rest else rest

-- What is told of the validators, from the names alone.
by_names :
    {E : Type 0}
    → HashOf E
    → SpinnakerServiceStatus
    → ValidationSetting
    → Time
    → List String
    → Result (AccountError E) (List (String × String))
by_names hash_of status v now [] = ok []
by_names hash_of status v now (n ∷ names) =
    let rest = by_names hash_of status v now names in
    elim (hash_of base_account) [
      | inl e ↦ err (AccountError.library e)
      | inr h ↦
          told_rest
            (told_if_due status v now (append "account-" (append "Kubernetes" (append "-" n))) h)
            rest
    ]

module _ {K E : Type 0} (hash_of : HashOf E) (status : SpinnakerServiceStatus)
    (v : ValidationSetting) (now : Time) where
  told-with_validator :
      (a : Account K) (h : String) (r : Result (AccountError E) (List (AccountValidator K)))
      → told_all (with_rest hash_of (with_validator hash_of status v now a h) r)
        ≡ told_rest (told_if_due status v now (get_validation_hash_key a) h) (told_all r)
  told-with_validator a h (ok vs) = ground arith
  told-with_validator a h (err e) = refl
  told-with_validator a h panic = refl

  told-due_validators :
      (accounts : List (Account K))
      → told_all (due_validators hash_of status v now accounts)
        ≡ by_names hash_of status v now (map name_of accounts)
  unfolding due_validators by_names get_validation_hash_key get_account_hash
  told-due_validators [] = refl
  told-due_validators (a ∷ accounts) = at (hash_of base_account) (told-due_validators accounts)
    where
      at :
          (r : E ⊎ String)
          → told_all (due_validators hash_of status v now accounts)
            ≡ by_names hash_of status v now (map name_of accounts)
          → told_all (elim r [
            | inl e ↦ err (AccountError.library e)
            | inr h ↦
                with_rest hash_of
                  (with_validator hash_of status v now a h)
                  (due_validators hash_of status v now accounts)
          ])
            ≡ elim r [
              | inl e ↦ err (AccountError.library e)
              | inr h ↦
                  told_rest
                    (told_if_due status v now (get_validation_hash_key a) h)
                    (by_names hash_of status v now (map name_of accounts))
            ]
      at (inl e) later = refl
      at (inr h) later =
          told-with_validator a h (due_validators hash_of status v now accounts)
          ∙ ap (told_rest (told_if_due status v now (get_validation_hash_key a) h)) later

  -- Which accounts are validated depends on their names only, whatever else in them has changed: two
  -- lists of accounts with the same names give validators with the same keys and hashes, or the same
  -- error.
  pub due_validators-names :
      (accounts others : List (Account K))
      → map name_of accounts ≡ map name_of others
      → told_all (due_validators hash_of status v now accounts)
        ≡ told_all (due_validators hash_of status v now others)
  due_validators-names accounts others same =
      told-due_validators accounts
      ∙ ap (by_names hash_of status v now) same
      ∙ sym (told-due_validators others)
