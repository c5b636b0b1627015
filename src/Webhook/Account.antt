-- ===== src/Webhook/Account.antt =====
-- pkg/controller/accountvalidating: the admission of SpinnakerAccounts.
use spinnaker_operator.Base.{ℕ, String, ◌⊎◌, inl, inr, Option, none, some, if◌then◌else◌}
use spinnaker_operator.Base.Result.{Result, ok, err, panic}
use spinnaker_operator.Secrets.Context.{SecretContext, new_context}
use spinnaker_operator.Accounts.Kubernetes.{Account, SpinnakerAccount, AccountError, from_crd}
use spinnaker_operator.Accounts.Cluster.{Cluster, ValidatorError}
use spinnaker_operator.Accounts.Service.{AccountType, types, get_type}
use spinnaker_operator.Accounts.Validator.{validate}
use spinnaker_operator.Webhook.Service.{Gvk, is_spinnaker_request}

pub data AccountRefusal (E : Type 0) : Type 0 where
  cannot_decode : E → AccountRefusal E
  unknown_type : String → AccountRefusal E
  bad_account : AccountError E → AccountRefusal E
  invalid : ValidatorError E → AccountRefusal E

abbrev pub bad_request : ℕ
bad_request = 400

abbrev pub unprocessable : ℕ
unprocessable = 422

module _ {K C A L R E : Type 0} (cluster : Cluster K C A L R E) where
  -- An error is the status of HTTP, and why; a value is that the account is admitted.
  abbrev Answer : Type 0
  Answer = Result (ℕ × AccountRefusal E) (Unit {0})

  abbrev validated : Option SecretContext × Result (ValidatorError E) (Unit {0}) → Answer
  validated (ctx, ok u) = ok tt
  validated (ctx, err e) = err (unprocessable, invalid e)
  validated (ctx, panic) = panic

  -- There is no SpinnakerService here.
  abbrev of_account : String → Result (AccountError E) (Account K) → Answer
  of_account namespace (ok a) = validated (validate cluster none a (some (new_context namespace)))
  of_account namespace (err e) = err (bad_request, bad_account e)
  of_account namespace panic = panic

  abbrev of_type : String → SpinnakerAccount K → Option (AccountType K E) → Answer
  of_type namespace acc none = err (bad_request, unknown_type acc.type)
  of_type namespace acc (some t) = of_account namespace (t.from_crd acc)

  abbrev of_decoded : String → E ⊎ SpinnakerAccount K → Answer
  of_decoded namespace (inl e) = err (bad_request, cannot_decode e)
  of_decoded namespace (inr acc) = of_type namespace acc (get_type acc.type (types cluster.kube))

  unfoldable pub handle : Gvk → Gvk → String → E ⊎ SpinnakerAccount K → Answer
  unfolding is_spinnaker_request get_type from_crd validate new_context
  handle gv request namespace decoded =
      if is_spinnaker_request "SpinnakerAccount" gv request
      then of_decoded namespace decoded
      else ok tt
