-- ===== src/Expose/LoadBalancer.antt =====
-- pkg/util/runtime.go: the URL of a load balancer.
use spinnaker_operator.Base.{
  String, Bool, true, false, inl, inr, none, some, List, [], ◌∷◌, not, ◌&&◌, ◌||◌, ◌=ₛ◌,
  if◌then◌else◌,
}
use spinnaker_operator.Base.Text.{append, is_empty, lower_is, contains}
use spinnaker_operator.Base.Number.{ℤ, pos, negsuc, ◌=ℤ◌, format_int}
use spinnaker_operator.Base.Result.{Result, ok, err, panic, ◌>>=◌}
use spinnaker_operator.Kubernetes.{
  Service, ServicePort, LoadBalancerIngress, GetError, Services, get_service,
}

abbrev pub is_positive : ℤ → Bool
is_positive (pos n) = not (pos n =ℤ pos 0)
is_positive (negsuc n) = false

abbrev with_port : String → ℤ → String
with_port host port = append host (append ":" (format_int port))

-- `url.URL{Scheme, Host}.String()`, for a host that needs no escape.
abbrev url_string : String → String → String
url_string scheme host =
    append (if is_empty scheme then String.[] else append scheme ":")
      (if is_empty host then String.[] else append "//" host)

-- The port is written only where the scheme does not imply it.
unfoldable pub build_url : String → String → ℤ → String
build_url scheme host port = url_string scheme (
    if is_positive port
      && ((scheme =ₛ "https" && not (port =ℤ pos 443))
          || (scheme =ₛ "http" && not (port =ℤ pos 80)))
    then with_port host port
    else host)

-- The protocol of the first port decides, unless halconfig has SSL on; a service with no port panics.
unfoldable pub is_ssl_enabled : List ServicePort → ℤ → Bool → Result GetError Bool
is_ssl_enabled ports port true = ok true
is_ssl_enabled [] port false = panic
is_ssl_enabled (p ∷ ports) port false = ok (
    if lower_is p.protocol "http"
    then false
    else if lower_is p.protocol "https"
    then true
    else port =ℤ pos 443)

-- The port of the first entry that names tcp, and 0 without one.
unfoldable pub tcp_port : List ServicePort → ℤ
tcp_port [] = pos 0
tcp_port (p ∷ ports) = if contains "tcp" p.name then p.port else tcp_port ports

abbrev host_of : LoadBalancerIngress → String
host_of i = if is_empty i.hostname then i.ip else i.hostname

abbrev load_balancer_url : Service → Bool → Result GetError String
load_balancer_url svc hc_ssl = elim svc.ingress [
  | [] ↦ ok String.[]
  | i ∷ more ↦
      if is_empty (host_of i)
      then ok String.[]
      else is_ssl_enabled svc.ports (tcp_port svc.ports) hc_ssl >>= λ ssl.
          ok (build_url (if ssl then "https" else "http") (host_of i) (tcp_port svc.ports))
]

unfoldable pub find_load_balancer_url : Services → String → String → Bool → Result GetError String
unfolding get_service is_ssl_enabled tcp_port build_url
find_load_balancer_url client svc_name namespace hc_ssl =
    elim (get_service client svc_name namespace) [
      | inl e ↦ err e
      | inr none ↦ ok String.[]
      | inr (some svc) ↦
          if svc.type =ₛ "LoadBalancer" then load_balancer_url svc hc_ssl else ok String.[]
    ]
