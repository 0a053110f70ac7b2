-- ===== src/Webhooks/Ssrf/Target.antt =====
-- packages/webhooks/src/ssrf.ts: `assertSafeWebhookUrl` and `resolveSafeWebhookTarget`.
use fluvia.Base.{
  ℕ, ◌==◌, Bool, true, false, ◌&&◌, ◌||◌, not, List, [], ◌∷◌, ◌++◌, Result, ok, err, ◌>>=◌, ◌>>◌,
  throw_if, Option, none, some, if◌then◌else◌, length,
}
use fluvia.Base.Text.{Text}
use fluvia.Webhooks.Ssrf.Address.{is_private_ip}
use fluvia.Webhooks.Ssrf.Params.{
  Denylist, is_nonempty, is_sensitive_param_name, find_sensitive_query_param,
}

pub data Protocol : Type 0 where
  https http : Protocol
  other_protocol : Text → Protocol

-- What the parser makes of a URL. `port` is the number of its text, if it has one.
pub record Url : Type 0 where
  pub protocol : Protocol
  pub username : Text
  pub password : Text
  pub hostname : Text
  pub port : Option ℕ
  pub pathname : Text
  pub search : Text
  pub search_names : List Text
  pub hash : Text

-- The platform: the parser of URLs, `isIP`, `decodeURIComponent`, `toLowerCase` outside of ASCII, and
-- the resolver of names, which may throw.
pub record Platform : Type 0 where
  pub parse_url : Text → Option Url
  pub is_ip : Text → ℕ
  pub decode : Text → Option Text
  pub lower_other : ℕ → Text
  pub resolve : Text → Result Text (List Text)

pub data UrlError : Type 0 where
  malformed_url https_required credentials_in_url fragment_not_allowed : UrlError
  credential_parameter : Text → UrlError
  port_not_allowed : ℕ → UrlError
  no_addresses : UrlError
  not_public : Text → UrlError
  resolver_failed : Text → UrlError

pub record SafeWebhookTarget : Type 0 where
  pub protocol : Protocol
  pub hostname : Text
  pub port : ℕ
  pub path : Text
  pub ip : Text
  pub ips : List Text

abbrev pub is_https : Protocol → Bool
is_https https = true
is_https http = false
is_https (other_protocol t) = false

abbrev pub is_http : Protocol → Bool
is_http https = false
is_http http = true
is_http (other_protocol t) = false

abbrev pub port_of : Url → ℕ
port_of url = elim url.port [ some p ↦ p | none ↦ if is_https url.protocol then 443 else 80 ]

abbrev pub sensitive_in : Platform → Denylist → Url → Option Text
sensitive_in w words url =
    find_sensitive_query_param w.decode (is_sensitive_param_name w.lower_other words)
      url.search_names url.search

unfoldable pub check_params : Option Text → Result UrlError (Unit {0})
check_params none = ok tt
check_params (some name) = err (credential_parameter name)

-- `assertSafeWebhookUrl`
unfoldable pub check_url : Platform → Denylist → Bool → Url → Result UrlError Url
unfolding check_params
check_url w words allow_private url = do
  throw_if (not (is_https url.protocol) && not (allow_private && is_http url.protocol))
      https_required
  throw_if (is_nonempty url.username || is_nonempty url.password) credentials_in_url
  throw_if (is_nonempty url.hash) fragment_not_allowed
  check_params (sensitive_in w words url)
  throw_if (not allow_private && not (port_of url == 443)) (port_not_allowed (port_of url))
  ok url

unfoldable pub assert_safe_webhook_url : Platform → Denylist → Bool → Text → Result UrlError Url
unfolding check_url
assert_safe_webhook_url w words allow_private raw = elim (w.parse_url raw) [
  | none ↦ err malformed_url
  | some url ↦ check_url w words allow_private url
]

-- `.replace(/^\[|\]$/g, '')`
unfoldable pub without_last : Text → Text
without_last [] = []
without_last (c ∷ []) = if c == 93 then [] else c ∷ []
without_last (c ∷ (d ∷ cs)) = c ∷ without_last (d ∷ cs)

unfoldable pub without_brackets : Text → Text
unfolding without_last
without_brackets [] = []
without_brackets (c ∷ cs) = without_last (if c == 91 then cs else c ∷ cs)

-- The addresses of a host.
unfoldable pub addresses_of : Platform → Text → Result UrlError (List Text)
addresses_of w host =
    if w.is_ip host == 0
    then elim (w.resolve host) [ err e ↦ err (resolver_failed e) | ok ips ↦ ok ips ]
    else ok (host ∷ [])

-- The loop over the addresses.
unfoldable pub check_public : (Text → ℕ) → List Text → Result UrlError (Unit {0})
check_public is_ip [] = ok tt
check_public is_ip (ip ∷ ips) =
    let rest = check_public is_ip ips in
    if is_private_ip is_ip ip then err (not_public ip) else rest

-- The target, from the addresses that are left; the first one is `ips[0]`.
unfoldable pub target_of : Url → Text → List Text → Result UrlError SafeWebhookTarget
target_of url host [] = err no_addresses
target_of url host (ip ∷ ips) = ok (record {
  protocol = url.protocol;
  hostname = host;
  port = port_of url;
  path = url.pathname ++ url.search;
  ip = ip;
  ips = ip ∷ ips;
})

-- `resolveSafeWebhookTarget`
unfoldable pub resolve_safe_webhook_target :
    Platform → Denylist → Bool → Text → Result UrlError SafeWebhookTarget
resolve_safe_webhook_target w words allow_private raw = do
  url ← assert_safe_webhook_url w words allow_private raw
  ips ← addresses_of w (without_brackets url.hostname)
  throw_if (length ips == 0) no_addresses
  (if allow_private then ok tt else check_public w.is_ip ips)
  target_of url (without_brackets url.hostname) ips
