-- ===== src/Webhooks/Ssrf/Safe.antt =====
-- What a target that was resolved is like, outside of local use.
use fluvia.Base.{
  ℕ, ◌==◌, ◌≡◌, refl, sym, ap, subst, ◌∙◌, false, ◌&&◌, ◌||◌, not, List, [], ◌∷◌, any, Result, ok,
  ◌>>=◌, ◌>>◌, throw_if, throw_if-then, >>=-eq-ok, ok-injective, err-ne-ok, Option, none, some,
  Option-cases, Bool-cases, inl, inr, length, arith,
}
use fluvia.Base.Text.{Text}
use fluvia.Webhooks.Ssrf.Address.{is_private_ip}
use fluvia.Webhooks.Ssrf.Params.{Denylist, is_nonempty}
use fluvia.Webhooks.Ssrf.Target.{
  Protocol, https, http, other_protocol, Url, Platform, UrlError, https_required,
  credentials_in_url, fragment_not_allowed, port_not_allowed, no_addresses, SafeWebhookTarget,
  is_https, is_http, port_of, sensitive_in, check_params, check_url, assert_safe_webhook_url,
  without_brackets, addresses_of, check_public, target_of, resolve_safe_webhook_target,
}

-- The protocol, the port and the addresses of a target, of which one is the address to connect to.
pub record IsPublicTarget (is_ip : Text → ℕ) (target : SafeWebhookTarget) : Type 0 where
  pub over_https : target.protocol ≡ https
  pub standard_port : target.port ≡ 443
  pub none_private : any (is_private_ip is_ip) target.ips ≡ false
  pub pinned : (others : List Text) × (target.ips ≡ target.ip ∷ others)

check_public-any :
    (is_ip : Text → ℕ) (ips : List Text) {u : Unit {0}}
    → check_public is_ip ips ≡ ok u
    → any (is_private_ip is_ip) ips ≡ false
unfolding check_public
check_public-any is_ip [] h = refl
check_public-any is_ip (ip ∷ ips) h = elim (Bool-cases (is_private_ip is_ip ip)) [
  | inl private ↦ absurd (err-ne-ok (rw private at h))
  | inr public ↦ rw public (check_public-any is_ip ips (rw public at h))
]

only_https : (p : Protocol) → not (is_https p) && not (false && is_http p) ≡ false → p ≡ https
only_https https h = refl
only_https http h = cc
only_https (other_protocol t) h = cc

-- No user, no password, no fragment, and no parameter whose name says that it holds a credential.
pub record HasNoCredentials (w : Platform) (words : Denylist) (url : Url) : Type 0 where
  pub no_user : is_nonempty url.username || is_nonempty url.password ≡ false
  pub no_fragment : is_nonempty url.hash ≡ false
  pub no_parameter : sensitive_in w words url ≡ none

check_params-none : (o : Option Text) {u : Unit {0}} → check_params o ≡ ok u → o ≡ none
unfolding check_params
check_params-none none h = refl
check_params-none (some name) h = absurd (err-ne-ok h)

was_equal : (a b : ℕ) → not false && not (a == b) ≡ false → a ≡ b
was_equal a b h = ground arith

check_url-safe :
    (w : Platform) (words : Denylist) (url out : Url)
    → check_url w words false url ≡ ok out
    → (out ≡ url) × (url.protocol ≡ https) × (port_of url ≡ 443) × HasNoCredentials w words url
unfolding check_url
check_url-safe w words url out h =
    let last : Result UrlError Url =
      throw_if (not false && not (port_of url == 443)) (port_not_allowed (port_of url)) >> ok url in
    let third : Result UrlError Url = check_params (sensitive_in w words url) >> last in
    let second : Result UrlError Url =
      throw_if (is_nonempty url.hash) fragment_not_allowed >> third in
    let first : Result UrlError Url =
      throw_if (is_nonempty url.username || is_nonempty url.password) credentials_in_url
      >> second in
    let (secure, h1) =
      throw_if-then (not (is_https url.protocol) && not (false && is_http url.protocol))
        https_required first h in
    let (no_user, h2) =
      throw_if-then (is_nonempty url.username || is_nonempty url.password) credentials_in_url second
        h1 in
    let (no_hash, h3) = throw_if-then (is_nonempty url.hash) fragment_not_allowed third h2 in
    let (nothing, checked, h4) =
      >>=-eq-ok (check_params (sensitive_in w words url)) (λ u. last) h3 in
    let (port, h5) =
      throw_if-then (not false && not (port_of url == 443)) (port_not_allowed (port_of url))
        (ok url) h4 in
    (
      sym (ok-injective h5),
      only_https url.protocol secure,
      was_equal (port_of url) 443 port,
      record {
        no_user = no_user;
        no_fragment = no_hash;
        no_parameter = check_params-none (sensitive_in w words url) checked;
      },
    )

assert-safe :
    (w : Platform) (words : Denylist) (raw : Text) (out : Url)
    → assert_safe_webhook_url w words false raw ≡ ok out
    → (w.parse_url raw ≡ some out)
      × (out.protocol ≡ https)
      × (port_of out ≡ 443)
      × HasNoCredentials w words out
unfolding assert_safe_webhook_url
assert-safe w words raw out h = elim (Option-cases (w.parse_url raw)) [
  | inl bad ↦ absurd (err-ne-ok (rw (bad, assert_safe_webhook_url) at h))
  | inr (url, parsed) ↦
      let (same, secure, port, clean) =
        check_url-safe w words url out (rw (parsed, assert_safe_webhook_url) at h) in
      (
        parsed ∙ ap (λ u. some u) (sym same),
        ap (λ u. u.protocol) same ∙ secure,
        ap port_of same ∙ port,
        subst (HasNoCredentials w words) (sym same) clean,
      )
]

target_of-parts :
    (url : Url) (host : Text) (ips : List Text) (target : SafeWebhookTarget)
    → target_of url host ips ≡ ok target
    → (target.protocol ≡ url.protocol)
      × (target.port ≡ port_of url)
      × (target.ips ≡ ips)
      × ((others : List Text) × (target.ips ≡ target.ip ∷ others))
unfolding target_of
target_of-parts url host [] target h = absurd (err-ne-ok h)
target_of-parts url host (ip ∷ ips) target h =
    let e = sym (ok-injective h) in
    (
      ap (λ t. t.protocol) e,
      ap (λ t. t.port) e,
      ap (λ t. t.ips) e,
      (ips, ap (λ t. t.ips) e ∙ ap (λ x. x ∷ ips) (sym (ap (λ t. t.ip) e))),
    )

-- Outside of local use, a target that is resolved is one of HTTPS on port 443, every address of it is
-- public, and the address to connect to is the first of them; and its URL holds no user, no password,
-- no fragment and no parameter that the list takes for a credential.
pub resolve_safe_webhook_target-IsPublicTarget :
    (w : Platform) (words : Denylist) (raw : Text) (target : SafeWebhookTarget)
    → resolve_safe_webhook_target w words false raw ≡ ok target
    → IsPublicTarget w.is_ip target
      × ((url : Url) × (w.parse_url raw ≡ some url) × HasNoCredentials w words url)
unfolding resolve_safe_webhook_target
resolve_safe_webhook_target-IsPublicTarget w words raw target h =
    let (url, asserted, h1) =
      >>=-eq-ok (assert_safe_webhook_url w words false raw)
        (λ url. addresses_of w (without_brackets url.hostname) >>= λ ips.
          throw_if (length ips == 0) no_addresses
          >> (check_public w.is_ip ips >> target_of url (without_brackets url.hostname) ips))
        h in
    let (parsed, secure, port, clean) = assert-safe w words raw url asserted in
    let (ips, resolved, h2) =
      >>=-eq-ok (addresses_of w (without_brackets url.hostname))
        (λ ips.
          throw_if (length ips == 0) no_addresses
          >> (check_public w.is_ip ips >> target_of url (without_brackets url.hostname) ips))
        h1 in
    let (some_address, h3) =
      throw_if-then (length ips == 0) no_addresses
        (check_public w.is_ip ips >> target_of url (without_brackets url.hostname) ips) h2 in
    let (nothing, public, h4) =
      >>=-eq-ok (check_public w.is_ip ips) (λ u. target_of url (without_brackets url.hostname) ips)
        h3 in
    let (same_protocol, same_port, same_ips, pinned) =
      target_of-parts url (without_brackets url.hostname) ips target h4 in
    (
      record {
        over_https = same_protocol ∙ secure;
        standard_port = same_port ∙ port;
        none_private =
            ap (any (is_private_ip w.is_ip)) same_ips ∙ check_public-any w.is_ip ips public;
        pinned = pinned;
      },
      (url, parsed, clean),
    )
