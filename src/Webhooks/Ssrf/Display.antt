-- ===== src/Webhooks/Ssrf/Display.antt =====
-- packages/webhooks/src/ssrf.ts: `sanitizeUrlForDisplay`, `webhookUrlAuditMetadata` and the messages of
-- `UnsafeWebhookUrlError`. The hexadecimal digest of a text is a parameter.
use fluvia.Base.{Bool, ◌&&◌, ◌||◌, not, [], ◌++◌, Option, none, some, if◌then◌else◌}
use fluvia.Base.Digits.{show_digits}
use fluvia.Base.Text.{Text, text_eq, codes}
use fluvia.Webhooks.Ssrf.Params.{is_nonempty}
use fluvia.Webhooks.Ssrf.Target.{
  Protocol, https, http, other_protocol, Url, UrlError, malformed_url, https_required,
  credentials_in_url, fragment_not_allowed, credential_parameter, port_not_allowed, no_addresses,
  not_public, resolver_failed,
}

abbrev pub protocol_text : Protocol → Text
protocol_text https = codes "https:"
protocol_text http = codes "http:"
protocol_text (other_protocol t) = t

-- `url.host`
unfoldable pub host_of : Url → Text
host_of url = url.hostname ++ (elim url.port [ none ↦ [] | some p ↦ codes ":" ++ show_digits p ])

abbrev pub marked : Bool → Text → Text
marked present mark = if present then mark else []

-- `sanitizeUrlForDisplay`, of what the parser makes of the text.
unfoldable pub sanitize_url_for_display : Option Url → Text
unfolding host_of
sanitize_url_for_display none = codes "[unparseable URL]"
sanitize_url_for_display (some url) =
    protocol_text url.protocol
    ++ (codes "//"
        ++ (marked (is_nonempty url.username || is_nonempty url.password) (codes "[REDACTED]@")
            ++ (host_of url
                ++ (marked (is_nonempty url.pathname && not (text_eq url.pathname (codes "/")))
                      (codes "/[REDACTED_PATH]")
                    ++ (marked (is_nonempty url.search) (codes "?[REDACTED]")
                        ++ marked (is_nonempty url.hash) (codes "#[REDACTED]"))))))

unfoldable pub reason_of : UrlError → Text
reason_of malformed_url = codes "malformed URL"
reason_of https_required = codes "https required"
reason_of credentials_in_url = codes "credentials in URL"
reason_of fragment_not_allowed = codes "fragment not allowed"
reason_of (credential_parameter name) =
    codes "credential-bearing query parameter \"" ++ (name ++ codes "\" not allowed")
reason_of (port_not_allowed port) = codes "port " ++ (show_digits port ++ codes " not allowed")
reason_of no_addresses = codes "DNS resolved no addresses"
reason_of (not_public ip) = codes "resolves to non-public address " ++ ip
reason_of (resolver_failed message) = message

-- The message of `UnsafeWebhookUrlError`; an error of the resolver is passed on as it is.
unfoldable pub error_message : Option Url → UrlError → Text
unfolding sanitize_url_for_display reason_of
error_message url (resolver_failed message) = message
error_message url e =
    codes "Webhook URL rejected (" ++ (reason_of e ++ (codes "): " ++ sanitize_url_for_display url))

pub record UrlAuditMetadata : Type 0 where
  pub url_host : Text
  pub url_fingerprint : Text

-- `webhookUrlAuditMetadata`
unfoldable pub webhook_url_audit_metadata : (Text → Text) → Text → Option Url → UrlAuditMetadata
unfolding host_of
webhook_url_audit_metadata sha256 raw url = record {
  url_host = elim url [ none ↦ codes "[unparseable]" | some u ↦ host_of u ];
  url_fingerprint = codes "sha256:" ++ sha256 raw;
}
