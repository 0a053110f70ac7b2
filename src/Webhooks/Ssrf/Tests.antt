-- ===== src/Webhooks/Ssrf/Tests.antt =====
-- packages/webhooks/src/ssrf.ts: examples.
use fluvia.Base.{
  ℕ, ◌≡◌, refl, true, false, List, [], ◌∷◌, any, all, map, leb, none, some, ok, err, if◌then◌else◌,
  arith,
}
use fluvia.Base.Text.{Text, text_eq, codes, join_with}
use fluvia.Base.Digits.{show_digits, read_from}
use fluvia.Webhooks.Ssrf.Split.{
  split_on, split_double, number_of, read_hex_from, show_hex, before_first, has_char, cut_last,
}
use fluvia.Webhooks.Ssrf.Address.{
  numbers_of, quad_hextets, without_quad, groups_of, bytes_of_groups, ipv6_to_bytes,
  is_private_quad, is_private_v4, is_private_from, is_private_ip,
}
use fluvia.Webhooks.Ssrf.Params.{
  denylist, Denylist, split_camel, lower_case, parts_of, segments, starts_with, has_part,
  is_sensitive_param_name, split_query, before_equals, find_in_parts, find_name,
  find_sensitive_query_param,
}
use fluvia.Webhooks.Ssrf.Target.{
  https, Url, Platform, credentials_in_url, credential_parameter, not_public, SafeWebhookTarget,
  check_params, check_url, assert_safe_webhook_url, without_last, without_brackets, addresses_of,
  check_public, target_of, resolve_safe_webhook_target,
}
use fluvia.Webhooks.Ssrf.Display.{
  host_of, sanitize_url_for_display, reason_of, error_message, webhook_url_audit_metadata,
}
use fluvia.Webhooks.Ssrf.Dotted.{dotted}
use fluvia.Webhooks.Ssrf.Spelled.{mapped_bytes, mapped_dotted, mapped_hex}
use fluvia.Webhooks.Ssrf.Mapped.{number32, in_range, private_ranges, is_private_ip-ranges}
use fluvia.Webhooks.Ssrf.Safe.{
  IsPublicTarget, HasNoCredentials, resolve_safe_webhook_target-IsPublicTarget,
}

-- `isIP`, of texts that are addresses or names.
abbrev is_ip : Text → ℕ
is_ip t = if has_char 58 t then 6 else if all (λ c. leb c 57) t then 4 else 0

-- `::ffff:7f00:1` and `::ffff:127.0.0.1`
abbrev loopback_hex : Text
loopback_hex = codes "::ffff:7f00:1"

abbrev loopback_quad : Text
loopback_quad = codes "::ffff:127.0.0.1"

bytes_of_hex : ipv6_to_bytes loopback_hex ≡ some (mapped_bytes 127 0 0 1)
unfolding ipv6_to_bytes without_quad has_char cut_last split_on numbers_of quad_hextets number_of
    before_first split_double groups_of bytes_of_groups read_hex_from
bytes_of_hex = refl

bytes_of_quad : ipv6_to_bytes loopback_quad ≡ some (mapped_bytes 127 0 0 1)
unfolding ipv6_to_bytes without_quad has_char cut_last split_on numbers_of quad_hextets number_of
    before_first split_double groups_of bytes_of_groups read_hex_from show_hex read_from
bytes_of_quad = refl

dotted_is_4 : is_ip (dotted 127 0 0 1) ≡ 4
unfolding has_char join_with show_digits
dotted_is_4 = refl

hex_is_6 : is_ip (mapped_hex 127 0 0 1) ≡ 6
unfolding has_char
hex_is_6 = refl

quad_is_6 : is_ip (mapped_dotted 127 0 0 1) ≡ 6
unfolding has_char
quad_is_6 = refl

same_texts : (mapped_hex 127 0 0 1 ≡ loopback_hex) × (mapped_dotted 127 0 0 1 ≡ loopback_quad)
unfolding show_hex show_digits join_with
same_texts = (refl, refl)

is_private_ip-ranges_example :
    (is_private_ip is_ip (dotted 127 0 0 1) ≡ any (in_range (number32 127 0 0 1)) private_ranges)
    × (is_private_ip is_ip (mapped_dotted 127 0 0 1)
        ≡ any (in_range (number32 127 0 0 1)) private_ranges)
    × (is_private_ip is_ip (mapped_hex 127 0 0 1)
        ≡ any (in_range (number32 127 0 0 1)) private_ranges)
is_private_ip-ranges_example =
    is_private_ip-ranges is_ip 127 0 0 1 (omega arith) (omega arith) (omega arith) (omega arith)
      dotted_is_4 quad_is_6 hex_is_6

loopback_in_ranges : any (in_range (number32 127 0 0 1)) private_ranges ≡ true
loopback_in_ranges = refl

-- `h.x`, at 8.8.8.8, with the query `?id=7`.
abbrev host_name : Text
host_name = codes "h.x"

abbrev public_address : Text
public_address = codes "8.8.8.8"

abbrev home_address : Text
home_address = codes "192.168.0.9"

abbrev url : Url
url = record {
  protocol = https;
  username = [];
  password = [];
  hostname = host_name;
  port = none;
  pathname = codes "/";
  search = codes "?id=7";
  search_names = codes "id" ∷ [];
  hash = [];
}

abbrev platform : List Text → Platform
platform addresses = record {
  parse_url = λ raw. some url;
  is_ip = is_ip;
  decode = λ t. some t;
  lower_other = λ c. c ∷ [];
  resolve = λ host. ok addresses;
}

abbrev words : Denylist
words = denylist

abbrev target : SafeWebhookTarget
target = record {
  protocol = https;
  hostname = host_name;
  port = 443;
  path = codes "/?id=7";
  ip = public_address;
  ips = public_address ∷ [];
}

resolved : resolve_safe_webhook_target (platform (public_address ∷ [])) words false [] ≡ ok target
unfolding resolve_safe_webhook_target denylist assert_safe_webhook_url check_url check_params
    find_sensitive_query_param find_name find_in_parts split_query before_equals
    is_sensitive_param_name segments split_camel lower_case parts_of starts_with has_part text_eq
    without_brackets without_last addresses_of check_public target_of is_private_ip is_private_from
    is_private_v4 is_private_quad split_on numbers_of number_of has_char read_from
resolved = refl

resolve_safe_webhook_target-IsPublicTarget_example :
    IsPublicTarget is_ip target
    × ((u : Url) × (some url ≡ some u) × HasNoCredentials (platform (public_address ∷ [])) words u)
resolve_safe_webhook_target-IsPublicTarget_example =
    resolve_safe_webhook_target-IsPublicTarget (platform (public_address ∷ [])) words [] target
      resolved

-- One private address of two is enough to refuse the name.
one_private :
    resolve_safe_webhook_target (platform (public_address ∷ home_address ∷ [])) words false []
    ≡ err (not_public home_address)
unfolding resolve_safe_webhook_target denylist assert_safe_webhook_url check_url check_params
    find_sensitive_query_param find_name find_in_parts split_query before_equals
    is_sensitive_param_name segments split_camel lower_case parts_of starts_with has_part text_eq
    without_brackets without_last addresses_of check_public target_of is_private_ip is_private_from
    is_private_v4 is_private_quad split_on numbers_of number_of has_char read_from
one_private = refl

-- `apiKey` and `X-TOKEN` are names of credentials, `keyword` is none.
names :
    map
      (is_sensitive_param_name (λ c. c ∷ []) words)
      (codes "apiKey" ∷ codes "X-TOKEN" ∷ codes "keyword" ∷ [])
    ≡ true ∷ true ∷ false ∷ []
unfolding is_sensitive_param_name denylist segments split_camel lower_case parts_of starts_with
    has_part text_eq
names = refl

-- `https://u:p@h.x/hook/1?id=7`
abbrev secret_url : Url
secret_url = record url { username = codes "u"; password = codes "p"; pathname = codes "/hook/1" }

-- Neither the user nor the path nor the query is in the message.
redacted :
    error_message (some secret_url) credentials_in_url
    ≡ codes
        "Webhook URL rejected (credentials in URL): https://[REDACTED]@h.x/[REDACTED_PATH]?[REDACTED]"
unfolding error_message reason_of sanitize_url_for_display host_of text_eq
redacted = refl

-- A query without `=` is all name: `?token9f3` is in the message whole.
abbrev token_url : Url
token_url = record url { search = codes "?token9f3"; search_names = codes "token9f3" ∷ [] }

token_refused :
    check_url (platform []) words false token_url ≡ err (credential_parameter (codes "token9f3"))
unfolding resolve_safe_webhook_target denylist assert_safe_webhook_url check_url check_params
    find_sensitive_query_param find_name find_in_parts split_query before_equals
    is_sensitive_param_name segments split_camel lower_case parts_of starts_with has_part text_eq
    without_brackets without_last addresses_of check_public target_of is_private_ip is_private_from
    is_private_v4 is_private_quad split_on numbers_of number_of has_char read_from
token_refused = refl

token_in_message :
    error_message (some token_url) (credential_parameter (codes "token9f3"))
    ≡ codes
        "Webhook URL rejected (credential-bearing query parameter \"token9f3\" not allowed): https://h.x?[REDACTED]"
unfolding error_message reason_of sanitize_url_for_display host_of text_eq
token_in_message = refl

metadata :
    (webhook_url_audit_metadata
      (λ t. t)
      (codes "abc")
      (some (record url { port = some 8443 }))).url_host
    ≡ codes "h.x:8443"
unfolding webhook_url_audit_metadata host_of show_digits
metadata = refl
