-- ===== src/Validation/Hosts.antt =====
-- Domains, links, DNS record fields and hosts in frontend/src/validation.ts. `to_lower_case` is the
-- platform's `toLowerCase`, whose Unicode tables are not part of the program.
pub mod Domain
pub mod Link
use vantric.Prelude.{
  ℕ, Bool, true, false, not, ◌&&◌, ◌||◌, Option, none, some, String, List, [], ◌∷◌, ◌++◌, map, ltb,
  leb, ◌==◌, if◌then◌else◌, length, take, drop, every, any_of,
}
use vantric.Prelude.Text.{
  Text, text, same, among, is_empty, is_space, trim, has, starts, ends, split, join, is_digit,
  is_lower, lower_ascii, without_last,
}
use vantric.Regex.{Regex, eps, cls, seq, star, plus, opt, test, label}
use vantric.Validation.Names.{lower_or_digit, letter, alphanumeric, instance_unit}
use vantric.Validation.Ipv4.{is_ipv4}
use vantric.Validation.Ipv6.{is_ipv6}

-- `[a-z0-9-]`
abbrev pub domain_unit : ℕ → Bool
domain_unit c = lower_or_digit c || c == b'-'

abbrev pub is_dot : ℕ → Bool
is_dot c = c == b'.'

-- `[a-z0-9]([a-z0-9-]*[a-z0-9])?`
abbrev pub domain_label : Regex
domain_label = label lower_or_digit domain_unit lower_or_digit

-- `/^[a-z0-9]([a-z0-9-]*[a-z0-9])?(\.[a-z0-9]([a-z0-9-]*[a-z0-9])?)+$/`
unfoldable pub domain_re : Regex
domain_re = seq domain_label (plus (seq (cls is_dot) domain_label))

-- `/^https?:\/\//.test(s)`
pub starts_http : Text → Bool
starts_http s = starts (text "http://") s || starts (text "https://") s

pub domain_error : (Text → Text) → Text → Option Text
unfolding domain_re starts_http
domain_error to_lower_case value =
    let domain = to_lower_case (trim value) in
    if is_empty domain
    then none
    else if starts_http domain
    then some (text "Enter just the domain, without http:// or https://")
    else if ends (text ".") domain
    then some (text "Leave off the trailing dot")
    else if not (has b'.' domain)
    then some (text "Include the full domain, e.g. example.com")
    else if not (test domain_re domain)
    then some (text "Enter a domain like example.com")
    else none

-- The expression that matches one text only.
pub lit : Text → Regex
lit [] = eps
lit (c ∷ s) = seq (cls (λ d. d == c)) (lit s)

-- `/^https?:\/\/\S+$/`
pub url_re : Regex
unfolding lit
url_re =
    seq (lit (text "http"))
      (seq (opt (lit (text "s"))) (seq (lit (text "://")) (plus (cls (λ c. not (is_space c))))))

pub url_error : Text → Option Text
unfolding url_re
url_error value =
    if is_empty (trim value)
    then none
    else if not (test url_re (trim value))
    then some (text "Must be a full http:// or https:// address")
    else none

abbrev pub shortcut_schemes : List Text
shortcut_schemes =
    text "http"
    ∷ text "https"
    ∷ text "rdp"
    ∷ text "vnc"
    ∷ text "ssh"
    ∷ text "sftp"
    ∷ text "smb"
    ∷ []

-- `[a-zA-Z0-9+.-]`
abbrev pub scheme_unit : ℕ → Bool
scheme_unit c = alphanumeric c || c == b'+' || c == b'.' || c == b'-'

-- The rest of a match of `[a-zA-Z0-9+.-]*:\/\/`: the units of the scheme and what follows the
-- slashes. No unit of a scheme is a colon, so there is one way to match.
pub scheme_tail : Text → Option (Text × Text)
scheme_tail [] = none
scheme_tail (c ∷ s) =
    let rest = scheme_tail s in
    if scheme_unit c
    then elim rest [ none ↦ none | some (scheme, address) ↦ some (c ∷ scheme, address) ]
    else if starts (text "://") (c ∷ s)
    then some ([], drop 3 (c ∷ s))
    else none

-- `/^([a-zA-Z][a-zA-Z0-9+.-]*):\/\//.exec(link)`: the first group and what follows the match
pub scheme_match : Text → Option (Text × Text)
unfolding scheme_tail
scheme_match [] = none
scheme_match (c ∷ s) =
    if letter c
    then elim (scheme_tail s) [ none ↦ none | some (scheme, address) ↦ some (c ∷ scheme, address) ]
    else none

-- `link.length > match[0].length` holds if something follows the match.
pub shortcut_link_error : Text → Option Text
unfolding scheme_match
shortcut_link_error value =
    let link = trim value in
    if is_empty link then none else elim (scheme_match link) [
      | none ↦
          if any_of alphanumeric (take 1 link) && not (any_of is_space link)
          then none
          else some (text "That doesn’t look like a link")
      | some (scheme, address) ↦
          if not (among (lower_ascii scheme) shortcut_schemes)
          then some (text "Links can be " ++ join (text ", ") shortcut_schemes)
          else if is_empty address
          then some (text "That link has no address after the scheme")
          else none
    ]

-- `[a-z0-9_]` and `[a-z0-9_-]`
abbrev pub record_end : ℕ → Bool
record_end c = lower_or_digit c || c == b'_'

abbrev pub record_unit : ℕ → Bool
record_unit c = record_end c || c == b'-'

-- `/^[a-z0-9_]([a-z0-9_-]*[a-z0-9_])?$/`
unfoldable pub record_label_re : Regex
record_label_re = label record_end record_unit record_end

abbrev pub bad_label : Text → Bool
bad_label part = not (test record_label_re part)

-- `labels.some((label, i) => !(label === '*' && i === 0) && …)`
pub any_bad_label : List Text → Bool
unfolding record_label_re
any_bad_label [] = false
any_bad_label (first ∷ rest) =
    (not (same first (text "*")) && bad_label first) || any_of bad_label rest

pub record_name_error : (Text → Text) → Text → Option Text
unfolding any_bad_label
record_name_error to_lower_case value =
    let name = to_lower_case (trim value) in
    if is_empty name || same name (text "@")
    then none
    else if ends (text ".") name
    then some (text "Leave off the trailing dot")
    else if has b' ' name
    then some (text "Names cannot contain spaces")
    else if any_bad_label (split b'.' name)
    then some (text "Letters, numbers and hyphens, e.g. www or api.dev")
    else none

-- `content.replace(/\.$/, '')`
pub without_last_dot : Text → Text
without_last_dot s = if ends (text ".") s then without_last 1 s else s

-- The name that a CNAME, MX, NS or PTR record points at.
pub target_error : (Text → Text) → Text → Option Text
unfolding without_last_dot starts_http domain_re
target_error to_lower_case content =
    let host = to_lower_case (without_last_dot content) in
    if starts_http host
    then some (text "Enter just the hostname, without http:// or https://")
    else if test domain_re host
    then none
    else some (text "Enter a hostname, e.g. mail.example.com")

pub record_value_error : (Text → Text) → Text → Text → Option Text
unfolding target_error
record_value_error to_lower_case type value =
    let content = trim value in
    if is_empty content
    then none
    else if same type (text "A")
    then (if is_ipv4 content then none else some (text "Enter an IPv4 address, e.g. 192.0.2.91"))
    else if same type (text "AAAA")
    then (if is_ipv6 content then none else some (text "Enter an IPv6 address, e.g. 2001:db8::1"))
    else if same type (text "CNAME")
        || same type (text "MX")
        || same type (text "NS")
        || same type (text "PTR")
    then target_error to_lower_case content
    else none

-- `/^[a-z0-9]([a-z0-9-]*[a-z0-9])?(\.[a-z0-9]([a-z0-9-]*[a-z0-9])?)*$/i`
unfoldable pub host_re : Regex
host_re =
    let host_label = label alphanumeric instance_unit alphanumeric in
    seq host_label (star (seq (cls is_dot) host_label))

-- `host.replace(/^\[|\]$/g, '')`
pub without_brackets : Text → Text
without_brackets host =
    let inner = if starts (text "[") host then drop 1 host else host in
    if ends (text "]") inner then without_last 1 inner else inner

pub host_error : Text → Option Text
unfolding starts_http host_re without_brackets
host_error value =
    let host = trim value in
    let bare = without_brackets host in
    if is_empty host
    then none
    else if starts_http host
    then some (text "Enter just the host, without http:// or https://")
    else if has b'/' host
    then some (text "Enter just the host, without a path")
    else if has b':' host && not (starts (text "[") host)
    then (if is_ipv6 host
        then none
        else some (text "Put the port in its own field, not after a colon"))
    else if is_ipv4 bare || is_ipv6 bare
    then none
    else if test host_re bare
    then none
    else some (text "Enter a hostname or IP address")

-- `[A-Za-z0-9_%.:*/-]`
abbrev pub pattern_unit : ℕ → Bool
pattern_unit c =
    alphanumeric c
    || c == b'_'
    || c == b'%'
    || c == b'.'
    || c == b':'
    || c == b'*'
    || c == b'/'
    || c == b'-'

pub host_pattern_error : Text → Option Text
host_pattern_error value =
    let host = trim value in
    if is_empty host
    then some (text "A host is required — use % for any host")
    else if any_of is_space host
    then some (text "No spaces")
    else if not (test (plus (cls pattern_unit)) host)
    then some (text "Use a host name, an address, or a pattern with %")
    else if ltb 255 (length host)
    then some (text "Keep it under 256 characters")
    else none
