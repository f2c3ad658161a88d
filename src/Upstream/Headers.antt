-- ===== src/Upstream/Headers.antt =====
-- The headers that go to an upstream and come back from it: internal/upstream/headers.go.
mod Tests
pub mod Names
pub mod Relay
use droid_proxy.Prelude.{
  Bool, true, false, not, ◌||◌, Option, none, some, List, [], ◌∷◌, ◌++◌, String, if◌then◌else◌,
  str_eq, any, filter,
}
use droid_proxy.Prelude.GoLibrary.{GoLibrary, to_lower}
use droid_proxy.Prelude.HeaderNames.{canonical_header_key, split_comma}
use droid_proxy.Prelude.Texts.{trim_space, is_prefix}
use droid_proxy.Prelude.Maps.{string_eq, lookup, insert}

-- `http.Header`; nil is the empty map.
abbrev pub Header : Type 0
Header = List (String × List String)

abbrev pub gateway_header_prefixes : List String
gateway_header_prefixes =
    "x-litellm-" ∷ "helicone-" ∷ "x-portkey-" ∷ "cf-aig-" ∷ "x-kong-" ∷ "x-bt-" ∷ []

abbrev pub hop_by_hop_headers : List String
hop_by_hop_headers =
    "Connection" ∷ "Keep-Alive" ∷ "Proxy-Authenticate" ∷ "Proxy-Authorization" ∷ "Proxy-Connection"
    ∷ "Te" ∷ "Trailer" ∷ "Transfer-Encoding" ∷ "Upgrade" ∷ "Set-Cookie" ∷ "Content-Length"
    ∷ "Content-Encoding" ∷ []

abbrev pub privacy_sensitive_intermediary_headers : List String
privacy_sensitive_intermediary_headers = "Via" ∷ []

abbrev pub reserved_outbound_headers : List String
reserved_outbound_headers =
    "Authorization" ∷ "Accept-Encoding" ∷ "X-Api-Key" ∷ "Api-Key" ∷ "Host" ∷ "Content-Length"
    ∷ "Connection" ∷ "Keep-Alive" ∷ "Proxy-Authenticate" ∷ "Proxy-Authorization"
    ∷ "Proxy-Connection" ∷ "Te" ∷ "Trailer" ∷ "Transfer-Encoding" ∷ "Upgrade" ∷ "Cookie"
    ∷ "Set-Cookie" ∷ "Forwarded" ∷ "X-Real-Ip" ∷ []

abbrev pub is_in : String → List String → Bool
is_in name names = any (str_eq name) names

-- IsReservedOutboundHeader.
unfoldable pub is_reserved_outbound_header : GoLibrary → String → Bool
is_reserved_outbound_header go name =
    let canonical = canonical_header_key (trim_space name) in
    if str_eq canonical ""
    then true
    else if is_in canonical reserved_outbound_headers
    then true
    else is_prefix "x-forwarded-" (to_lower go.lower canonical)

abbrev pub values_of : Option (List String) → List String
values_of none = []
values_of (some values) = values

-- The loop over the tokens of one value.
unfoldable pub scoped_names : List String → List String
scoped_names [] = []
scoped_names (token ∷ tokens) =
    let name = trim_space token in
    let rest = scoped_names tokens in
    if str_eq name "" then rest else canonical_header_key name ∷ rest

-- The loop over the values of Connection.
unfoldable pub scoped_by : List String → List String
scoped_by [] = []
scoped_by (raw ∷ values) = scoped_names (split_comma raw) ++ scoped_by values

unfoldable pub connection_scoped_headers : Header → List String
connection_scoped_headers src = scoped_by (values_of (lookup "Connection" src))

-- Whether the loop of FilterHeaders leaves a key out.
unfoldable pub is_withheld : GoLibrary → List String → String → Bool
is_withheld go scoped key =
    let canonical = canonical_header_key key in
    is_in canonical hop_by_hop_headers
    || is_in canonical scoped
    || is_in canonical privacy_sensitive_intermediary_headers
    || any (λ prefix. is_prefix prefix (to_lower go.lower key)) gateway_header_prefixes

unfoldable pub filter_headers : GoLibrary → Header → Header
filter_headers go src = filter (λ e. not (is_withheld go (connection_scoped_headers src) e.0)) src

abbrev first_of : List String → String
first_of [] = ""
first_of (v ∷ vs) = v

-- `dst.Get(key)`.
unfoldable pub get : String → Header → String
get key dst = first_of (values_of (lookup (canonical_header_key key) dst))

-- `dst.Add(key, v)`.
unfoldable pub add : String → String → Header → Header
add key v dst =
    let canonical = canonical_header_key key in
    insert canonical (values_of (lookup canonical dst) ++ (v ∷ [])) dst

unfoldable pub add_all : String → List String → Header → Header
add_all key [] dst = dst
add_all key (v ∷ vs) dst = add_all key vs (add key v dst)

unfoldable pub relay_each : Header → Header → Header
relay_each [] dst = dst
relay_each ((key, values) ∷ rest) dst =
    relay_each rest (if str_eq (get key dst) "" then add_all key values dst else dst)

-- CopyHeaders.
unfoldable pub copy_headers : GoLibrary → Header → Header → Header
copy_headers go dst src = relay_each (filter_headers go src) dst
