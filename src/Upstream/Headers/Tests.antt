-- ===== src/Upstream/Headers/Tests.antt =====
-- The headers of a response with a token of Connection, a gateway's header and a cookie.
use droid_proxy.Prelude.{
  ◌≡◌, refl, true, false, Option, none, some, List, [], ◌∷◌, String, ◌⊎◌, str_eq, if◌then◌else◌,
}
use droid_proxy.Prelude.Maps.{string_eq, lookup, beq-apart, IsMap}
use droid_proxy.Samples.{plain_go}
use droid_proxy.Prelude.HeaderNames.{canonical_header_key}
use droid_proxy.Upstream.Headers.{Header, copy_headers, get, is_reserved_outbound_header, values_of}
use droid_proxy.Upstream.Headers.Names.{Withheld}
use droid_proxy.Upstream.Headers.Relay.{AllCanonical, extend, copy_headers_lem}

abbrev own : Header
own = ("Content-Type", "text/event-stream" ∷ []) ∷ []

abbrev response : Header
response =
    ("Content-Type", "application/json" ∷ [])
    ∷ ("Connection", "close, x-internal" ∷ [])
    ∷ ("X-Internal", "1" ∷ [])
    ∷ ("Set-Cookie", "a" ∷ "b" ∷ [])
    ∷ ("Via", "1.1 host" ∷ [])
    ∷ ("X-Request-Id", "r1" ∷ "r2" ∷ [])
    ∷ []

test_copied :
    copy_headers plain_go own response
    ≡ ("Content-Type", "text/event-stream" ∷ []) ∷ ("X-Request-Id", "r1" ∷ "r2" ∷ []) ∷ []
unfolding copy_headers droid_proxy.Upstream.Headers.relay_each
    droid_proxy.Upstream.Headers.filter_headers droid_proxy.Upstream.Headers.is_withheld
    canonical_header_key droid_proxy.Upstream.Headers.connection_scoped_headers
    droid_proxy.Upstream.Headers.scoped_by lookup droid_proxy.Upstream.Headers.scoped_names
    droid_proxy.Prelude.HeaderNames.split_comma droid_proxy.Prelude.Texts.trim_space
    droid_proxy.Prelude.Texts.is_prefix droid_proxy.Prelude.GoLibrary.to_lower get
    droid_proxy.Upstream.Headers.add_all droid_proxy.Upstream.Headers.add
    droid_proxy.Prelude.Maps.insert
test_copied = refl

test_reserved : is_reserved_outbound_header plain_go " x-real-ip " ≡ true
unfolding is_reserved_outbound_header canonical_header_key droid_proxy.Prelude.Texts.trim_space
test_reserved = refl

test_not_reserved : is_reserved_outbound_header plain_go "x-request-id" ≡ false
unfolding is_reserved_outbound_header canonical_header_key droid_proxy.Prelude.Texts.trim_space
    droid_proxy.Prelude.Texts.is_prefix droid_proxy.Prelude.GoLibrary.to_lower
test_not_reserved = refl

response-AllCanonical : AllCanonical response
unfolding canonical_header_key
response-AllCanonical = (refl, (refl, (refl, (refl, (refl, (refl, tt))))))

response-IsMap : IsMap response
response-IsMap = (
  (
    beq-apart {K = String} "Connection" "Content-Type" refl,
    (
      beq-apart {K = String} "X-Internal" "Content-Type" refl,
      (
        beq-apart {K = String} "Set-Cookie" "Content-Type" refl,
        (
          beq-apart {K = String} "Via" "Content-Type" refl,
          (beq-apart {K = String} "X-Request-Id" "Content-Type" refl, tt),
        ),
      ),
    ),
  ),
  (
    (
      beq-apart {K = String} "X-Internal" "Connection" refl,
      (
        beq-apart {K = String} "Set-Cookie" "Connection" refl,
        (
          beq-apart {K = String} "Via" "Connection" refl,
          (beq-apart {K = String} "X-Request-Id" "Connection" refl, tt),
        ),
      ),
    ),
    (
      (
        beq-apart {K = String} "Set-Cookie" "X-Internal" refl,
        (
          beq-apart {K = String} "Via" "X-Internal" refl,
          (beq-apart {K = String} "X-Request-Id" "X-Internal" refl, tt),
        ),
      ),
      (
        (
          beq-apart {K = String} "Via" "Set-Cookie" refl,
          (beq-apart {K = String} "X-Request-Id" "Set-Cookie" refl, tt),
        ),
        ((beq-apart {K = String} "X-Request-Id" "Via" refl, tt), (tt, tt)),
      ),
    ),
  ),
)

copy_headers_lem_example :
    (Withheld plain_go response "X-Request-Id"
      × (lookup "X-Request-Id" (copy_headers plain_go own response) ≡ lookup "X-Request-Id" own))
    ⊎ ((¬ Withheld plain_go response "X-Request-Id")
        × (lookup "X-Request-Id" (copy_headers plain_go own response) ≡ (
            if str_eq (get "X-Request-Id" own) ""
            then extend (lookup "X-Request-Id" own) (values_of (lookup "X-Request-Id" response))
            else lookup "X-Request-Id" own)))
unfolding canonical_header_key
copy_headers_lem_example =
    copy_headers_lem plain_go own response "X-Request-Id" response-AllCanonical response-IsMap refl
