-- ===== src/Tests/Gateway.antt =====
-- The headers of a request.
use mcpglass.Base.{ℕ, Deleted, none, some, List, [], ◌∷◌, ◌≡◌, refl}
use mcpglass.Base.Text.{Text, codes, text_eq}
use mcpglass.Gateway.{
  Header, find_header, is_end, before_end, extract_host, is_loopback_name, is_localhost_host,
  passes_value, origin_allowed, host_allowed, request_allowed, filter_request_headers,
}
use mcpglass.Gateway.Loopback.{OpensWithLoopback, request_allowed-OpensWithLoopback}
use mcpglass.Gateway.Headers.{IsWithheld, filter_request_headers-Deleted}

abbrev headers : List Header
headers =
    record { name = codes "host"; value = some (codes "localhost:80") }
    ∷ record { name = codes "connection"; value = some (codes "x-hop, te") }
    ∷ record { name = codes "x-hop"; value = none }
    ∷ record { name = codes "authorization"; value = some (codes "key") }
    ∷ []

request_allowed-OpensWithLoopback_example :
    (h : Header) × (host : Text) × (find_header (codes "host") headers ≡ some h)
    × (h.value ≡ some host)
    × OpensWithLoopback host
unfolding request_allowed origin_allowed host_allowed find_header text_eq passes_value
    is_localhost_host extract_host before_end is_end is_loopback_name
request_allowed-OpensWithLoopback_example = request_allowed-OpensWithLoopback headers refl

filter_request_headers-Deleted_example :
    (n : ℕ) × Deleted
      (IsWithheld (λ s. s) headers)
      (λ h. ¬ IsWithheld (λ s. s) headers h)
      headers
      (filter_request_headers (λ s. s) headers)
      n
filter_request_headers-Deleted_example =
    filter_request_headers-Deleted (λ s. s) headers
      ((λ e. cc), ((λ e. cc), ((λ e. cc), ((λ e. cc), tt))))
