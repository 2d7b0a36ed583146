-- ===== src/Dns/Transport/Client.antt =====
-- `UDPClient` of dns_engine/udp/client.py, `DoTClient` of dns_engine/dot/client.py, `DoHProvider` of
-- dns_engine/doh/provider.py and `DoHClient` of dns_engine/doh/client.py. The sockets, the TLS
-- connection and httpx are parameters, and so is `urlparse`.
use sentinel_dns.Common.{
  ℕ, zero, suc, ◌-◌, Bool, true, false, not, ◌&&◌, ◌||◌, Option, none, some, [], ◌∷◌, ◌++◌, Text,
  codes, ltb, ◌==◌, length, take, text_eq, if◌then◌else◌,
}
use sentinel_dns.Common.Exec.{
  value_error, os_error, struct_error, Result, ok, err, and_then, Exec, raise, lift, ◌>>=◌, ◌>>◌,
}
use sentinel_dns.Common.Dict
use sentinel_dns.Common.Dict.{Dict}
use sentinel_dns.Text.{lower}
use sentinel_dns.Dns.Models.{Bytes}
use sentinel_dns.Dns.Parser.{word_at}
use sentinel_dns.Dns.Response.{pack_word}

abbrev pub min_dns_packet_size : ℕ
min_dns_packet_size = 12

-- a timeout as a float, in microseconds where it is a finite number
pub data Timeout : Type 0 where
  not_a_number infinite negative : Timeout
  microseconds : ℕ → Timeout

-- timeout <= 0, which is false of what is no number
abbrev pub is_over : Timeout → Bool
is_over Timeout.not_a_number = false
is_over Timeout.infinite = false
is_over Timeout.negative = true
is_over (Timeout.microseconds n) = n == 0

-- the attributes of `UDPClient` and of `DoTClient`
pub record Endpoint : Type 0 where
  pub server : Text
  pub port : ℕ
  pub timeout : Timeout
  pub max_response_size : ℕ

-- the checks of the two constructors, which are the same
unfoldable pub endpoint : Text → ℕ → Timeout → ℕ → Result Endpoint
endpoint server port timeout max_response_size =
    if length server == 0
    then err value_error
    else if port == 0 || ltb 65535 port
    then err value_error
    else if is_over timeout
    then err value_error
    else if ltb max_response_size min_dns_packet_size
    then err value_error
    else ok (record {
      server = server;
      port = port;
      timeout = timeout;
      max_response_size = max_response_size;
    })

-- `_validate_response` of the three clients, by the size that the client accepts
unfoldable pub validate_response : ℕ → Bytes → Bytes → Result (Unit {0})
validate_response max_response_size request response =
    if ltb (length response) min_dns_packet_size
    then err value_error
    else if ltb max_response_size (length response)
    then err value_error
    else if not (text_eq (take 2 request) (take 2 response))
    then err value_error
    else ok tt

-- the response, after the checks
unfoldable pub validated : ℕ → Bytes → Bytes → Result Bytes
unfolding validate_response
validated max_response_size request response =
    and_then (validate_response max_response_size request response) λ _. ok response

-- `sendto`, then `recvfrom` of at most so many bytes, on a new socket
pub record Datagrams (State : Type 0) : Type 0 where
  pub exchange : Endpoint → Bytes → Exec State Bytes

module _ {State : Type 0} (net : Datagrams State) where
  -- `UDPClient.query`
  unfoldable pub udp_query : Endpoint → Bytes → Exec State Bytes
  unfolding raise lift validated ◌>>=◌
  udp_query client packet =
      if ltb (length packet) min_dns_packet_size
      then raise value_error
      else (net.exchange client packet >>= λ response.
          lift (validated client.max_response_size packet response))

-- the result of a loop on fuel
abbrev pub or_stuck : Option (Result Bytes) → Result Bytes
or_stuck none = err os_error
or_stuck (some r) = r

-- a TLS connection: `connect` makes it and sends, `recv` gives what has arrived, up to a size, and
-- nothing when the connection has been closed
pub record Stream (State : Type 0) : Type 0 where
  pub connect : Endpoint → Bytes → Exec State (Unit {0})
  pub recv : ℕ → Exec State Bytes

module _ {State : Type 0} (tls : Stream State) where
  -- The loop of `_recv_exact`, on fuel: `none` when it has not ended after that many turns.
  unfoldable pub recv_loop : ℕ → ℕ → Bytes → State → Option (Result Bytes) × State
  recv_loop zero size data_so_far s =
      if ltb (length data_so_far) size then (none, s) else (some (ok data_so_far), s)
  recv_loop (suc fuel) size data_so_far s = elim (ltb (length data_so_far) size) [
    | false ↦ (some (ok data_so_far), s)
    | true ↦ elim (tls.recv (size - length data_so_far) s).0 [
      | err e ↦ (some (err e), (tls.recv (size - length data_so_far) s).1)
      | ok [] ↦ (some (err os_error), (tls.recv (size - length data_so_far) s).1)
      | ok (b ∷ chunk) ↦
          recv_loop fuel size (data_so_far ++ b ∷ chunk) (tls.recv (size - length data_so_far) s).1
    ]
  ]

  -- `_recv_exact`: every turn that goes on reads a byte at least
  unfoldable pub recv_exact : ℕ → Exec State Bytes
  unfolding recv_loop
  recv_exact size s = let (result, s') = recv_loop size size [] s in (or_stuck result, s')

  -- the response behind its length
  unfoldable pub dot_response : Endpoint → Bytes → Bytes → Exec State Bytes
  unfolding raise lift recv_exact validated ◌>>=◌
  dot_response client packet length_data =
      let response_length = word_at 0 length_data in
      if ltb response_length min_dns_packet_size
      then raise value_error
      else if ltb client.max_response_size response_length
      then raise value_error
      else (recv_exact response_length >>= λ response.
          lift (validated client.max_response_size packet response))

  -- `DoTClient.query`; a packet whose length is no 16-bit number cannot be packed
  unfoldable pub dot_query : Endpoint → Bytes → Exec State Bytes
  unfolding raise recv_exact dot_response ◌>>=◌
  dot_query client packet =
      if ltb (length packet) min_dns_packet_size
      then raise value_error
      else if ltb 65535 (length packet)
      then raise struct_error
      else (tls.connect client (pack_word (length packet) ++ packet)
          >> (recv_exact 2 >>= dot_response client packet))

-- `DoHProvider`
pub record Provider : Type 0 where
  pub name : Text
  pub endpoint : Text
  pub timeout : Timeout
  pub max_response_size : ℕ

-- `urlparse`: the scheme and the netloc
module _ (urlparse : Text → Result (Text × Text)) where
  -- `validate`
  unfoldable pub validate_provider : Provider → Result (Unit {0})
  validate_provider provider = and_then (urlparse provider.endpoint) λ parsed.
      if not (text_eq parsed.0 (codes "https"))
      then err value_error
      else if length parsed.1 == 0
      then err value_error
      else if is_over provider.timeout
      then err value_error
      else if ltb provider.max_response_size 512
      then err value_error
      else ok tt

  -- `create_custom_provider`
  unfoldable pub create_custom_provider : Text → Timeout → ℕ → Result Provider
  unfolding validate_provider
  create_custom_provider endpoint timeout max_response_size =
      let provider : Provider = record {
        name = codes "custom";
        endpoint = endpoint;
        timeout = timeout;
        max_response_size = max_response_size;
      } in
      and_then (validate_provider provider) λ _. ok provider

abbrev pub builtin : Text → Text → Provider
builtin name endpoint = record {
  name = name;
  endpoint = endpoint;
  timeout = Timeout.microseconds 5000000;
  max_response_size = 4096;
}

-- `_BUILTIN_PROVIDERS`
abbrev pub builtin_providers : Dict Provider
builtin_providers =
    (
      codes "cloudflare",
      builtin (codes "cloudflare") (codes "https://cloudflare-dns.com/dns-query"),
    )
    ∷ (codes "google", builtin (codes "google") (codes "https://dns.google/dns-query"))
    ∷ (codes "quad9", builtin (codes "quad9") (codes "https://dns.quad9.net/dns-query"))
    ∷ []

abbrev pub or_unknown : Option Provider → Result Provider
or_unknown none = err value_error
or_unknown (some provider) = ok provider

-- `get_provider`
unfoldable pub get_provider : Text → Result Provider
unfolding lower
get_provider name = or_unknown (Dict.get (lower name) builtin_providers)

-- what `httpx.Client.post` gives: `status_code`, the header `Content-Type` and the content
pub record Reply : Type 0 where
  pub status_code : ℕ
  pub content_type : Text
  pub content : Bytes

-- `in` on texts
unfoldable pub starts_with : Text → Text → Bool
starts_with [] s = true
starts_with (c ∷ p) [] = false
starts_with (c ∷ p) (d ∷ s) = c == d && starts_with p s

unfoldable pub is_within : Text → Text → Bool
unfolding starts_with
is_within p [] = starts_with p []
is_within p (c ∷ s) = starts_with p (c ∷ s) || is_within p s

-- the checks of the HTTP response
unfoldable pub check_reply : Provider → Bytes → Reply → Result Bytes
unfolding lower is_within validated
check_reply provider packet reply =
    if not (reply.status_code == 200)
    then err os_error
    else if not (is_within (codes "application/dns-message") (lower reply.content_type))
    then err os_error
    else validated provider.max_response_size packet reply.content

-- `post` and `close`; the exceptions of `post`, and those of the package that the client makes of them, are `os_error` here
pub record Http (State : Type 0) : Type 0 where
  pub post : Provider → Bytes → Exec State Reply
  pub close : Provider → Exec State (Unit {0})

module _ {State : Type 0} (http : Http State) where
  -- `DoHClient.query`
  unfoldable pub doh_query : Provider → Bytes → Exec State Bytes
  unfolding raise lift check_reply ◌>>=◌
  doh_query provider packet =
      if ltb (length packet) min_dns_packet_size
      then raise value_error
      else (http.post provider packet >>= λ reply. lift (check_reply provider packet reply))
