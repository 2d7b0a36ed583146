-- ===== src/Dns/Transport/Usable.antt =====
-- The client that the constructor of `DNSUpstream` of dns_engine/upstream.py makes can be used.
use sentinel_dns.Common.{
  ℕ, ◌≤◌, ◌≡◌, refl, ap, ◌∙◌, subst, true, false, not, ◌||◌, some, List, [], ◌∷◌, arith, Text,
  codes, ltb, ◌==◌, length, text_eq, text_eq_iff,
}
use sentinel_dns.Common.Exec.{Result, ok, value_error}
use sentinel_dns.Common.Ensures.{
  Ensures, Ensures-ok, Ensures-err, Ensures-if, Ensures-and_then, Ensures-bind, Ensures-value,
}
use sentinel_dns.Text.{strip, lower}
use sentinel_dns.Dns.Upstream.{Upstream}
use sentinel_dns.Dns.Transport.Client.{
  Timeout, is_over, Endpoint, endpoint, Provider, validate_provider,
}
use sentinel_dns.Dns.Transport.Build.{
  Client, Settings, Options, or_setting, build_udp, build_dot, build_doh, build,
}

-- a server to send to, within the range of a port, with a timeout, and that may answer with a header
pub record IsEndpoint (e : Endpoint) : Type 0 where
  pub named : 1 ≤ length e.server
  pub port_least : 1 ≤ e.port
  pub port_most : e.port ≤ 65535
  pub waits : is_over e.timeout ≡ false
  pub accepts : 12 ≤ e.max_response_size

endpoint-IsEndpoint :
    (server : Text) (port : ℕ) (timeout : Timeout) (max_response_size : ℕ)
    → Ensures IsEndpoint (endpoint server port timeout max_response_size)
unfolding endpoint
endpoint-IsEndpoint server port timeout max_response_size =
    Ensures-if (length server == 0) (λ _. Ensures-err value_error)
      λ named.
        Ensures-if (port == 0 || ltb 65535 port) (λ _. Ensures-err value_error)
          λ ranged.
            Ensures-if (is_over timeout) (λ _. Ensures-err value_error)
              λ waits.
                Ensures-if (ltb max_response_size 12) (λ _. Ensures-err value_error)
                  λ accepts. Ensures-ok _ (record {
                    named = ground arith;
                    port_least = ground arith;
                    port_most = ground arith;
                    waits = waits;
                    accepts = ground arith;
                  })

module _ (urlparse : Text → Result (Text × Text)) where
  -- an HTTPS endpoint with a netloc that is not empty
  pub record IsProvider (p : Provider) : Type 0 where
    pub netloc : Text
    pub https : urlparse p.endpoint ≡ ok (codes "https", netloc)
    pub named : 1 ≤ length netloc
    pub waits : is_over p.timeout ≡ false
    pub accepts : 512 ≤ p.max_response_size

  validate_provider-IsProvider :
      (p : Provider) → Ensures (λ _. IsProvider p) (validate_provider urlparse p)
  unfolding validate_provider
  validate_provider-IsProvider p = Ensures-and_then (urlparse p.endpoint) λ parsed reads.
      Ensures-if (not (text_eq parsed.0 (codes "https"))) (λ _. Ensures-err value_error)
        λ https.
          Ensures-if (length parsed.1 == 0) (λ _. Ensures-err value_error)
            λ named.
              Ensures-if (is_over p.timeout) (λ _. Ensures-err value_error)
                λ waits.
                  Ensures-if (ltb p.max_response_size 512) (λ _. Ensures-err value_error)
                    λ accepts. Ensures-ok tt (record {
                      netloc = parsed.1;
                      https =
                          reads
                          ∙ ap (λ x. ok (x, parsed.1))
                              (ground (arith, text_eq_iff parsed.0 (codes "https")));
                      named = ground arith;
                      waits = waits;
                      accepts = ground arith;
                    })

  abbrev pub IsUsable : Client → Type 0
  IsUsable (Client.udp e) = IsEndpoint e
  IsUsable (Client.dot e) = IsEndpoint e
  IsUsable (Client.doh p) = IsProvider p

  abbrev pub transport_of : Client → Text
  transport_of (Client.udp e) = codes "udp"
  transport_of (Client.dot e) = codes "dot"
  transport_of (Client.doh p) = codes "doh"

  -- the upstream has a client, of its transport, that can be used
  pub record IsBuilt (transport : Text) (u : Upstream Client) : Type 0 where
    pub client : Client
    pub has : u.client ≡ some client
    pub usable : IsUsable client
    pub of_transport : transport_of client ≡ u.transport
    pub asked : u.transport ≡ transport

  build_udp-IsBuilt :
      (servers : List Text) (timeout : Timeout) (max_response_size : ℕ)
      → Ensures (IsBuilt (codes "udp")) (build_udp servers timeout max_response_size)
  unfolding build_udp
  build_udp-IsBuilt [] timeout max_response_size = Ensures-err value_error
  build_udp-IsBuilt (server ∷ servers) timeout max_response_size =
      Ensures-bind (endpoint server 53 timeout max_response_size)
        (endpoint-IsEndpoint server 53 timeout max_response_size)
        λ e usable. Ensures-ok _ (record {
          client = Client.udp e;
          has = refl;
          usable = usable;
          of_transport = refl;
          asked = refl;
        })

  build_dot-IsBuilt :
      (server : Text) (port : ℕ) (timeout : Timeout) (max_response_size : ℕ)
      → Ensures (IsBuilt (codes "dot")) (build_dot server port timeout max_response_size)
  unfolding build_dot
  build_dot-IsBuilt server port timeout max_response_size =
      Ensures-bind (endpoint server port timeout max_response_size)
        (endpoint-IsEndpoint server port timeout max_response_size)
        λ e usable. Ensures-ok _ (record {
          client = Client.dot e;
          has = refl;
          usable = usable;
          of_transport = refl;
          asked = refl;
        })

  build_doh-IsBuilt : (p : Provider) → Ensures (IsBuilt (codes "doh")) (build_doh urlparse p)
  unfolding build_doh
  build_doh-IsBuilt p =
      Ensures-bind (validate_provider urlparse p) (validate_provider-IsProvider p) λ _ usable.
        Ensures-and_then (validate_provider urlparse p) λ _ _. Ensures-ok _ (record {
          client = Client.doh p;
          has = refl;
          usable = usable;
          of_transport = refl;
          asked = refl;
        })

  -- the transport that is asked for
  abbrev pub asked_transport : Settings → Options → Text
  asked_transport settings o = lower (strip (or_setting o.transport settings.transport))

  as_asked :
      (transport name : Text) {r : Result (Upstream Client)}
      → text_eq transport name ≡ true
      → Ensures (IsBuilt name) r
      → Ensures (IsBuilt transport) r
  as_asked transport name {r} e h =
      subst (λ x. Ensures (IsBuilt x) r) (ground (arith, text_eq_iff transport name)) h

  build-Ensures :
      (settings : Settings) (o : Options)
      → Ensures (IsBuilt (asked_transport settings o)) (build urlparse settings o)
  unfolding build
  build-Ensures settings o =
      Ensures-if (text_eq (asked_transport settings o) (codes "udp"))
        (λ e. as_asked (asked_transport settings o) (codes "udp") e (
          build_udp-IsBuilt (or_setting o.udp_servers settings.servers)
            (or_setting o.udp_timeout settings.timeout)
            (or_setting o.udp_max_response_size settings.max_response_size)))
        λ _.
          Ensures-if (text_eq (asked_transport settings o) (codes "dot"))
            (λ e. as_asked (asked_transport settings o) (codes "dot") e (
              build_dot-IsBuilt (or_setting o.dot_server settings.dot_server)
                (or_setting o.dot_port settings.dot_port)
                (or_setting o.dot_timeout settings.dot_timeout)
                (or_setting o.dot_max_response_size settings.max_response_size)))
            λ _.
              Ensures-if (text_eq (asked_transport settings o) (codes "doh"))
                (λ e.
                  as_asked (asked_transport settings o) (codes "doh") e
                    (Ensures-and_then _ λ p _. build_doh-IsBuilt p))
                λ _. Ensures-err value_error

  -- When the constructor of `DNSUpstream` returns, whatever the settings and the arguments are: the
  -- upstream has the transport that was asked for, or else that of the settings, and a client of that
  -- transport. The client of UDP or TLS has a server that is no empty text, a port from 1 to 65535, a
  -- timeout for which `timeout <= 0` is false (NaN is one), and accepts twelve bytes at least; that of
  -- HTTPS has an endpoint whose scheme is https and whose netloc is not empty (which may be a port
  -- alone), such a timeout, and accepts 512 bytes at least.
  pub build-IsBuilt :
      (settings : Settings) (o : Options) (u : Upstream Client)
      → build urlparse settings o ≡ ok u
      → IsBuilt (asked_transport settings o) u
  build-IsBuilt settings o u e =
      Ensures-value (build urlparse settings o) u (build-Ensures settings o) e
