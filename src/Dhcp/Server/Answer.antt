-- ===== src/Dhcp/Server/Answer.antt =====
-- The answers of dhcp/server.py, read back by the code that clients' packets are read by.
use sentinel_dns.Common.{
  Bool-cases, inl, inr, ℕ, ◌*◌, ◌/◌, ◌≤◌, ◌≡◌, refl, sym, ap, ◌∙◌, subst, Bool, true, some, List,
  [], ◌∷◌, ◌++◌, arith, Text, leb, ltb, length, text_eq,
}
use sentinel_dns.Common.Exec.{value_error, option_error, Result, ok, err, and_then}
use sentinel_dns.Common.Ensures.{
  Ensures, Ensures-if, Ensures-and_then, Ensures-ok, Ensures-err, Ensures-value, Ensures-bind,
}
use sentinel_dns.Dhcp.Options
use sentinel_dns.Dhcp.Options.{
  Bytes, DhcpOption, make_option, parse_options, encode_options, get_message_type,
}
use sentinel_dns.Dhcp.Options.RoundTrip.{All, IsOption, parse_options-encode_options}
use sentinel_dns.Dhcp.Packet
use sentinel_dns.Dhcp.Packet.{Packet, post_init, from_bytes}
use sentinel_dns.Dhcp.Packet.RoundTrip.{from_bytes-to_bytes}
use sentinel_dns.Dhcp.Server.{
  Config, append_option, append_address, append_times, inet_aton, pack_word, at_least_one, one_byte,
  response_options, response_packet, build_response,
}

-- options that begin with the message type `t`
abbrev Typed : ℕ → List DhcpOption → Type 0
Typed t os =
    All IsOption os × (rest : List DhcpOption) × (os ≡ record { code = 53; value = t ∷ [] } ∷ rest)

All-snoc :
    (os : List DhcpOption) (o : DhcpOption)
    → All IsOption os
    → IsOption o
    → All IsOption (os ++ o ∷ [])
All-snoc [] o h k = (k, tt)
All-snoc (p ∷ os) o h k = (h.0, All-snoc os o h.1 k)

make_option-IsOption :
    (code : ℕ) (value : Bytes) → 1 ≤ code → code ≤ 254 → Ensures IsOption (make_option code value)
unfolding make_option
make_option-IsOption code value lo hi =
    Ensures-if (leb code 255)
      (λ _.
        Ensures-if (ltb 255 (length value)) (λ _. Ensures-err option_error)
          λ short. Ensures-ok _ (record { not_pad = lo; not_end = hi; short = ground arith }))
      (λ _. Ensures-err option_error)

append_option-Typed :
    (t code : ℕ) (value : Result Bytes) (os : List DhcpOption)
    → 1 ≤ code
    → code ≤ 254
    → Typed t os
    → Ensures (Typed t) (append_option os code value)
append_option-Typed t code value os lo hi (h, rest, e) = Ensures-and_then value λ v _.
    Ensures-and_then (make_option code v) λ o made. Ensures-ok _ (
      All-snoc os o h (Ensures-value _ o (make_option-IsOption code v lo hi) made),
      rest ++ o ∷ [],
      ap (λ l. l ++ o ∷ []) e,
    )

append_address-Typed :
    (t code : ℕ) (address : Text) (os : List DhcpOption)
    → 1 ≤ code
    → code ≤ 254
    → Typed t os
    → Ensures (Typed t) (append_address os code address)
append_address-Typed t code address os lo hi h =
    Ensures-if (text_eq address []) (λ _. Ensures-ok os h)
      λ _. append_option-Typed t code (inet_aton address) os lo hi h

append_times-Typed :
    (t n : ℕ) (os : List DhcpOption) → Typed t os → Ensures (Typed t) (append_times n os)
unfolding append_times
append_times-Typed t n os h =
    Ensures-bind _ (append_option-Typed t 51 (pack_word n) os (omega arith) (omega arith) h)
      λ o1 h1.
        Ensures-bind _
          (append_option-Typed t 58 (pack_word (at_least_one (n / 2))) o1 (omega arith)
            (omega arith) h1)
          λ o2 h2.
            append_option-Typed t 59 (pack_word (at_least_one (n * 7 / 8))) o2 (omega arith)
              (omega arith) h2

first_option-Typed : (t : ℕ) → Ensures (Typed t) (append_option [] 53 (one_byte t))
unfolding make_option
first_option-Typed t = elim (Bool-cases (leb t 255)) [
  | inr large ↦ rw large (Ensures-err value_error)
  | inl fits ↦ rw fits (
      Ensures-ok _ (
        (record { not_pad = omega arith; not_end = omega arith; short = omega arith }, tt),
        [],
        refl,
      ))
]

response_options-Typed :
    (config : Config) (t : ℕ) (b : Bool) → Ensures (Typed t) (response_options config t b)
unfolding response_options
response_options-Typed config t b = Ensures-bind _ (first_option-Typed t) λ o1 h1.
    Ensures-bind _
      (append_option-Typed t 54 (inet_aton config.server_ip) o1 (omega arith) (omega arith) h1)
      λ o2 h2.
        Ensures-bind _
          (append_option-Typed t 1 (inet_aton config.subnet_mask) o2 (omega arith) (omega arith) h2)
          λ o3 h3.
            Ensures-bind _
              (append_address-Typed t 3 config.gateway o3 (omega arith) (omega arith) h3)
              λ o4 h4.
                Ensures-bind _
                  (append_address-Typed t 6 config.dns_server o4 (omega arith) (omega arith) h4)
                  λ o5 h5.
                    Ensures-if b (λ _. append_times-Typed t config.lease_time o5 h5)
                      (λ _. Ensures-ok o5 h5)

get_message_type-Typed :
    (t : ℕ) (os : List DhcpOption) → Typed t os → get_message_type os ≡ ok (some t)
unfolding get_message_type Options.get_option_value Options.get_option
get_message_type-Typed t os (_, rest, e) = rw e refl

post_init-same : (p q : Packet) → post_init p ≡ ok q → p ≡ q
unfolding post_init
post_init-same p q e = ground arith

-- `__post_init__` does not read the options
post_init_options :
    (p : Packet) (o : Bytes)
    → post_init p ≡ ok p
    → post_init (record p { options = o }) ≡ ok (record p { options = o })
unfolding post_init Packet.numbers_fit
post_init_options p o e = ground arith

-- what a client reads in the answer to `request`
pub record IsAnswer (request : Packet) (t : ℕ) (yiaddr server_ip : Text) (p : Packet) : Type 0 where
  pub reply : p.op ≡ 2
  pub same_xid : p.xid ≡ request.xid
  pub same_flags : p.flags ≡ request.flags
  pub same_chaddr : p.chaddr ≡ request.chaddr
  pub same_giaddr : p.giaddr ≡ request.giaddr
  pub address : p.yiaddr ≡ yiaddr
  pub server : p.siaddr ≡ server_ip
  pub options : List DhcpOption
  pub parsed : parse_options p.options ≡ ok options
  pub typed : get_message_type options ≡ ok (some t)

abbrev Written : Config → Packet → ℕ → Text → Packet → Type 0
Written config request t yiaddr p =
    (post_init p ≡ ok p) × IsAnswer request t yiaddr config.server_ip p

response_packet-Written :
    (config : Config) (request : Packet) (t : ℕ) (yiaddr : Text) (b : Bool)
    → Ensures (Written config request t yiaddr) (response_packet config request t yiaddr b)
unfolding response_packet Packet.copy
response_packet-Written config request t yiaddr b =
    Ensures-and_then (post_init (bare config request yiaddr)) λ response e.
      Ensures-bind _ (response_options-Typed config t b) λ os h.
        let same = post_init-same (bare config request yiaddr) response e in
        Ensures-ok _ (
          post_init_options response (encode_options os true)
              (subst (λ q. post_init q ≡ ok response) same e),
          record {
            reply = ap (λ q. q.op) (sym same);
            same_xid = ap (λ q. q.xid) (sym same);
            same_flags = ap (λ q. q.flags) (sym same);
            same_chaddr = ap (λ q. q.chaddr) (sym same);
            same_giaddr = ap (λ q. q.giaddr) (sym same);
            address = ap (λ q. q.yiaddr) (sym same);
            server = ap (λ q. q.siaddr) (sym same);
            options = os;
            parsed = parse_options-encode_options os true h.0;
            typed = get_message_type-Typed t os h;
          },
        )
  where
    bare : Config → Packet → Text → Packet
    bare config request yiaddr = record request {
      op = 2;
      yiaddr = yiaddr;
      siaddr = config.server_ip;
      options = [];
    }

-- The bytes of an answer that `_build_response` makes are a packet that `from_bytes` reads: a reply with
-- the identifier, the flags, the hardware address and the relay address of the request, the address
-- that was to be given, and options that parse and carry the message type.
pub build_response-IsAnswer :
    (config : Config) (request : Packet) (t : ℕ) (yiaddr : Text) (b : Bool) (bytes : Bytes)
    → build_response config request t yiaddr b ≡ ok bytes
    → (p : Packet) × (from_bytes bytes ≡ ok p) × IsAnswer request t yiaddr config.server_ip p
unfolding build_response
build_response-IsAnswer config request t yiaddr b bytes e =
    go (response_packet config request t yiaddr b)
      (response_packet-Written config request t yiaddr b) e
  where
    go :
        (r : Result Packet)
        → Ensures (Written config request t yiaddr) r
        → and_then r Packet.to_bytes ≡ ok bytes
        → (p : Packet) × (from_bytes bytes ≡ ok p) × IsAnswer request t yiaddr config.server_ip p
    go (err x) h k = absurd (ground arith)
    go (ok p) h k =
        (p, sym (ap (λ r. and_then r from_bytes) k) ∙ from_bytes-to_bytes p h.holds.0, h.holds.1)
