-- ===== src/Dhcp/Packet.antt =====
-- `DHCPPacket` of dhcp/packet.py: the BOOTP header, its checks, and its wire format.
pub mod RoundTrip
mod Tests
use Prim.Native.Nat.{bit_and}
use sentinel_dns.Common.{
  ℕ, zero, suc, ◌+◌, ◌-◌, ◌*◌, ◌/◌, ◌%◌, ◌≡◌, refl, Bool, true, false, ◌&&◌, not, Option, none,
  some, List, [], ◌∷◌, ◌++◌, map, Text, codes, leb, ltb, ◌==◌, length, take, drop, replicate,
  text_eq, if◌then◌else◌,
}
use sentinel_dns.Common.Exec.{Error, packet_error, struct_error, Result, ok, err, and_then}
use sentinel_dns.Text.{join}
use sentinel_dns.Ipv4
use sentinel_dns.Ipv4.{from_octets}
use sentinel_dns.Dhcp.Options.{Bytes}

pub record Packet : Type 0 where
  pub op : ℕ
  pub htype : ℕ
  pub hlen : ℕ
  pub hops : ℕ
  pub xid : ℕ
  pub secs : ℕ
  pub flags : ℕ
  pub ciaddr : Text
  pub yiaddr : Text
  pub siaddr : Text
  pub giaddr : Text
  pub chaddr : Bytes
  pub sname : Bytes
  pub file : Bytes
  pub options : Bytes

abbrev pub magic_cookie : Bytes
magic_cookie = 99 ∷ 130 ∷ 83 ∷ 99 ∷ []

abbrev pub header_size : ℕ
header_size = 236

abbrev pub min_packet_size : ℕ
min_packet_size = 240

abbrev pub is_some {ℓ} : {A : Type ℓ} → Option A → Bool
is_some none = false
is_some (some a) = true

-- `_validate_byte_field` and `_validate_ip`, as tests
abbrev pub validate_byte_field : Bytes → ℕ → Bool
validate_byte_field value expected_size = length value == expected_size

abbrev pub validate_ip : Text → Bool
validate_ip value = is_some (Ipv4.parse value)

-- the checks of the number fields in `__post_init__`, which `struct.pack` makes again
unfoldable pub numbers_fit : Packet → Bool
numbers_fit p =
    leb p.op 255
    && leb p.htype 255
    && leb p.hlen 255
    && leb p.hops 255
    && leb p.xid 0xFFFFFFFF
    && leb p.secs 0xFFFF
    && leb p.flags 0xFFFF

-- `__post_init__`; each failed check raises `DHCPPacketError`
unfoldable pub post_init : Packet → Result Packet
post_init p =
    if validate_byte_field p.chaddr 16
      && validate_byte_field p.sname 64
      && validate_byte_field p.file 128
      && validate_ip p.ciaddr
      && validate_ip p.yiaddr
      && validate_ip p.siaddr
      && validate_ip p.giaddr
      && numbers_fit p
    then ok p
    else err packet_error

abbrev or_packet_error {ℓ} : {A : Type ℓ} → Option A → Result A
or_packet_error none = err packet_error
or_packet_error (some a) = ok a

-- `_ip_to_bytes` and `_bytes_to_ip`
unfoldable pub ip_to_bytes : Text → Result Bytes
ip_to_bytes address = and_then (or_packet_error (Ipv4.parse address)) λ n. ok (Ipv4.packed n)

unfoldable pub bytes_to_ip : Bytes → Result Text
bytes_to_ip value = and_then (or_packet_error (Ipv4.unpack value)) λ n. ok (Ipv4.format n)

-- data[first:first + size]
abbrev pub slice : ℕ → ℕ → Bytes → Bytes
slice first size bytes = take size (drop first bytes)

-- the number fields of `struct.unpack("!…")`
unfoldable pub u8 : Bytes → ℕ
u8 (a ∷ rest) = a
u8 [] = 0

unfoldable pub u16 : Bytes → ℕ
u16 (a ∷ b ∷ rest) = 256 * a + b
u16 _ = 0

unfoldable pub u32 : Bytes → ℕ
u32 (a ∷ b ∷ c ∷ d ∷ rest) = from_octets a b c d
u32 _ = 0

-- the fields of the header and the options, with the addresses as texts
unfoldable pub read_packet : Bytes → Text → Text → Text → Text → Packet
read_packet bytes ciaddr yiaddr siaddr giaddr = record {
  op = u8 (slice 0 1 bytes);
  htype = u8 (slice 1 1 bytes);
  hlen = u8 (slice 2 1 bytes);
  hops = u8 (slice 3 1 bytes);
  xid = u32 (slice 4 4 bytes);
  secs = u16 (slice 8 2 bytes);
  flags = u16 (slice 10 2 bytes);
  ciaddr = ciaddr;
  yiaddr = yiaddr;
  siaddr = siaddr;
  giaddr = giaddr;
  chaddr = slice 28 16 bytes;
  sname = slice 44 64 bytes;
  file = slice 108 128 bytes;
  options = drop 240 bytes;
}

unfoldable pub from_bytes : Bytes → Result Packet
from_bytes bytes =
    if ltb (length bytes) min_packet_size
    then err packet_error
    else if not (text_eq (slice header_size 4 bytes) magic_cookie)
    then err packet_error
    else and_then (bytes_to_ip (slice 12 4 bytes)) λ ciaddr.
      and_then (bytes_to_ip (slice 16 4 bytes)) λ yiaddr.
        and_then (bytes_to_ip (slice 20 4 bytes)) λ siaddr.
          and_then (bytes_to_ip (slice 24 4 bytes))
            λ giaddr. post_init (read_packet bytes ciaddr yiaddr siaddr giaddr)

abbrev pub pack16 : ℕ → Bytes
pack16 n = (n / 256 % 256) ∷ (n % 256) ∷ []

-- the format `<size>s`: cut or filled up with zeros
unfoldable pub fixed : ℕ → Bytes → Bytes
fixed size value = take size (value ++ replicate size 0)

unfoldable pub to_bytes : Packet → Result Bytes
to_bytes p = and_then (ip_to_bytes p.ciaddr) λ ciaddr. and_then (ip_to_bytes p.yiaddr) λ yiaddr.
    and_then (ip_to_bytes p.siaddr) λ siaddr. and_then (ip_to_bytes p.giaddr) λ giaddr.
      if numbers_fit p
      then ok (
          p.op
          ∷ p.htype
          ∷ p.hlen
          ∷ p.hops
          ∷ (Ipv4.packed p.xid
              ++ (pack16 p.secs
                  ++ (pack16 p.flags
                      ++ (ciaddr
                          ++ (yiaddr
                              ++ (siaddr
                                  ++ (giaddr
                                      ++ (fixed 16 p.chaddr
                                          ++ (fixed 64 p.sname
                                              ++ (fixed 128 p.file
                                                  ++ (magic_cookie ++ p.options))))))))))))
      else err struct_error

-- f"{byte:02x}"
unfoldable pub hex_digit : ℕ → ℕ
hex_digit d = if ltb d 10 then b'0' + d else b'a' + (d - 10)

unfoldable pub hex_byte : ℕ → Text
unfolding hex_digit
hex_byte b = hex_digit (b / 16 % 16) ∷ hex_digit (b % 16) ∷ []

unfoldable pub client_mac : Packet → Text
unfolding hex_byte join
client_mac p = join (b':' ∷ []) (map hex_byte (take p.hlen p.chaddr))

unfoldable pub broadcast : Packet → Bool
broadcast p = not (bit_and p.flags 0x8000 == 0)

-- `copy(**changes)`
unfoldable pub copy : (Packet → Packet) → Packet → Result Packet
copy changes p = post_init (changes p)
