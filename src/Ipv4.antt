-- ===== src/Ipv4.antt =====
-- `ipaddress.IPv4Address` of Python's standard library, as the program uses it: an address is its
-- integer; it is read from a text or from four bytes, printed, and packed.
pub mod RoundTrip
pub mod Canonical
use sentinel_dns.Common.{
  ℕ, ◌+◌, ◌-◌, ◌*◌, ◌/◌, ◌%◌, ◌^◌, ◌≡◌, refl, Bool, true, false, ◌&&◌, ◌||◌, Option, none, some,
  List, [], ◌∷◌, ◌++◌, arith, Text, codes, leb, ltb, ◌==◌, length, if◌then◌else◌,
}
use sentinel_dns.Text.{split, join}

abbrev pub max_address : ℕ
max_address = 4294967296

unfoldable pub is_digit : ℕ → Bool
is_digit c = leb b'0' c && leb c b'9'

-- `_parse_octet`: ASCII digits, three at most, no leading zero, at most 255
unfoldable pub parse_octet : Text → Option ℕ
unfolding is_digit
parse_octet (a ∷ []) = if is_digit a then some (a - 48) else none
parse_octet (a ∷ b ∷ []) =
    if is_digit a && is_digit b && ltb b'0' a then some (10 * (a - 48) + (b - 48)) else none
parse_octet (a ∷ b ∷ c ∷ []) =
    if is_digit a
      && is_digit b
      && is_digit c
      && ltb b'0' a
      && leb (100 * (a - 48) + 10 * (b - 48) + (c - 48)) 255
    then some (100 * (a - 48) + 10 * (b - 48) + (c - 48))
    else none
parse_octet _ = none

-- `int.from_bytes(octets, "big")` of four octets
abbrev pub from_octets : ℕ → ℕ → ℕ → ℕ → ℕ
from_octets a b c d = 16777216 * a + 65536 * b + 256 * c + d

abbrev pub combine : Option ℕ → Option ℕ → Option ℕ → Option ℕ → Option ℕ
combine (some a) (some b) (some c) (some d) = some (from_octets a b c d)
combine _ _ _ _ = none

abbrev pub parse_parts : List Text → Option ℕ
parse_parts (a ∷ b ∷ c ∷ d ∷ []) =
    combine (parse_octet a) (parse_octet b) (parse_octet c) (parse_octet d)
parse_parts _ = none

-- `int(IPv4Address(text))`; `none` is the `AddressValueError`
unfoldable pub parse : Text → Option ℕ
parse s = parse_parts (split b'.' s)

-- `str` of a number below 256
unfoldable pub show_octet : ℕ → Text
show_octet n =
    if ltb n 10
    then (48 + n) ∷ []
    else if ltb n 100
    then (48 + n / 10) ∷ (48 + n % 10) ∷ []
    else (48 + n / 100) ∷ (48 + n / 10 % 10) ∷ (48 + n % 10) ∷ []

-- `.packed`: four bytes, big endian
unfoldable pub packed : ℕ → List ℕ
packed n = (n / 16777216 % 256) ∷ (n / 65536 % 256) ∷ (n / 256 % 256) ∷ (n % 256) ∷ []

-- `str(IPv4Address(n))`
unfoldable pub format : ℕ → Text
unfolding show_octet join
format n = join (b'.' ∷ []) (
    show_octet (n / 16777216 % 256)
    ∷ show_octet (n / 65536 % 256)
    ∷ show_octet (n / 256 % 256)
    ∷ show_octet (n % 256)
    ∷ [])

-- `int(IPv4Address(four bytes))`
unfoldable pub unpack : List ℕ → Option ℕ
unpack (a ∷ b ∷ c ∷ d ∷ []) = some (from_octets a b c d)
unpack _ = none

parse_runs :
    (parse (codes "192.168.1.100") ≡ some 3232235876)
    × (parse (codes "01.2.3.4") ≡ none)
    × (parse (codes "1.2.3") ≡ none)
    × (format 3232235876 ≡ codes "192.168.1.100")
unfolding parse format split parse_octet
parse_runs = (refl, refl, refl, refl)
