-- ===== src/Dhcp/Options.antt =====
-- `DHCPOption`, `parse_options`, `encode_options` and the accessors of dhcp/options.py. A `bytes` is
-- the list of its bytes.
pub mod RoundTrip
pub mod Accessors
mod Tests
use sentinel_dns.Common.{
  ℕ, zero, suc, ◌≡◌, refl, Bool, true, false, ◌&&◌, Option, none, some, List, [], ◌∷◌, ◌++◌, leb,
  ltb, ◌==◌, length, take, drop, if◌then◌else◌,
}
use sentinel_dns.Common.Exec.{Error, option_error, Result, ok, err, and_then}

abbrev pub Bytes : Type 0
Bytes = List ℕ

-- `DHCPOptionCode`
abbrev pub subnet_mask : ℕ
subnet_mask = 1

abbrev pub router : ℕ
router = 3

abbrev pub dns_server : ℕ
dns_server = 6

abbrev pub requested_ip : ℕ
requested_ip = 50

abbrev pub lease_time : ℕ
lease_time = 51

abbrev pub message_type : ℕ
message_type = 53

abbrev pub server_identifier : ℕ
server_identifier = 54

abbrev pub renewal_time : ℕ
renewal_time = 58

abbrev pub rebinding_time : ℕ
rebinding_time = 59

abbrev pub client_identifier : ℕ
client_identifier = 61

abbrev pub end_option : ℕ
end_option = 255

pub record DhcpOption : Type 0 where
  pub code : ℕ
  pub value : Bytes

-- `DHCPOption(code=…, value=…)` with its `__post_init__`
unfoldable pub make_option : ℕ → Bytes → Result DhcpOption
make_option code value =
    if leb code 255
    then (if ltb 255 (length value)
        then err option_error
        else ok (record { code = code; value = value }))
    else err option_error

unfoldable pub to_bytes : DhcpOption → Bytes
to_bytes o = o.code ∷ length o.value ∷ o.value

abbrev pub prepend : Result DhcpOption → Result (List DhcpOption) → Result (List DhcpOption)
prepend o rest = and_then o λ x. and_then rest λ xs. ok (x ∷ xs)

-- The loop of `parse_options` on the bytes from `offset` on. Each round takes a byte at least, so
-- the number of bytes is enough rounds.
unfoldable pub parse_from : ℕ → Bytes → Result (List DhcpOption)
parse_from zero bytes = ok []
parse_from (suc rounds) [] = ok []
parse_from (suc rounds) (code ∷ []) =
    let skipped = parse_from rounds [] in
    if code == 0 then skipped else if code == end_option then ok [] else err option_error
parse_from (suc rounds) (code ∷ option_length ∷ bytes) =
    let skipped = parse_from rounds (option_length ∷ bytes) in
    let rest = parse_from rounds (drop option_length bytes) in
    if code == 0
    then skipped
    else if code == end_option
    then ok []
    else if ltb (length bytes) option_length
    then err option_error
    else prepend (make_option code (take option_length bytes)) rest

unfoldable pub parse_options : Bytes → Result (List DhcpOption)
parse_options bytes = parse_from (length bytes) bytes

-- the loop of `encode_options`
unfoldable pub encode_all : List DhcpOption → Bytes
unfolding to_bytes
encode_all [] = []
encode_all (o ∷ os) = to_bytes o ++ encode_all os

unfoldable pub encode_options : List DhcpOption → Bool → Bytes
encode_options options add_end =
    if add_end then encode_all options ++ end_option ∷ [] else encode_all options

unfoldable pub get_option : List DhcpOption → ℕ → Option DhcpOption
get_option [] code = none
get_option (o ∷ os) code = if o.code == code then some o else get_option os code

abbrev pub value_of : Option DhcpOption → Option Bytes
value_of none = none
value_of (some o) = some o.value

unfoldable pub get_option_value : List DhcpOption → ℕ → Option Bytes
get_option_value options code = value_of (get_option options code)

abbrev pub one_byte : Option Bytes → Result (Option ℕ)
one_byte none = ok none
one_byte (some (b ∷ [])) = ok (some b)
one_byte (some _) = err option_error

unfoldable pub get_message_type : List DhcpOption → Result (Option ℕ)
get_message_type options = one_byte (get_option_value options message_type)

unfoldable pub make_message_type : ℕ → Result DhcpOption
unfolding make_option
make_message_type t =
    if leb 1 t && leb t 255 then make_option message_type (t ∷ []) else err option_error
