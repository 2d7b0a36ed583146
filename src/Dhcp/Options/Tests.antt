-- ===== src/Dhcp/Options/Tests.antt =====
-- Runs of the option codec, and its theorems at concrete inputs.
use sentinel_dns.Common.{◌≡◌, refl, true, none, some, List, [], ◌∷◌, ◌++◌, arith}
use sentinel_dns.Common.Exec.{ok, err, option_error, and_then}
use sentinel_dns.Dhcp.Options.{
  Bytes, DhcpOption, make_option, make_message_type, to_bytes, get_option, get_option_value,
  get_message_type, parse_from, parse_options, encode_all, encode_options,
}
use sentinel_dns.Dhcp.Options.RoundTrip.{
  All, IsOption, parse_from-rounds, parse_options-encode_options,
}
use sentinel_dns.Dhcp.Options.Accessors.{get_message_type-make_message_type}

evaluated : Unit {0}
unfolding make_option make_message_type to_bytes get_option get_option_value get_message_type
    parse_from parse_options encode_all encode_options
evaluated = tt

abbrev discover : DhcpOption
discover = record { code = 53; value = 1 ∷ [] }

abbrev wanted : DhcpOption
wanted = record { code = 50; value = 10 ∷ 0 ∷ 0 ∷ 7 ∷ [] }

abbrev options : List DhcpOption
options = wanted ∷ discover ∷ []

abbrev wire : Bytes
wire = 50 ∷ 4 ∷ 10 ∷ 0 ∷ 0 ∷ 7 ∷ 0 ∷ 53 ∷ 1 ∷ 1 ∷ 255 ∷ 9 ∷ []

runs :
    (parse_options wire ≡ ok options)
    × (encode_options options true ≡ 50 ∷ 4 ∷ 10 ∷ 0 ∷ 0 ∷ 7 ∷ 53 ∷ 1 ∷ 1 ∷ 255 ∷ [])
    × (parse_options (53 ∷ []) ≡ err option_error)
    × (parse_options (53 ∷ 2 ∷ 1 ∷ []) ≡ err option_error)
    × (get_message_type options ≡ ok (some 1))
    × (get_message_type (wanted ∷ []) ≡ ok none)
unfolding evaluated
runs = (refl, refl, refl, refl, refl, refl)

options-IsOption : All IsOption options
options-IsOption = omega arith

parsed : parse_options wire ≡ ok options
unfolding evaluated
parsed = refl

parse_from-rounds_example : parse_from 12 wire ≡ parse_from 40 wire
parse_from-rounds_example = parse_from-rounds 12 40 wire (omega arith) (omega arith)

parse_options-encode_options_example : parse_options (encode_options options true) ≡ ok options
parse_options-encode_options_example = parse_options-encode_options options true options-IsOption

made_discover : make_message_type 1 ≡ ok discover
unfolding evaluated
made_discover = refl

get_message_type-make_message_type_example :
    and_then (parse_options (encode_options ((wanted ∷ []) ++ discover ∷ []) true)) get_message_type
    ≡ ok (some 1)
get_message_type-make_message_type_example =
    get_message_type-make_message_type 1 (wanted ∷ []) [] discover true made_discover
      ((λ e. absurd (omega arith)), tt) options-IsOption
