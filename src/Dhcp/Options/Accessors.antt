-- ===== src/Dhcp/Options/Accessors.antt =====
-- `get_option` gives the first option of its code, and a message type that was made is read back.
use sentinel_dns.Common.{ℕ, ◌≡◌, ◌≢◌, refl, Bool, none, some, List, [], ◌∷◌, ◌++◌, arith}
use sentinel_dns.Common.Exec.{ok, and_then}
use sentinel_dns.Dhcp.Options.{
  DhcpOption, make_message_type, get_option, get_option_value, get_message_type, message_type,
  parse_options, encode_options,
}
use sentinel_dns.Dhcp.Options.RoundTrip.{All, IsOption, parse_options-encode_options}

-- no option of the list has the code
abbrev pub Lacks : ℕ → List DhcpOption → Type 0
Lacks code = All (λ o. o.code ≢ code)

get_option-append :
    (code : ℕ) (front back : List DhcpOption) (o : DhcpOption)
    → Lacks code front
    → o.code ≡ code
    → get_option (front ++ o ∷ back) code ≡ some o
unfolding get_option
get_option-append code [] back o h e = ground arith
get_option-append code (p ∷ front) back o h e =
    ground (arith, h.0, get_option-append code front back o h.1 e)

pub get_option-none : (code : ℕ) (os : List DhcpOption) → Lacks code os → get_option os code ≡ none
unfolding get_option
get_option-none code [] h = refl
get_option-none code (p ∷ os) h = ground (arith, h.0, get_option-none code os h.1)

-- The value that `get_option_value` gives is that of the first option with the code, and it is
-- `None` where no option has the code.
pub get_option_value_lem :
    (code : ℕ) (front back : List DhcpOption) (o : DhcpOption)
    → Lacks code front
    → o.code ≡ code
    → get_option_value (front ++ o ∷ back) code ≡ some o.value
unfolding get_option_value
get_option_value_lem code front back o h e = rw (get_option-append code front back o h e)

made :
    (t : ℕ) (o : DhcpOption)
    → make_message_type t ≡ ok o
    → (o.code ≡ message_type) × (o.value ≡ t ∷ [])
unfolding make_message_type
made t o e = ground arith

-- A message type that `make_message_type` put into a list of options, in front of any other option
-- with its code, is read back from the encoded list.
pub get_message_type-make_message_type :
    (t : ℕ) (front back : List DhcpOption) (o : DhcpOption) (add_end : Bool)
    → make_message_type t ≡ ok o
    → Lacks message_type front
    → All IsOption (front ++ o ∷ back)
    → and_then (parse_options (encode_options (front ++ o ∷ back) add_end)) get_message_type
      ≡ ok (some t)
unfolding get_message_type
get_message_type-make_message_type t front back o add_end e h valid =
    let is = made t o e in
    rw (parse_options-encode_options (front ++ o ∷ back) add_end valid)
      (rw (get_option_value_lem message_type front back o h is.0) (rw is.1))
