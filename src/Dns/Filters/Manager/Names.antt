-- ===== src/Dns/Filters/Manager/Names.antt =====
-- `_validate_name` and `_validate_filename` of dns_engine/filters/manager.py: the regular expressions
-- are tests of the characters.
use sentinel_dns.Common.{
  ℕ, ◌-◌, Bool, true, false, not, ◌&&◌, ◌||◌, List, [], ◌∷◌, Text, codes, leb, ◌==◌, length, take,
  drop, text_eq, if◌then◌else◌,
}
use sentinel_dns.Common.Exec.{value_error, Result, ok, err}
use sentinel_dns.Text.{strip}
use sentinel_dns.Dns.Blocklist.{text_in}

abbrev pub is_upper : ℕ → Bool
is_upper c = leb b'A' c && leb c b'Z'

abbrev pub is_lower : ℕ → Bool
is_lower c = leb b'a' c && leb c b'z'

abbrev pub is_digit : ℕ → Bool
is_digit c = leb b'0' c && leb c b'9'

-- [A-Za-z0-9 _-]
abbrev pub is_name_char : ℕ → Bool
is_name_char c = is_upper c || is_lower c || is_digit c || c == b' ' || c == b'_' || c == b'-'

-- [a-z0-9_-]
abbrev pub is_file_char : ℕ → Bool
is_file_char c = is_lower c || is_digit c || c == b'_' || c == b'-'

unfoldable pub every : (ℕ → Bool) → Text → Bool
every p [] = true
every p (c ∷ s) = p c && every p s

-- NAME_RE
unfoldable pub matches_name : Text → Bool
unfolding every
matches_name [] = false
matches_name (c ∷ s) = (is_upper c || is_lower c) && (leb (length s) 47 && every is_name_char s)

-- the part of FILE_RE between the prefix and the ending
unfoldable pub matches_stem : Text → Bool
unfolding every
matches_stem [] = false
matches_stem (c ∷ s) = (is_lower c || is_digit c) && (leb (length s) 47 && every is_file_char s)

-- FILE_RE
unfoldable pub matches_file : Text → Bool
unfolding text_eq matches_stem
matches_file s =
    let rest = drop 7 s in
    text_eq (take 7 s) (codes "custom_")
    && (text_eq (drop (length rest - 4) rest) (codes ".txt")
        && matches_stem (take (length rest - 4) rest))

abbrev pub builtin_names : List Text
builtin_names =
    codes "Whitelist"
    ∷ codes "Blacklist"
    ∷ codes "AdBlock"
    ∷ codes "Malware"
    ∷ codes "Adult"
    ∷ codes "Schedule"
    ∷ []

-- `_validate_name`
unfoldable pub validate_name : Text → Result Text
unfolding strip matches_name text_in
validate_name name =
    let clean = strip name in
    if not (matches_name clean)
    then err value_error
    else if text_in clean builtin_names
    then err value_error
    else ok clean

-- `_validate_filename`
unfoldable pub validate_filename : Text → Result Text
unfolding matches_file
validate_filename filename = if not (matches_file filename) then err value_error else ok filename
