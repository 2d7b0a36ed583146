-- ===== src/Dns/Blocklist/Listed.antt =====
-- What dns_engine/blocklist.py blocks, against the lines of the file.
use sentinel_dns.Common.{
  ◌≡◌, refl, ap, ◌∙◌, Bool, true, false, not, ◌&&◌, ◌||◌, List, [], ◌∷◌, ◌++◌, arith, Text, ◌==◌,
  length, text_eq, text_eq_iff, if◌then◌else◌,
}
use sentinel_dns.Text.{strip, lower}
use sentinel_dns.Dns.Blocklist.{
  text_in, add_text, hosts_addresses, rstrip_dots, domain_parts, add_domains, line_parts,
  load_lines, contains,
}

-- a part of a line as a domain
abbrev pub domain_of : Text → Text
domain_of part = lower (rstrip_dots (strip part))

-- one of the parts is this domain
abbrev pub names : Text → List Text → Bool
names d [] = false
names d (part ∷ parts) = text_eq (domain_of part) d || names d parts

-- one of the lines lists this domain
unfoldable pub lists : Text → List Text → Bool
lists d [] = false
lists d (line ∷ lines) = names d (domain_parts (line_parts line)) || lists d lines

-- no empty text, and none of the addresses that hosts files begin a line with
abbrev pub is_domain : Text → Bool
is_domain d = not (length d == 0) && not (text_in d hosts_addresses)

text_in-nil : (d : Text) → text_in d [] ≡ false
unfolding text_in
text_in-nil d = refl

text_in-append :
    (d : Text) (xs ys : List Text) → text_in d (xs ++ ys) ≡ (text_in d xs || text_in d ys)
unfolding text_in
text_in-append d [] ys = refl
text_in-append d (x ∷ xs) ys = ground (arith, text_in-append d xs ys)

text_in_eq : (d t : Text) (xs : List Text) → text_eq t d ≡ true → text_in t xs ≡ text_in d xs
text_in_eq d t xs e = ap (λ s. text_in s xs) ((text_eq_iff t d).0 e)

text_in-add_text :
    (d t : Text) (xs : List Text) → text_in d (add_text t xs) ≡ (text_in d xs || text_eq t d)
unfolding text_in add_text
text_in-add_text d t xs = ground (arith, text_in-append d xs (t ∷ []), text_in_eq d t xs)

is_domain_eq : (d t : Text) → text_eq t d ≡ true → is_domain t ≡ is_domain d
is_domain_eq d t e = ap (λ s. is_domain s) ((text_eq_iff t d).0 e)

abbrev added : Text → List Text → List Text
added t loaded =
    if length t == 0
    then loaded
    else if text_in t hosts_addresses
    then loaded
    else add_text t loaded

text_in-added :
    (d t : Text) (loaded : List Text)
    → text_in d (added t loaded) ≡ (text_in d loaded || (is_domain d && text_eq t d))
text_in-added d t loaded = ground (arith, text_in-add_text d t loaded, is_domain_eq d t)

text_in-add_domains :
    (d : Text) (parts loaded : List Text)
    → text_in d (add_domains parts loaded) ≡ (text_in d loaded || (is_domain d && names d parts))
unfolding add_domains
text_in-add_domains d [] loaded = ground arith
text_in-add_domains d (part ∷ parts) loaded =
    text_in-add_domains d parts (added (domain_of part) loaded)
    ∙ ground (arith, text_in-added d (domain_of part) loaded)

text_in-load_lines :
    (d : Text) (lines loaded : List Text)
    → text_in d (load_lines lines loaded) ≡ (text_in d loaded || (is_domain d && lists d lines))
unfolding load_lines lists
text_in-load_lines d [] loaded = ground arith
text_in-load_lines d (line ∷ lines) loaded =
    text_in-load_lines d lines (add_domains (domain_parts (line_parts line)) loaded)
    ∙ ground (arith, text_in-add_domains d (domain_parts (line_parts line)) loaded)

-- A loaded list contains a domain exactly when the rest of it is one of those that the loop over the
-- lines takes from a line.
pub contains-load_lines :
    (lines : List Text) (domain : Text)
    → contains (load_lines lines []) domain ≡ (
        let normalized = rstrip_dots (lower (strip domain)) in
        is_domain normalized && lists normalized lines)
unfolding contains
contains-load_lines lines domain = ground (
  arith,
  text_in-load_lines (rstrip_dots (lower (strip domain))) lines [],
  text_in-nil (rstrip_dots (lower (strip domain))),
)
