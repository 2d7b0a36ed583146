-- ===== src/Dns/Blocklist.antt =====
-- `BlocklistLoader` of dns_engine/blocklist.py and `BlocklistRegistry` of dns_engine/blocklist_registry.py.
-- A loader is the set of its domains, kept in the registry's dict under its filename. The directory of
-- the lists is a function from a filename to the file, `none` where there is none; opening a file and
-- reading it may raise.
pub mod Listed
pub mod Written
mod Tests
use sentinel_dns.Common.{
  ℕ, ◌≡◌, Bool, true, false, not, ◌&&◌, ◌||◌, Option, none, some, List, [], ◌∷◌, ◌++◌, Text, codes,
  leb, ◌==◌, length, text_eq, if◌then◌else◌,
}
use sentinel_dns.Common.Dict
use sentinel_dns.Common.Dict.{Dict}
use sentinel_dns.Common.Exec.{Error, Result, ok, err}
use sentinel_dns.Text.{is_space, strip, lower, rstrip_by, extend}

-- `in` on a collection of texts
unfoldable pub text_in : Text → List Text → Bool
text_in t [] = false
text_in t (s ∷ ts) = text_eq s t || text_in t ts

-- `set.add`
unfoldable pub add_text : Text → List Text → List Text
unfolding text_in
add_text t ts = if text_in t ts then ts else ts ++ t ∷ []

abbrev pub hosts_addresses : List Text
hosts_addresses = codes "0.0.0.0" ∷ codes "127.0.0.1" ∷ codes "::" ∷ codes "::1" ∷ []

-- s.split()
unfoldable pub pieces : Text → List Text
unfolding is_space
pieces [] = [] ∷ []
pieces (c ∷ s) = let rest = pieces s in if is_space c then [] ∷ rest else extend c rest

abbrev pub nonempty : List Text → List Text
nonempty [] = []
nonempty ([] ∷ ts) = nonempty ts
nonempty ((c ∷ t) ∷ ts) = (c ∷ t) ∷ nonempty ts

unfoldable pub words : Text → List Text
unfolding pieces
words s = nonempty (pieces s)

-- line.split("#", 1)[0]
unfoldable pub before_hash : Text → Text
before_hash [] = []
before_hash (c ∷ s) = let rest = before_hash s in if c == b'#' then [] else c ∷ rest

-- s.rstrip(".")
abbrev pub is_dot : ℕ → Bool
is_dot c = c == b'.'

unfoldable pub rstrip_dots : Text → Text
unfolding rstrip_by
rstrip_dots = rstrip_by is_dot

-- the `domains` of the parts of a line
unfoldable pub domain_parts : List Text → List Text
unfolding text_in
domain_parts [] = []
domain_parts (part ∷ []) = part ∷ []
domain_parts (part ∷ next ∷ parts) =
    if text_in part hosts_addresses then next ∷ parts else part ∷ next ∷ parts

-- the loop over the domains of a line
unfoldable pub add_domains : List Text → List Text → List Text
unfolding text_in add_text strip rstrip_dots lower
add_domains [] loaded = loaded
add_domains (part ∷ parts) loaded =
    let domain = lower (rstrip_dots (strip part)) in
    add_domains parts (
      if length domain == 0
      then loaded
      else if text_in domain hosts_addresses
      then loaded
      else add_text domain loaded)

-- the parts of a line; none of a blank line, or of a comment
unfoldable pub line_parts : Text → List Text
unfolding words before_hash strip lower
line_parts line = words (strip (before_hash (lower (strip line))))

-- the loop of `load` over the lines
unfoldable pub load_lines : List Text → List Text → List Text
unfolding add_domains domain_parts line_parts
load_lines [] loaded = loaded
load_lines (line ∷ lines) loaded =
    load_lines lines (add_domains (domain_parts (line_parts line)) loaded)

-- a file: the lines that the loop takes, and what it raises behind them, in place of the end
pub record File : Type 0 where
  pub lines : List Text
  pub failure : Option Error

abbrev pub ended : Option Error → Result (Unit {0})
ended none = ok tt
ended (some e) = err e

-- the loader that `load` leaves, whether it returns or raises
unfoldable pub load_found : Option File → Result (Unit {0}) × List Text
unfolding load_lines
load_found none = (ok tt, [])
load_found (some file) = (ended file.failure, load_lines file.lines [])

-- `load`, and `reload`
unfoldable pub load : (Text → Option File) → Text → Result (Unit {0}) × List Text
unfolding load_found
load files filename = load_found (files filename)

-- `contains`
unfoldable pub contains : List Text → Text → Bool
unfolding text_in strip rstrip_dots lower
contains loaded domain =
    let normalized = rstrip_dots (lower (strip domain)) in
    if length normalized == 0 then false else text_in normalized loaded

-- `size`
abbrev pub size : List Text → ℕ
size = length

-- the registry behind the constructor of a loader, which is entered if it returns
abbrev pub registered :
    Text → Dict (List Text) → Result (Unit {0}) → List Text → Result (List Text) × Dict (List Text)
registered filename loaders (ok u) loader = (ok loader, Dict.put filename loader loaders)
registered filename loaders (err e) loader = (err e, loaders)

-- `BlocklistRegistry.get`: the loader of a filename, made where there is none
abbrev pub get_found :
    (Text → Option File)
    → Text
    → Dict (List Text)
    → Option (List Text)
    → Result (List Text) × Dict (List Text)
get_found files filename loaders none =
    let loaded = load files filename in registered filename loaders loaded.0 loaded.1
get_found files filename loaders (some loader) = (ok loader, loaders)

unfoldable pub get :
    (Text → Option File) → Text → Dict (List Text) → Result (List Text) × Dict (List Text)
unfolding load
get files filename loaders = get_found files filename loaders (Dict.get filename loaders)

-- the `reload` of the loader that `get` gives; where it raises, the loader keeps what it has read
abbrev pub reload_found :
    (Text → Option File)
    → Text
    → Result (List Text)
    → Dict (List Text)
    → Result (Unit {0}) × Dict (List Text)
reload_found files filename (err e) loaders = (err e, loaders)
reload_found files filename (ok loader) loaders =
    let loaded = load files filename in (loaded.0, Dict.put filename loaded.1 loaders)

-- `BlocklistRegistry.reload`
unfoldable pub reload :
    (Text → Option File) → Text → Dict (List Text) → Result (Unit {0}) × Dict (List Text)
unfolding load get
reload files filename loaders =
    let got = get files filename loaders in reload_found files filename got.0 got.1

-- the rest of the loop, unless the loader raises
abbrev pub and_rest :
    Text
    → Result (Unit {0})
    → List Text
    → Result (Unit {0}) × Dict (List Text)
    → Dict (List Text)
    → Result (Unit {0}) × Dict (List Text)
and_rest filename (ok u) loader (r, rest) loaders = (r, (filename, loader) ∷ rest)
and_rest filename (err e) loader rest loaders = (err e, (filename, loader) ∷ loaders)

-- `BlocklistRegistry.reload_all`
unfoldable pub reload_all :
    (Text → Option File) → Dict (List Text) → Result (Unit {0}) × Dict (List Text)
unfolding load
reload_all files [] = (ok tt, [])
reload_all files ((filename, loader) ∷ loaders) =
    let loaded = load files filename in
    let rest = reload_all files loaders in and_rest filename loaded.0 loaded.1 rest loaders
