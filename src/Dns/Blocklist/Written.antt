-- ===== src/Dns/Blocklist/Written.antt =====
-- Lists that are written line by line, as dns_engine/blocklist.py reads them.
use sentinel_dns.Common.{
  ℕ, ◌≡◌, refl, sym, ap, ◌∙◌, Bool, true, false, ◌&&◌, ◌||◌, Option, none, some, List, [], ◌∷◌,
  ◌++◌, map, arith, Text, leb, ◌==◌, Bool-cases, inl, inr,
}
use mathlib.Core.List.{append_assoc, append-nil}
use sentinel_dns.Text.{is_space, strip, lstrip, rstrip_by, rstrip_cons, lower, lower_char, extend}
use sentinel_dns.Dns.Blocklist.{
  text_in, hosts_addresses, pieces, nonempty, words, before_hash, rstrip_dots, domain_parts,
  line_parts, load_lines, contains,
}
use sentinel_dns.Dns.Blocklist.Listed.{names, lists, is_domain, contains-load_lines}

-- no white space, and no mark of a comment
abbrev pub IsPlain : Text → Type 0
IsPlain [] = Unit
IsPlain (c ∷ s) = (is_space c ≡ false) × (c == b'#' ≡ false) × IsPlain s

abbrev pub ArePlain : List Text → Type 0
ArePlain [] = Unit
ArePlain ([] ∷ ts) = ⊥
ArePlain ((c ∷ t) ∷ ts) = IsPlain (c ∷ t) × ArePlain ts

-- the words of a line, with a space between them
unfoldable pub spaced : List Text → Text
spaced [] = []
spaced (w ∷ []) = w
spaced (w ∷ v ∷ ws) = w ++ b' ' ∷ spaced (v ∷ ws)

-- a comment behind a space
unfoldable pub comment_of : Option Text → Text
comment_of none = []
comment_of (some s) = b' ' ∷ b'#' ∷ s

lower-append : (s t : Text) → lower (s ++ t) ≡ lower s ++ lower t
unfolding lower
lower-append [] t = refl
lower-append (c ∷ s) t = ap (◌∷◌ (lower_char c)) (lower-append s t)

is_space-lower_char : (c : ℕ) → is_space c ≡ false → is_space (lower_char c) ≡ false
unfolding is_space lower_char
is_space-lower_char c h = elim (Bool-cases (leb b'A' c && leb c b'Z')) [
  | inl upper ↦ rw upper (ground arith)
  | inr other ↦ rw other h
]

hash-lower_char : (c : ℕ) → c == b'#' ≡ false → lower_char c == b'#' ≡ false
unfolding lower_char
hash-lower_char c h = ground arith

IsPlain-lower : (s : Text) → IsPlain s → IsPlain (lower s)
unfolding lower
IsPlain-lower [] h = tt
IsPlain-lower (c ∷ s) (blank, hash, h) =
    (is_space-lower_char c blank, hash-lower_char c hash, IsPlain-lower s h)

ArePlain-map-lower : (ts : List Text) → ArePlain ts → ArePlain (map lower ts)
unfolding lower
ArePlain-map-lower [] h = tt
ArePlain-map-lower ([] ∷ ts) h = elim h [ ]
ArePlain-map-lower ((c ∷ t) ∷ ts) h = (IsPlain-lower (c ∷ t) h.0, ArePlain-map-lower ts h.1)

rstrip_cons_blank : (c : ℕ) (s : Text) → is_space c ≡ false → rstrip_cons is_space c s ≡ c ∷ s
rstrip_cons_blank c [] h = rw h refl
rstrip_cons_blank c (d ∷ s) h = refl

rstrip-append : (s t : Text) → IsPlain s → rstrip_by is_space (s ++ t) ≡ s ++ rstrip_by is_space t
unfolding rstrip_by
rstrip-append [] t h = refl
rstrip-append (c ∷ s) t (blank, hash, h) =
    ap (rstrip_cons is_space c) (rstrip-append s t h)
    ∙ rstrip_cons_blank c (s ++ rstrip_by is_space t) blank

before_hash-append : (s t : Text) → IsPlain s → before_hash (s ++ t) ≡ s ++ before_hash t
unfolding before_hash
before_hash-append [] t h = refl
before_hash-append (c ∷ s) t (blank, hash, h) = rw hash (ap (◌∷◌ c) (before_hash-append s t h))

pieces-append : (s t : Text) → IsPlain s → pieces (s ++ b' ' ∷ t) ≡ s ∷ pieces t
unfolding pieces is_space
pieces-append [] t h = refl
pieces-append (c ∷ s) t (blank, hash, h) = rw blank (ap (extend c) (pieces-append s t h))

pieces_plain : (s : Text) → IsPlain s → pieces s ≡ s ∷ []
unfolding pieces
pieces_plain [] h = refl
pieces_plain (c ∷ s) (blank, hash, h) = rw blank (ap (extend c) (pieces_plain s h))

-- the words of a spaced line
words-spaced : (ts : List Text) → ArePlain ts → words (spaced ts) ≡ ts
unfolding words spaced pieces
words-spaced [] h = refl
words-spaced ([] ∷ ts) h = elim h [ ]
words-spaced ((c ∷ w) ∷ []) h = ap (λ ps. nonempty ps) (pieces_plain (c ∷ w) h.0)
words-spaced ((c ∷ w) ∷ v ∷ ws) h =
    ap (λ ps. nonempty ps) (pieces-append (c ∷ w) (spaced (v ∷ ws)) h.0)
    ∙ ap (◌∷◌ (c ∷ w)) (words-spaced (v ∷ ws) h.1)

lower-spaced : (ts : List Text) → lower (spaced ts) ≡ spaced (map lower ts)
unfolding lower spaced
lower-spaced [] = refl
lower-spaced (w ∷ []) = refl
lower-spaced (w ∷ v ∷ ws) =
    lower-append w (b' ' ∷ spaced (v ∷ ws)) ∙ ap (λ s. lower w ++ b' ' ∷ s) (lower-spaced (v ∷ ws))

rstrip_cons-spaced :
    (c : ℕ) (v : Text) (ws : List Text) (t : Text)
    → ArePlain (v ∷ ws)
    → rstrip_cons is_space c (spaced (v ∷ ws) ++ t) ≡ c ∷ (spaced (v ∷ ws) ++ t)
unfolding spaced
rstrip_cons-spaced c [] ws t h = elim h [ ]
rstrip_cons-spaced c (d ∷ v) [] t h = refl
rstrip_cons-spaced c (d ∷ v) (x ∷ ws) t h = refl

lstrip-spaced :
    (w : Text) (ws : List Text) (t : Text)
    → ArePlain (w ∷ ws)
    → lstrip (spaced (w ∷ ws) ++ t) ≡ spaced (w ∷ ws) ++ t
unfolding spaced lstrip
lstrip-spaced [] ws t h = elim h [ ]
lstrip-spaced (c ∷ w) [] t ((blank, _, _), _) = rw blank refl
lstrip-spaced (c ∷ w) (v ∷ ws) t ((blank, _, _), _) = rw blank refl

rstrip-blank :
    (s : Text) → rstrip_by is_space (b' ' ∷ s) ≡ rstrip_cons is_space b' ' (rstrip_by is_space s)
unfolding rstrip_by
rstrip-blank s = refl

-- what follows a spaced line and is not cut by `rstrip`
rstrip-spaced :
    (w : Text) (ws : List Text) (t : Text)
    → ArePlain (w ∷ ws)
    → rstrip_by is_space (spaced (w ∷ ws) ++ t) ≡ spaced (w ∷ ws) ++ rstrip_by is_space t
unfolding spaced
rstrip-spaced [] ws t h = elim h [ ]
rstrip-spaced (c ∷ w) [] t h = rstrip-append (c ∷ w) t h.0
rstrip-spaced (c ∷ w) (v ∷ ws) t h =
    ap (rstrip_by is_space) (append_assoc (c ∷ w) (b' ' ∷ spaced (v ∷ ws)) t)
    ∙ rstrip-append (c ∷ w) (b' ' ∷ (spaced (v ∷ ws) ++ t)) h.0
    ∙ ap (λ s. (c ∷ w) ++ s)
        (rstrip-blank (spaced (v ∷ ws) ++ t)
          ∙ ap (rstrip_cons is_space b' ') (rstrip-spaced v ws t h.1)
          ∙ rstrip_cons-spaced b' ' v ws (rstrip_by is_space t) h.1)
    ∙ sym (append_assoc (c ∷ w) (b' ' ∷ spaced (v ∷ ws)) (rstrip_by is_space t))

before_hash-spaced :
    (ts : List Text) (t : Text)
    → ArePlain ts
    → before_hash (spaced ts ++ t) ≡ spaced ts ++ before_hash t
unfolding spaced before_hash
before_hash-spaced [] t h = refl
before_hash-spaced ([] ∷ ts) t h = elim h [ ]
before_hash-spaced ((c ∷ w) ∷ []) t h = before_hash-append (c ∷ w) t h.0
before_hash-spaced ((c ∷ w) ∷ v ∷ ws) t h =
    ap before_hash (append_assoc (c ∷ w) (b' ' ∷ spaced (v ∷ ws)) t)
    ∙ before_hash-append (c ∷ w) (b' ' ∷ (spaced (v ∷ ws) ++ t)) h.0
    ∙ ap (λ s. (c ∷ w) ++ b' ' ∷ s) (before_hash-spaced (v ∷ ws) t h.1)
    ∙ sym (append_assoc (c ∷ w) (b' ' ∷ spaced (v ∷ ws)) (before_hash t))

-- nothing is left of the comment but white space
comment_gone :
    (c : Option Text)
    → rstrip_by is_space (before_hash (lower (rstrip_by is_space (comment_of c)))) ≡ []
unfolding comment_of rstrip_by before_hash lower is_space lower_char
comment_gone none = refl
comment_gone (some s) = rw (rstrip_cons_blank b'#' (rstrip_by is_space s) refl) refl

-- a line: an address of a hosts file in front or none, the domains, and a comment or none
pub record Written : Type 0 where
  pub address : Option Text
  pub domain : Text
  pub more : List Text
  pub comment : Option Text

abbrev pub with_address : Option Text → List Text → List Text
with_address none ts = ts
with_address (some a) ts = a ∷ ts

unfoldable pub write : Written → Text
unfolding spaced comment_of
write l = spaced (with_address l.address (l.domain ∷ l.more)) ++ comment_of l.comment

-- the address is one of the four, and a first domain is none of them
abbrev pub Fits : Option Text → Text → Type 0
Fits none domain = text_in (lower domain) hosts_addresses ≡ false
Fits (some a) domain = text_in (lower a) hosts_addresses ≡ true

pub record IsWritten (l : Written) : Type 0 where
  pub plain : ArePlain (with_address l.address (l.domain ∷ l.more))
  pub fits : Fits l.address l.domain

abbrev pub AreWritten : List Written → Type 0
AreWritten [] = Unit
AreWritten (l ∷ ls) = IsWritten l × AreWritten ls

-- one of the domains of the lines is this one, but for upper case and dots behind
abbrev pub is_written : Text → List Written → Bool
is_written d [] = false
is_written d (l ∷ ls) = names d (map lower (l.domain ∷ l.more)) || is_written d ls

strip-spaced :
    (w : Text) (ws : List Text) (t : Text)
    → ArePlain (w ∷ ws)
    → strip (spaced (w ∷ ws) ++ t) ≡ spaced (w ∷ ws) ++ rstrip_by is_space t
unfolding strip
strip-spaced w ws t h = ap (rstrip_by is_space) (lstrip-spaced w ws t h) ∙ rstrip-spaced w ws t h

line_parts-spaced :
    (w : Text) (ws : List Text) (c : Option Text)
    → ArePlain (w ∷ ws)
    → line_parts (spaced (w ∷ ws) ++ comment_of c) ≡ map lower (w ∷ ws)
unfolding line_parts
line_parts-spaced w ws c h =
    let plain = ArePlain-map-lower (w ∷ ws) h in
    let tail : Text = rstrip_by is_space (comment_of c) in
    let low : Text = spaced (map lower (w ∷ ws)) in
    ap (λ s. words (strip (before_hash (lower s)))) (strip-spaced w ws (comment_of c) h)
    ∙ ap (λ s. words (strip (before_hash s)))
        (lower-append (spaced (w ∷ ws)) tail ∙ ap (λ s. s ++ lower tail) (lower-spaced (w ∷ ws)))
    ∙ ap (λ s. words (strip s)) (before_hash-spaced (map lower (w ∷ ws)) (lower tail) plain)
    ∙ ap words (
        strip-spaced (lower w) (map lower ws) (before_hash (lower tail)) plain
        ∙ ap (λ s. low ++ s) (comment_gone c)
        ∙ append-nil low)
    ∙ words-spaced (map lower (w ∷ ws)) plain

domain_parts-with_address :
    (address : Option Text) (domain : Text) (more : List Text)
    → Fits address domain
    → domain_parts (map lower (with_address address (domain ∷ more))) ≡ map lower (domain ∷ more)
unfolding domain_parts
domain_parts-with_address none domain [] fits = refl
domain_parts-with_address none domain (d ∷ more) fits = rw fits refl
domain_parts-with_address (some a) domain more fits = rw fits refl

line_parts-with_address :
    (address : Option Text) (domain : Text) (more : List Text) (c : Option Text)
    → ArePlain (with_address address (domain ∷ more))
    → line_parts (spaced (with_address address (domain ∷ more)) ++ comment_of c)
      ≡ map lower (with_address address (domain ∷ more))
line_parts-with_address none domain more c h = line_parts-spaced domain more c h
line_parts-with_address (some a) domain more c h = line_parts-spaced a (domain ∷ more) c h

lists-write :
    (d : Text) (ls : List Written) → AreWritten ls → lists d (map write ls) ≡ is_written d ls
unfolding lists write
lists-write d [] h = refl
lists-write d (l ∷ ls) h =
    let parts = line_parts-with_address l.address l.domain l.more l.comment h.0.plain in
    let domains = domain_parts-with_address l.address l.domain l.more h.0.fits in
    ap (λ ps. names d (domain_parts ps) || lists d (map write ls)) parts
    ∙ ap (λ ps. names d ps || lists d (map write ls)) domains
    ∙ ap (λ b. names d (map lower (l.domain ∷ l.more)) || b) (lists-write d ls h.1)

-- A list whose lines are written each with domains between spaces, none of which is empty or holds
-- white space or a `#`, in front of them an address of a hosts file or none, and behind them a
-- comment or none, contains a domain, in whatever case and with spaces around it or dots behind it,
-- exactly when the rest is not empty, is no address of a hosts file, and is one of the written
-- domains, but for the case and the dots behind them. A first domain without an address in front is
-- no such address.
pub contains-write :
    (ls : List Written) (domain : Text)
    → AreWritten ls
    → contains (load_lines (map write ls) []) domain ≡ (
        let normalized = rstrip_dots (lower (strip domain)) in
        is_domain normalized && is_written normalized ls)
contains-write ls domain h =
    let normalized : Text = rstrip_dots (lower (strip domain)) in
    contains-load_lines (map write ls) domain
    ∙ ap (λ b. is_domain normalized && b) (lists-write normalized ls h)
