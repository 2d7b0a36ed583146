-- ===== src/Dns/Blocklist/Tests.antt =====
-- Runs of dns_engine/blocklist.py, and its theorem at a concrete file.
use sentinel_dns.Common.{
  map, none, some, false, ◌&&◌, ◌≡◌, refl, List, [], ◌∷◌, Text, codes, text_eq,
}
use sentinel_dns.Text
use sentinel_dns.Dns.Blocklist
use sentinel_dns.Dns.Blocklist.{load, contains, load_lines}
use sentinel_dns.Dns.Blocklist.Listed.{is_domain}
use sentinel_dns.Dns.Blocklist.Written.{
  Written, write, spaced, comment_of, is_written, AreWritten, contains-write,
}

evaluated : Unit {0}
unfolding write spaced comment_of load load_lines contains Blocklist.add_domains
    Blocklist.domain_parts Blocklist.line_parts Blocklist.text_in Blocklist.add_text
    Blocklist.pieces Blocklist.words Blocklist.before_hash Blocklist.rstrip_dots Text.strip
    Text.lstrip Text.rstrip_by Text.is_space Text.lower text_eq Text.lower_char
evaluated = tt

abbrev lines : List Text
lines =
    codes " # ads"
    ∷ codes "0.0.0.0 Ads.io. ::1 # x.y"
    ∷ codes "  "
    ∷ codes "b.c d.e"
    ∷ codes "127.0.0.1"
    ∷ []

loaded : load_lines lines [] ≡ codes "ads.io" ∷ codes "b.c" ∷ codes "d.e" ∷ []
unfolding evaluated
loaded = refl

-- a domain with a dot behind a space is another text than the one that is listed
inner_space : contains (load_lines lines []) (codes "b.c .") ≡ false
unfolding evaluated
inner_space = refl

abbrev written : List Written
written =
    (record {
      address = some (codes "0.0.0.0");
      domain = codes "Ads.io.";
      more = codes "b.c" ∷ [];
      comment = some (codes " x.y ");
    })
    ∷ (record { address = none; domain = codes "d.e"; more = []; comment = none })
    ∷ []

written_lines : map write written ≡ codes "0.0.0.0 Ads.io. b.c # x.y " ∷ codes "d.e" ∷ []
unfolding evaluated
written_lines = refl

written-AreWritten : AreWritten written
unfolding evaluated
written-AreWritten = (
  record {
    plain = (
      (
        refl,
        refl,
        (refl, refl, (refl, refl, (refl, refl, (refl, refl, (refl, refl, (refl, refl, tt)))))),
      ),
      (
        (
          refl,
          refl,
          (refl, refl, (refl, refl, (refl, refl, (refl, refl, (refl, refl, (refl, refl, tt)))))),
        ),
        ((refl, refl, (refl, refl, (refl, refl, tt))), tt),
      ),
    );
    fits = refl;
  },
  (record { plain = ((refl, refl, (refl, refl, (refl, refl, tt))), tt); fits = refl }, tt),
)

contains-write_example :
    contains (load_lines (map write written) []) (codes " ADS.io ")
    ≡ (is_domain (codes "ads.io") && is_written (codes "ads.io") written)
unfolding evaluated
contains-write_example = contains-write written (codes " ADS.io ") written-AreWritten
