-- ===== src/Dhcp/Packet/Tests.antt =====
-- Runs of dhcp/packet.py and the packet theorems at a concrete packet.
use sentinel_dns.Common.{◌≡◌, refl, ◌∷◌, [], replicate, true, codes}
use sentinel_dns.Common.Exec.{ok, err, packet_error, and_then}
use sentinel_dns.Text
use sentinel_dns.Ipv4
use sentinel_dns.Dhcp.Packet.{
  Packet, numbers_fit, post_init, to_bytes, from_bytes, client_mac, broadcast,
}
use sentinel_dns.Dhcp.Packet.RoundTrip.{from_bytes-to_bytes}

abbrev discover : Packet
discover = record {
  op = 1;
  htype = 1;
  hlen = 6;
  hops = 0;
  xid = 0x3903F326;
  secs = 258;
  flags = 0x8000;
  ciaddr = codes "0.0.0.0";
  yiaddr = codes "10.0.0.9";
  siaddr = codes "0.0.0.0";
  giaddr = codes "192.168.1.1";
  chaddr = 0 ∷ 5 ∷ 60 ∷ 4 ∷ 141 ∷ 255 ∷ replicate 10 0;
  sname = replicate 64 0;
  file = replicate 128 0;
  options = 53 ∷ 1 ∷ 1 ∷ 255 ∷ [];
}

accepts : post_init discover ≡ ok discover
unfolding post_init Ipv4.parse Text.split Ipv4.parse_octet numbers_fit
accepts = refl

mac : client_mac discover ≡ codes "00:05:3c:04:8d:ff"
unfolding client_mac
mac = refl

broadcasts : broadcast discover ≡ true
unfolding broadcast
broadcasts = refl

short_refused : from_bytes (replicate 239 0) ≡ err packet_error
unfolding from_bytes
short_refused = refl

from_bytes-to_bytes_example : and_then (to_bytes discover) from_bytes ≡ ok discover
from_bytes-to_bytes_example = from_bytes-to_bytes discover accepts
