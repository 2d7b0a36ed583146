-- ===== src/Dns/Transport.antt =====
-- The clients of the upstream servers, of dns_engine/udp/, dns_engine/dot/ and dns_engine/doh/, and the
-- constructor of `DNSUpstream` of dns_engine/upstream.py, which makes one of them. A port that is 0
-- stands for every one that is not positive.
pub mod Client
pub mod Build
pub mod Accepted
pub mod Exact
pub mod Framed
pub mod Usable
pub mod Sample
mod Tests
