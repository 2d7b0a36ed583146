-- ===== src/Lib.antt =====
-- SentinelDNS: a filtering DNS forwarder with a DHCP server and a web interface. This library
-- models the parts that carry its own logic and proves what makes them correct.
--
-- The DHCP side. A datagram is decoded by `DHCPPacket.from_bytes` (dhcp/packet.py), its options by
-- `parse_options` (dhcp/options.py), and the server (dhcp/server.py) asks the lease manager
-- (dhcp/lease_manager.py) and the reservations (dhcp/reservation.py) for a lease. The manager owns
-- the leases and takes addresses from the pool (dhcp/pool.py) that it was built with, which the web
-- interface also reserves addresses in. The DNS side. The resolver (dns_engine/resolver.py) decodes
-- a datagram by `DNSParser.parse` (dns_engine/parser.py) into a `DNSQuery` (dns_engine/models.py),
-- looks its domain up in the cache (dns_engine/cache.py), asks the filter manager
-- (dns_engine/filters/manager.py), whose filters hold the domains of block lists
-- (dns_engine/blocklist.py), and forwards what is allowed to an upstream server
-- (dns_engine/upstream.py) by a client of UDP, TLS or HTTPS (dns_engine/udp/, dot/, doh/). What it
-- cannot answer it answers with an error response (dns_engine/response.py). It counts what it does
-- (dns_engine/metrics.py) and keeps an audit log (dns_engine/query_log.py). The server
-- (dns_engine/server.py) passes each datagram to the resolver and sends what it gives, until
-- another thread stops it.
--
-- Files, and the code that each is about:
--   Common     the helpers: comparisons and texts (Tests), lists and sets (Lists), methods that mutate
--              and raise (Exec), what they ensure (Triple, Ensures), `dict` (Dict) and `deque` (Deque)
--   Text       the methods of `str` that the program calls
--   Ipv4       `ipaddress.IPv4Address` of the standard library: reading, printing, packing
--   Dhcp.Pool  `DHCPAddressPool` of dhcp/pool.py; Valid, Allocate and Count prove
--   Dhcp.Lease `DHCPLeaseManager` of dhcp/lease_manager.py: the invariant (Consistent), the steps that
--              keep it (Insert, Lookup, Preserve, Expire), every sequence of calls (Runs), what the
--              calls answer (Exclusive) and when leases end (Deadline)
--   Dhcp.Options     dhcp/options.py
--   Dhcp.Packet      dhcp/packet.py
--   Dhcp.Reservation `DHCPReservationManager` of dhcp/reservation.py
--   Dhcp.Server      dhcp/server.py from a datagram to the answer: the answer (Server), the handlers
--              (Handlers), the leases over any datagrams (Keeps, Serve), what a client reads (Answer)
--   Dns.Models       dns_engine/models.py
--   Dns.Cache  `DNSCache` of dns_engine/cache.py: the order of its entries (Order), the lookups
--              (Lookup), the sweep (Sweep), the order of use (Recency), sequences of calls (Runs)
--   Dns.Parser `DNSParser` of dns_engine/parser.py: labels (Utf8), the loop over a name (Domain,
--              Bounds), names that are written and read (RoundTrip), the whole query (Query)
--   Dns.Response     dns_engine/response.py: what is assumed of dnslib and what is answered (Answers), a
--              dnslib for the tests (Sample)
--   Dns.Upstream     `DNSUpstream` of dns_engine/upstream.py, and what `query` returns (Answers)
--   Dns.Transport    dns_engine/udp/, dot/ and doh/: the three clients and the providers (Client), the
--              constructor of `DNSUpstream` (Build) and what it makes (Usable), the responses that the
--              clients return (Accepted), the loop of `_recv_exact` (Exact) and the frame that is read
--              (Framed)
--   Dns.Metrics      dns_engine/metrics.py: the one-second buckets (History), the bounds (Bounded),
--              the buckets against the seconds of the calls (Tallies, Seconds)
--   Dns.Blocklist    dns_engine/blocklist.py and blocklist_registry.py: what the loop takes
--              (Listed), and lists that are written line by line (Written)
--   Dns.Filters      the filters of dns_engine/filters/ and the decision of the manager (First); Manager
--              has the methods that change the filters, the checks of names (Names), the names against
--              the dicts (Distinct, Consistent, Keeps) and what a failed call leaves (TakeBack, Failure)
--   Dns.QueryLog     dns_engine/query_log.py: what an event leaves (Recent), the bounds (Bounded)
--   Dns.Resolver     dns_engine/resolver.py: the five ways through `resolve` (Branches), whole responses
--              in the cache (Whole), any datagrams (Serve), single answers (Answers), and the counters
--              (Tally, Counts)
--   Dns.Server       dns_engine/server.py: the loop and `stop` as steps, what the loop sends (Runs)
--              and to whom (Addresses)
-- A module Tests holds runs of the definitions and the theorems at concrete inputs.
--
-- How the code is read. An object is a record of its fields and a method is a function of that
-- record, which gives the result or the exception, and the record after it: what was written before
-- a raise stays written. A method runs under its object's lock from its first access to its last,
-- so that a call is one step. The cache has no lock: its calls are taken one after the other, and
-- so are the datagrams, which one loop of the DHCP server handles. An address is its integer, a
-- text is the list of its code points, `bytes` is a list of numbers, a set is the list of its
-- elements, and a `dict` the list of its entries in the order of insertion. Times are microseconds;
-- a clock is a sequence of readings, one for each call of `time()`. The lease objects, which the
-- two dicts and the callers share, are references into a store.
--
-- Fuel. The loop of `allocate` is given the number of addresses of the range and the loop of
-- `parse_options` the number of bytes, one for each turn that can follow. The loop of
-- `_read_domain` is given 161 turns: a label adds at least two to the encoded length, which stays
-- at most 255, so that 127 labels can follow one another, and at most 32 pointers are followed. The
-- loop of `_recv_exact` is given as many turns as bytes are asked for: each reads one at least.
--
-- Parameters. The lease storage (dhcp/storage.py), a table of a database; the server uses two
-- methods of it, which may do anything to its own state and may raise. The package dnslib, by which
-- error responses are built: that a reply keeps the transaction id, that a header is written as it
-- was set, and that the exceptions are those that the code catches, are hypotheses (`IsLawful`).
-- What the clients of the upstream servers call, a socket, a TLS connection and httpx: they may do
-- anything to the network and may raise; that a connection gives the bytes of one stream, in their
-- order and no more than were asked for, is a hypothesis (`IsStream`). `urlparse`, and the
-- settings. The files: the block lists are a function from filenames to the lines that are read and
-- what is raised behind them; the file of custom filters is a state that is saved to and loaded
-- from, and each write of the query log may fail.
--
-- Not modelled: how the sockets are made, the database and the web interface; what is printed;
-- `hit_ratio` and the rounded averages of a metrics snapshot, which are quotients of floats (a
-- snapshot has the sum and the divisor); the views of records as dictionaries; the case mappings of
-- `str.lower` beyond ASCII; the forms that `socket.inet_aton` reads beside dotted quads; the checks
-- that an argument has the type that its annotation gives. Latencies and timeouts are whole
-- microseconds, or one of the floats that are no such number, and the sum of latencies is exact.
pub mod Common
pub mod Text
pub mod Ipv4
pub mod Dhcp
pub mod Dns
