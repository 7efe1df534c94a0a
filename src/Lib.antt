-- ===== src/Lib.antt =====
-- netclient: the client of a Netmaker network. It keeps a WireGuard interface with the peers that
-- the server sends, answers DNS queries of the host, keeps firewall rules, and reports connections.
--
-- The parts and their files:
--
-- - Prelude, Text, Assoc, Sets: tests, lists, the functions of Go's package strings on lists of
--   characters, Go's maps as association lists, and `seen` sets.
-- - Dns: the resolver of the host. Dns/Domain (dns/egressdomains.go, and
--   canonicalizeDomainForMatching of dns/resolver.go) says which names are egress domains;
--   Dns/BestMatch (findBestMatch) and Dns/Servers (egressResolutionServersFrom, limitEgressIPs,
--   limitEgressDNSAnswers) choose the servers and cut the answers; Dns/Records (dns/dns.go SyncDNS,
--   RegisterA, RegisterAAAA, Lookup) is the store of the local records; Dns/Resolver
--   (handleDNSRequest, ResolveEgressQuery, exchangeDNSQueryWithPool, recordDNSAnswers) is the
--   handler; Dns/QueryCache (dns/querycache/cache.go) remembers which name an address was resolved
--   from, for the flow reports.
-- - Wireguard: Wireguard/Igw (wireguard/igw.go) is the monitor of the internet gateway and its
--   checks; Wireguard/Egress (wireguard/egress.go) the failover of egress ranges among gateways; Wireguard/Peers (wireguard/wireguard.go,
--   wireguard/extra_allowed_ips.go) the peers that SetPeers sets, with the endpoints and networks
--   that the other parts add.
-- - Firewall: Firewall/Manager and Firewall/Specs (firewall/iptables_linux.go) are the rule tables
--   and the arguments of the rules; Firewall/Acl (firewall/acl.go, AddAclRules, UpsertAclRule,
--   DeleteAclRule, ChangeACLInTarget, ChangeACLFwdTarget) the policies of the host; Firewall/Egress
--   (firewall/egress.go and the AclEgress functions of firewall/iptables_linux.go) those of egress
--   gateways. Firewall/Chains is the chains, their jumps and FlushAll of
--   firewall/iptables_linux.go; Firewall/Routing (SetEgressRoutes, InsertEgressRoutingRules,
--   RemoveRoutingRules) and Firewall/Vnat (firewall/virtual_nat.go, firewall/utils.go) the routes
--   of egress gateways; Firewall/Ingress (firewall/ingress.go) those of ingress gateways.
--   Firewall/Kernel is the calls of go-iptables. Firewall/Nft (firewall/nftables_linux.go) is the
--   policies of the host in the second implementation, with the expressions of its rules and how
--   nftables runs them.
-- - Flow: Flow/Tracker (flow/tracker/tracker.go, and the filter of flow/manager_linux.go) makes the
--   events of connections; Flow/Sysctl the kernel settings that New turns on and Close puts back.
-- - AutoRelay (functions/auto_relay.go): the choice of a relay or a gateway by latency.
-- - Config (config/config.go, config/server.go): Config/Host is UpdateHost, Config/Servers the map
--   of servers and the current one, Config/Locks the loops of Lock and Unlock, and Config/Atomic
--   WriteJSONAtomic with the states of the disk that it goes through.
-- - Handlers (functions/mqhandlers.go, functions/egressdomains.go): the handlers of messages, which
--   change the configuration and drive the other parts by effects. Handlers/Connection and
--   Handlers/Settings are the parts of HostPeerUpdate and mqFallbackPull, which Handlers/PeerUpdate
--   puts together; Handlers/HostUpdate is HostUpdate; Handlers/EgressDomain the updates of the
--   addresses of egress domains, and Handlers/Pull the end of Pull (functions/pull.go).
-- - Tests: the theorems at concrete inputs, and runs of the models.
--
-- Correspondence. A function keeps its name in snake case; a type its name. Texts are lists of
-- character codes; addresses, keys and networks are their texts, which is how the code compares
-- them. Numbers are natural numbers; where the code counts with int, the comment of the file says
-- why the count stays in range. A mutex is left out where one operation holds it from its first
-- read to its last write. The state that a function reads or writes is an argument and a result. A
-- loop is a recursion on the list that it goes over, so it ends. Only Lock and Unlock wait for
-- other processes: their rounds are on fuel, and 52 rounds are enough, since a round starts a tenth
-- of a second behind the one before and five seconds are the limit. `range` over a map goes over
-- the association list in its order, which is arbitrary.
--
-- Parameters. Code that the repository does not hold is an argument: net and netip (parsing and
-- printing of addresses), the DNS exchange over the network, wgtypes.ParseKey, net.ParseCIDR,
-- UniqueIPNetList of the netmaker module, go-iptables with the rules of the kernel, and the probe
-- of a peer's connection; for the handlers also decryption and decoding, semver, strconv.Atoi,
-- DeepEqual, and the calls of the system. A theorem that relies on one of them names what it relies
-- on as a hypothesis.
--
-- Not modelled: the commands and the daemon, registration and publishing, NodeUpdate, DNSSync and
-- endpoint detection, the readers of the configuration files, the rest of the nftables
-- implementation of the firewall, the platform code for interfaces and routes, NAT discovery,
-- metrics, and posture checks; the sort of the gateways by metric and latency is an argument.
pub mod Prelude
pub mod Text
pub mod Assoc
pub mod Sets
pub mod Dns
pub mod Wireguard
pub mod Firewall
pub mod Config
pub mod Flow
pub mod Handlers
pub mod AutoRelay
pub mod Tests
