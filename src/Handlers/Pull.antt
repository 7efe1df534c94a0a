-- ===== src/Handlers/Pull.antt =====
-- functions/pull.go: the end of Pull, and mqFallbackPull, which reads behind it what it stored.
use netclient.Prelude.{
  ◌≡◌, ap, ◌∙◌, refl, Bool, true, Option, none, some, List, [], arith, length, ◌==◌, ==_refl,
}
use mathlib.Core.Path.{subst}
use netclient.Text.{Text, text_eq_refl}
use netclient.Assoc.{lookup-insert}
use netclient.Dns.Types.{Nameserver}
use netclient.Config.Servers.{
  Server, Servers, ServerConfig, new_server, get_server, update_server, update_server_config,
}
use netclient.Handlers.{go, PeerData, Env, HandlerState}
use netclient.Handlers.Settings.{dns_differs}
use netclient.Handlers.PeerUpdate.{start_state, update_from_pull, mq_fallback_pull}
use netclient.Handlers.PeerUpdate.Steps.{dns_ops}
use netclient.Handlers.PeerUpdate.DnsOps.{wanted_dns_ops, update_peers-dns_ops}

-- The server's settings and the filtered servers of DNS, for the host `id` and the current server
-- `name`; where the pull is of another server that is not known, the code would panic.
unfoldable pub store_pull : Text → ServerConfig → List Nameserver → Text → Servers → Servers
store_pull id cfg nameservers name servers =
    let servers' = update_server_config id (some cfg) servers in
    elim (get_server name servers') [
      | none ↦ servers'
      | some server ↦
          update_server server.name (record server { dns_nameservers = nameservers }) servers'
    ]

-- The end of Pull for the current server `name`: none, its error, where it is not known; else
-- whether the response is handed back, and what is stored. With another port for the metrics Pull
-- restarts the daemon and hands back an empty response, with the error of the restart.
unfoldable pub pull :
    Text → ServerConfig → List Nameserver → Text → Servers → Option (Bool × Servers)
pull id cfg nameservers name servers = elim (get_server name servers) [
  | none ↦ none
  | some server ↦
      some
        (server.config.metrics_port == cfg.metrics_port, store_pull id cfg nameservers name servers)
]

-- The entry of the server that UpdateServerConfig has filled.
config-get_server :
    (id : Text) (cfg : ServerConfig) (servers : Servers)
    → (server : Server) × (get_server cfg.server (update_server_config id (some cfg) servers)
        ≡ some server)
      × (server.config ≡ cfg)
      × (server.name ≡ cfg.server)
unfolding update_server_config
config-get_server id cfg servers =
    let old : Server = elim (get_server cfg.server servers) [
      | none ↦ new_server cfg
      | some s ↦ s
    ] in
    let server : Server = record old { name = cfg.server; mqid = id; config = cfg } in
    (
      server,
      ground (arith, lookup-insert cfg.server cfg.server server servers, text_eq_refl cfg.server),
      refl,
      refl,
    )

store_pull-known :
    (id : Text) (cfg : ServerConfig) (nameservers : List Nameserver) (name : Text)
    (servers : Servers) (server : Server)
    → get_server name (update_server_config id (some cfg) servers) ≡ some server
    → store_pull id cfg nameservers name servers
      ≡ update_server server.name
          (record server { dns_nameservers = nameservers })
          (update_server_config id (some cfg) servers)
unfolding store_pull
store_pull-known id cfg nameservers name servers server h = ground (arith, h)

store_pull-get_server :
    (id : Text) (cfg : ServerConfig) (nameservers : List Nameserver) (servers : Servers)
    → (server : Server) × (get_server cfg.server (store_pull id cfg nameservers cfg.server servers)
        ≡ some server)
      × (server.config ≡ cfg)
      × (server.dns_nameservers ≡ nameservers)
store_pull-get_server id cfg nameservers servers =
    let (server, known, same, named) = config-get_server id cfg servers in
    let server' : Server = record server { dns_nameservers = nameservers } in
    let servers' = update_server_config id (some cfg) servers in
    (
      server',
      rw (store_pull-known id cfg nameservers cfg.server servers server known) (
          ground (
            arith,
            named,
            lookup-insert server.name cfg.server server' servers',
            text_eq_refl cfg.server,
          )),
      same,
      refl,
    )

module _ {X : Type 0} (env : Env X) (u : PeerData X) where
  wanted-same :
      (server : Server)
      → server.config.manage_dns ≡ u.manage_dns
      → server.config.default_domain ≡ u.default_domain
      → server.dns_nameservers ≡ env.filter_dns_nameservers u.dns_nameservers
      → env.deep_equal
          (env.filter_dns_nameservers u.dns_nameservers)
          (env.filter_dns_nameservers u.dns_nameservers)
        ≡ true
      → wanted_dns_ops env u server ≡ []
  unfolding dns_differs
  wanted-same server m d n e = ground (
    arith,
    m,
    d,
    n,
    e,
    text_eq_refl u.default_domain,
    ==_refl (length (env.filter_dns_nameservers u.dns_nameservers)),
  )

  -- mqFallbackPull that runs to its end with the response that Pull has handed back, so that the
  -- port for the metrics is the one that the current server had, does nothing to the DNS server,
  -- whatever the other settings were before: Pull has stored the pulled ones. DeepEqual finds a list
  -- equal to itself, and the server of the response is the current one.
  pub mq_fallback_pull-no_dns_ops :
      (id : Text) (cfg : ServerConfig) (auto_update : Bool) (servers stored : Servers)
      (t : HandlerState X)
      → cfg.manage_dns ≡ u.manage_dns
      → cfg.default_domain ≡ u.default_domain
      → env.deep_equal
          (env.filter_dns_nameservers u.dns_nameservers)
          (env.filter_dns_nameservers u.dns_nameservers)
        ≡ true
      → pull id cfg (env.filter_dns_nameservers u.dns_nameservers) cfg.server servers
        ≡ some (true, stored)
      → mq_fallback_pull env u auto_update cfg.server stored ≡ some (go t)
      → dns_ops t.effects ≡ []
  unfolding mq_fallback_pull pull
  mq_fallback_pull-no_dns_ops id cfg auto_update servers stored t m d e p h =
      let ns = env.filter_dns_nameservers u.dns_nameservers in
      let same_store : store_pull id cfg ns cfg.server servers ≡ stored = ground (arith, p) in
      let (server, known', same, sent) = store_pull-get_server id cfg ns servers in
      let known = subst (λ s. get_server cfg.server s ≡ some server) same_store known' in
      let ended : update_from_pull env u auto_update cfg.server (start_state server stored) ≡ go t =
        ground (arith, known, h) in
      let does = (update_peers-dns_ops env u auto_update cfg.server server stored).1 in
      rw ended at does
      ∙ wanted-same server (ap (λ c. c.manage_dns) same ∙ m) (ap (λ c. c.default_domain) same ∙ d)
          sent e
