-- ===== src/Handlers/Settings/Settled.antt =====
-- functions/mqhandlers.go: what the configuration holds of the settings behind an update.
use netclient.Prelude.{
  ◌≡◌, refl, inl, inr, true, false, some, List, arith, if◌then◌else◌, Bool-cases,
}
use netclient.Text.{Text, text_eq_iff, text_eq_refl}
use netclient.Assoc.{lookup-insert}
use netclient.Dns.Types.{Nameserver}
use netclient.Config.Servers.{Server, get_server, update_server}
use netclient.Handlers.{PeerData, Env, HandlerState}
use netclient.Handlers.Settings.{
  DnsOp, same_bool, dns_differs, set_dns, set_stun, set_stun_servers, set_pro, run_dns_op,
  save_settings, set_settings,
}

-- Two entries with the same settings of DNS, STUN and Pro.
abbrev pub SameSettings : Server → Server → Type 0
SameSettings a b =
    (a.config.manage_dns ≡ b.config.manage_dns)
    × (a.config.default_domain ≡ b.config.default_domain)
    × (a.dns_nameservers ≡ b.dns_nameservers)
    × (a.config.stun ≡ b.config.stun)
    × (a.config.stun_servers ≡ b.config.stun_servers)
    × (a.config.is_pro ≡ b.config.is_pro)

module _ {X : Type 0} (env : Env X) (u : PeerData X) where
  -- The entry has the settings of the update.
  abbrev pub IsSettled : Server → Type 0
  IsSettled server =
      (server.config.manage_dns ≡ u.manage_dns)
      × (u.manage_dns ≡ true
          → (server.config.default_domain ≡ u.default_domain)
            × (server.dns_nameservers ≡ env.filter_dns_nameservers u.dns_nameservers))
      × (server.config.stun ≡ u.stun)
      × (server.config.stun_servers ≡ u.stun_servers)
      × (u.is_pro ≡ true → server.config.is_pro ≡ true)

  -- The handler's state with its copy of the entry, which has the settings of the configuration's.
  abbrev pub IsKept : Text → HandlerState X → Type 0
  IsKept name s =
      (stored : Server) × (get_server name s.servers ≡ some stored) × SameSettings stored s.server

  abbrev pub IsStored : Text → HandlerState X → Type 0
  IsStored name s = (stored : Server) × (get_server name s.servers ≡ some stored) × IsSettled stored

  abbrev pub IsDeepEqual : Type 0
  IsDeepEqual = (a b : List Nameserver) → env.deep_equal a b ≡ true → a ≡ b

  -- Where the state is to be saved, or was already; or the entry is the one at the start.
  abbrev IsMarked : HandlerState X → HandlerState X → Type 0
  IsMarked s t = (t.servers ≡ s.servers) × (t.save ≡ false → t.server ≡ s.server)

  set_dns-settles :
      (s : HandlerState X)
      → IsDeepEqual
      → ((set_dns env u s).1.server.config.manage_dns ≡ u.manage_dns)
        × (u.manage_dns ≡ true
            → ((set_dns env u s).1.server.config.default_domain ≡ u.default_domain)
              × ((set_dns env u s).1.server.dns_nameservers
                  ≡ env.filter_dns_nameservers u.dns_nameservers))
        × IsMarked s (set_dns env u s).1
  unfolding set_dns dns_differs
  set_dns-settles s d = ground (
    arith,
    text_eq_iff s.server.config.default_domain u.default_domain,
    d s.server.dns_nameservers (env.filter_dns_nameservers u.dns_nameservers),
  )

  set_rest-settles :
      (s : HandlerState X) (t : HandlerState X)
      → set_pro env u (set_stun_servers env u (set_stun env u s)) ≡ t
      → (t.server.config.stun ≡ u.stun)
        × (t.server.config.stun_servers ≡ u.stun_servers)
        × (u.is_pro ≡ true → t.server.config.is_pro ≡ true)
        × (t.server.config.manage_dns ≡ s.server.config.manage_dns)
        × (t.server.config.default_domain ≡ s.server.config.default_domain)
        × (t.server.dns_nameservers ≡ s.server.dns_nameservers)
        × (t.servers ≡ s.servers)
        × (t.save ≡ false → (t.server ≡ s.server) × (s.save ≡ false))
  unfolding set_pro set_stun_servers set_stun same_bool
  set_rest-settles s t h =
      ground (arith, h, text_eq_iff u.stun_servers s.server.config.stun_servers)

  save_settings-servers :
      (name : Text) (op : DnsOp) (s : HandlerState X)
      → (save_settings env u name op s).servers
        ≡ (if s.save then update_server name s.server s.servers else s.servers)
  unfolding save_settings run_dns_op
  save_settings-servers name op s = ground arith

  -- Behind the settings the configuration has those of the update.
  pub set_settings-IsStored :
      (name : Text) (s : HandlerState X)
      → IsDeepEqual
      → IsKept name s
      → IsStored name (set_settings env u name s)
  unfolding set_settings
  set_settings-IsStored name s d (stored, l, same) =
      let s1 = (set_dns env u s).1 in
      let t = set_pro env u (set_stun_servers env u (set_stun env u s1)) in
      let dns = set_dns-settles s d in
      let rest = set_rest-settles s1 t refl in
      let servers = save_settings-servers name (set_dns env u s).0 t in
      elim (Bool-cases t.save) [
        | inl e ↦ (
          t.server,
          ground (arith, servers, e, lookup-insert name name t.server t.servers, text_eq_refl name),
          ground (arith, dns, rest),
        )
        | inr e ↦
            (stored, ground (arith, servers, e, l, dns, rest), ground (arith, dns, rest, same, e))
      ]
