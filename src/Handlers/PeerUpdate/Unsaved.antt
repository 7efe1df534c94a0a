-- ===== src/Handlers/PeerUpdate/Unsaved.antt =====
-- functions/mqhandlers.go: the version and the metrics port of the server, which HostPeerUpdate
-- takes into its own copy of the entry and writes with the entries of the configuration.
use netclient.Prelude.{◌≡◌, refl, true, false, arith}
use netclient.Text.{Text, text_eq_refl}
use netclient.Config.Servers.{Server, Servers}
use netclient.Handlers.{PeerData, Env, HandlerState}
use netclient.Handlers.Connection.{put_peers}
use netclient.Handlers.Settings.{
  set_settings, set_dns, set_stun, set_stun_servers, set_pro, save_settings, same_bool, dns_differs,
}
use netclient.Handlers.PeerUpdate.{start_state, update_peers}
use netclient.Handlers.PeerUpdate.Steps.{
  AtEnd, Keeps, IsQuiet, put_peers-Keeps, finish_update-servers, update_peers-AtEnd,
}

module _ {X : Type 0} (env : Env X) (u : PeerData X) where
  -- The update has the settings of the entry, except for the version and the metrics port.
  abbrev pub HasSettings : Server → Type 0
  HasSettings server =
      (server.config.manage_dns ≡ u.manage_dns)
      × (dns_differs env u server ≡ false)
      × (server.config.stun ≡ u.stun)
      × (server.config.stun_servers ≡ u.stun_servers)
      × (u.is_pro ≡ true → server.config.is_pro ≡ true)

  abbrev IsIdle : Servers → HandlerState X → Type 0
  IsIdle servers s = (s.servers ≡ servers) × IsQuiet env u s × HasSettings s.server

  IsIdle-Keeps :
      (servers : Servers) (s t : HandlerState X)
      → IsIdle servers s
      → Keeps env u s t
      → IsIdle servers t
  unfolding dns_differs
  IsIdle-Keeps servers s t h k = ground (arith, h, k)

  set_settings-idle :
      (servers : Servers) (name : Text) (s : HandlerState X)
      → IsIdle servers s
      → (set_settings env u name s).servers ≡ servers
  unfolding set_settings save_settings set_dns set_stun set_stun_servers set_pro same_bool
  set_settings-idle servers name s h = ground (arith, h, text_eq_refl u.stun_servers)

  -- HostPeerUpdate with an update that has the settings of the server, except for its version and
  -- its metrics port, leaves the configuration as it was, those two included.
  pub update_peers-unsaved :
      (name : Text) (server : Server) (servers : Servers)
      → server.config.ip_detection_interval ≡ u.ip_detection_interval
      → HasSettings server
      → AtEnd (λ t. t.servers ≡ servers) (update_peers env u name (start_state server servers))
  update_peers-unsaved name server servers i h =
      update_peers-AtEnd env u (IsIdle servers) (IsIdle-Keeps servers) (λ t. t.servers ≡ servers)
        name (start_state server servers) (refl, (refl, i), h)
        (λ t k. rw (finish_update-servers env u (set_settings env u name (put_peers env u t))) (
          set_settings-idle servers name (put_peers env u t)
            (IsIdle-Keeps servers t (put_peers env u t) k (put_peers-Keeps env u t))))
