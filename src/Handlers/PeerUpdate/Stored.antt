-- ===== src/Handlers/PeerUpdate/Stored.antt =====
-- functions/mqhandlers.go: the configuration behind HostPeerUpdate and mqFallbackPull.
use netclient.Prelude.{ℕ, ◌≡◌, refl, inl, inr, Bool, some, arith, Option-cases}
use netclient.Text.{Text}
use netclient.Config.Servers.{Server, Servers, get_server}
use netclient.Handlers.{go, PeerData, Env, HandlerState}
use netclient.Handlers.Connection.{put_peers}
use netclient.Handlers.Settings.{set_settings}
use netclient.Handlers.Settings.Settled.{IsKept, IsStored, IsDeepEqual, set_settings-IsStored}
use netclient.Handlers.PeerUpdate.{
  start_state, update_peers, update_from_pull, Codec, read_message, host_peer_update,
  mq_fallback_pull,
}
use netclient.Handlers.PeerUpdate.Steps.{
  AtEnd, Keeps, put_peers-Keeps, finish_update-servers, finish_pull-servers, update_peers-AtEnd,
  update_from_pull-AtEnd,
}

module _ {X : Type 0} (env : Env X) (u : PeerData X) where
  IsKept-Keeps :
      (name : Text) (s t : HandlerState X)
      → IsKept env u name s
      → Keeps env u s t
      → IsKept env u name t
  IsKept-Keeps name s t (stored, l, same) k =
      (stored, ground (arith, l, k), ground (arith, same, k))

  put_settings-IsStored :
      (name : Text) (s : HandlerState X)
      → IsDeepEqual env u
      → IsKept env u name s
      → IsStored env u name (set_settings env u name (put_peers env u s))
  put_settings-IsStored name s d k =
      set_settings-IsStored env u name (put_peers env u s) d
        (IsKept-Keeps name s (put_peers env u s) k (put_peers-Keeps env u s))

  update_peers-IsStored :
      (name : Text) (s : HandlerState X)
      → IsDeepEqual env u
      → IsKept env u name s
      → AtEnd (IsStored env u name) (update_peers env u name s)
  update_peers-IsStored name s d k =
      update_peers-AtEnd env u (IsKept env u name) (IsKept-Keeps name) (IsStored env u name) name s
        k
        (λ t k'.
          rw (finish_update-servers env u (set_settings env u name (put_peers env u t)))
            (put_settings-IsStored name t d k'))

  update_from_pull-IsStored :
      (auto_update : Bool) (name : Text) (s : HandlerState X)
      → IsDeepEqual env u
      → IsKept env u name s
      → AtEnd (IsStored env u name) (update_from_pull env u auto_update name s)
  update_from_pull-IsStored auto_update name s d k =
      update_from_pull-AtEnd env u (IsKept env u name) (IsKept-Keeps name) (IsStored env u name)
        auto_update name s k
        (λ t k'.
          rw (finish_pull-servers env u (set_settings env u name (put_peers env u t)))
            (put_settings-IsStored name t d k'))

  start-IsKept :
      (name : Text) (server : Server) (servers : Servers)
      → get_server name servers ≡ some server
      → IsKept env u name (start_state server servers)
  start-IsKept name server servers h = (server, h, (refl, refl, refl, refl, refl, refl))

  -- mqFallbackPull that runs to its end leaves in the configuration the settings of the pull.
  pub mq_fallback_pull-IsStored :
      (auto_update : Bool) (name : Text) (servers : Servers) (t : HandlerState X)
      → IsDeepEqual env u
      → mq_fallback_pull env u auto_update name servers ≡ some (go t)
      → IsStored env u name t
  unfolding mq_fallback_pull
  mq_fallback_pull-IsStored auto_update name servers t d h =
      elim (Option-cases (get_server name servers)) [
        | inl e ↦ ground (arith, h, e)
        | inr (server, e) ↦
            let kept = start-IsKept name server servers e in
            let stored =
              update_from_pull-IsStored auto_update name (start_state server servers) d kept in
            let same : update_from_pull env u auto_update name (start_state server servers) ≡ go t =
              ground (arith, h, e) in
            rw same at stored
      ]

-- HostPeerUpdate that runs to its end leaves in the configuration, for its server, the settings of
-- the update: whether DNS is managed, with the domain and the filtered servers where it is, the STUN
-- setting and servers, and Pro where the update says so; where DeepEqual tells lists apart.
pub host_peer_update-IsStored :
    {X : Type 0} (env : Env X) (codec : Codec (PeerData X)) (u : PeerData X) (nodes : ℕ)
    (name payload : Text) (server : Server) (servers : Servers) (t : HandlerState X)
    → IsDeepEqual env u
    → get_server name servers ≡ some server
    → read_message codec server.name payload ≡ some u
    → host_peer_update env codec nodes name payload servers ≡ some (go t)
    → IsStored env u name t
unfolding host_peer_update
host_peer_update-IsStored env codec u nodes name payload server servers t d l m h =
    let kept = start-IsKept env u name server servers l in
    let stored = update_peers-IsStored env u name (start_state server servers) d kept in
    let same : update_peers env u name (start_state server servers) ≡ go t =
      ground (arith, h, l, m) in
    rw same at stored
