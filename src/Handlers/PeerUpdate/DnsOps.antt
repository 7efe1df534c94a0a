-- ===== src/Handlers/PeerUpdate/DnsOps.antt =====
-- functions/mqhandlers.go: what HostPeerUpdate and mqFallbackPull do to the DNS server.
use netclient.Prelude.{
  ◌≡◌, ◌⊎◌, ap, ◌∙◌, sym, refl, Bool, true, not, List, [], ◌∷◌, arith, is_empty, if◌then◌else◌,
}
use netclient.Text.{Text}
use netclient.Config.Servers.{Server, Servers}
use netclient.Handlers.{PeerData, Env, HandlerState, Effect, start_dns, stop_dns, configure_dns}
use netclient.Handlers.Connection.{put_peers}
use netclient.Handlers.Settings.{
  DnsOp, nothing, start, stopping, update, set_settings, set_dns, set_stun, set_stun_servers,
  set_pro, save_settings, run_dns_op, same_bool, dns_differs,
}
use netclient.Handlers.Settings.Settled.{SameSettings}
use netclient.Handlers.PeerUpdate.{
  start_state, update_peers, update_from_pull, set_flow, restart_for_stun, finish_update,
  finish_pull,
}
use netclient.Handlers.PeerUpdate.Steps.{
  AtEnd, Keeps, dns_ops, put_peers-Keeps, update_peers-AtEnd, update_from_pull-AtEnd,
}

module _ {X : Type 0} (env : Env X) (u : PeerData X) where
  -- What an update asks of the DNS server, where `server` is the entry that is known.
  abbrev pub wanted_dns_ops : Server → List (Effect X)
  wanted_dns_ops server =
      if server.config.manage_dns
      then if not u.manage_dns
        then stop_dns ∷ []
        else if dns_differs env u server
        then (if is_empty env.dns_addr then [] else configure_dns ∷ [])
        else []
      else if u.manage_dns
      then start_dns ∷ []
      else []

  -- The operation that set_dns chooses is marked to be saved, and none is left out.
  set_dns-op :
      (s : HandlerState X) → ((set_dns env u s).0 ≡ nothing) ⊎ ((set_dns env u s).1.save ≡ true)
  unfolding set_dns
  set_dns-op s = ground arith

  set_rest-save :
      (s : HandlerState X)
      → (s.save ≡ true → (set_pro env u (set_stun_servers env u (set_stun env u s))).save ≡ true)
        × ((set_pro env u (set_stun_servers env u (set_stun env u s))).effects ≡ s.effects)
  unfolding set_pro set_stun_servers set_stun same_bool
  set_rest-save s = ground arith

  abbrev op_effects : DnsOp → List (Effect X)
  op_effects nothing = []
  op_effects start = start_dns ∷ []
  op_effects stopping = stop_dns ∷ []
  op_effects update = if is_empty env.dns_addr then [] else configure_dns ∷ []

  set_dns-effects :
      (s : HandlerState X)
      → (op_effects (set_dns env u s).0 ≡ wanted_dns_ops s.server)
        × ((set_dns env u s).1.effects ≡ s.effects)
  unfolding set_dns
  set_dns-effects s = ground arith

  save_settings-dns_ops :
      (name : Text) (op : DnsOp) (s : HandlerState X)
      → (op ≡ nothing) ⊎ (s.save ≡ true)
      → dns_ops s.effects ≡ []
      → dns_ops (save_settings env u name op s).effects ≡ op_effects op
  unfolding save_settings run_dns_op
  save_settings-dns_ops name nothing s h e = ground (arith, h, e)
  save_settings-dns_ops name start s h e = ground (arith, h, e)
  save_settings-dns_ops name stopping s h e = ground (arith, h, e)
  save_settings-dns_ops name update s h e = ground (arith, h, e)

  set_settings-dns_ops :
      (name : Text) (s : HandlerState X)
      → dns_ops s.effects ≡ []
      → dns_ops (set_settings env u name s).effects ≡ wanted_dns_ops s.server
  unfolding set_settings
  set_settings-dns_ops name s e =
      let s1 = (set_dns env u s).1 in
      let t = set_pro env u (set_stun_servers env u (set_stun env u s1)) in
      let (ops, same) = set_dns-effects s in
      let (saved, kept) = set_rest-save s1 in
      save_settings-dns_ops name (set_dns env u s).0 t (ground (arith, set_dns-op s, saved))
        (ap dns_ops (kept ∙ same) ∙ e)
      ∙ ops

  finish_update-dns_ops :
      (s : HandlerState X) → dns_ops (finish_update env u s).effects ≡ dns_ops s.effects
  unfolding finish_update restart_for_stun set_flow
  finish_update-dns_ops s = ground arith

  finish_pull-dns_ops :
      (s : HandlerState X) → dns_ops (finish_pull env u s).effects ≡ dns_ops s.effects
  unfolding finish_pull restart_for_stun set_flow
  finish_pull-dns_ops s = ground arith

  wanted-SameSettings : (a b : Server) → SameSettings a b → wanted_dns_ops a ≡ wanted_dns_ops b
  unfolding dns_differs
  wanted-SameSettings a b h = ground (arith, h)

  abbrev IsQuietOf : Server → HandlerState X → Type 0
  IsQuietOf server s = SameSettings server s.server × (dns_ops s.effects ≡ [])

  IsQuietOf-Keeps :
      (server : Server) (s t : HandlerState X)
      → IsQuietOf server s
      → Keeps env u s t
      → IsQuietOf server t
  IsQuietOf-Keeps server s t h k = (ground (arith, h, k), ground (arith, h, k))

  settled-dns_ops :
      (server : Server) (name : Text) (s : HandlerState X)
      → IsQuietOf server s
      → dns_ops (set_settings env u name (put_peers env u s)).effects ≡ wanted_dns_ops server
  settled-dns_ops server name s h =
      let t = put_peers env u s in
      let (same, none') = IsQuietOf-Keeps server s t h (put_peers-Keeps env u s) in
      set_settings-dns_ops name t none' ∙ sym (wanted-SameSettings server t.server same)

  abbrev pub DoesWanted : Server → HandlerState X → Type 0
  DoesWanted server t = dns_ops t.effects ≡ wanted_dns_ops server

  -- HostPeerUpdate and mqFallbackPull that run to their end do to the DNS server what the message
  -- asks, once, and no more: they stop it where it is no longer managed, start it where it is
  -- from now on, and configure it where it stays managed, with other settings, and has an address.
  pub update_peers-dns_ops :
      (auto_update : Bool) (name : Text) (server : Server) (servers : Servers)
      → AtEnd (DoesWanted server) (update_peers env u name (start_state server servers))
        × AtEnd
            (DoesWanted server)
            (update_from_pull env u auto_update name (start_state server servers))
  update_peers-dns_ops auto_update name server servers =
      let s : HandlerState X = start_state server servers in
      let quiet : IsQuietOf server s = ((refl, refl, refl, refl, refl, refl), refl) in
      (
        update_peers-AtEnd env u (IsQuietOf server) (IsQuietOf-Keeps server) (DoesWanted server)
            name s quiet
            (λ t k.
              finish_update-dns_ops (set_settings env u name (put_peers env u t))
              ∙ settled-dns_ops server name t k),
        update_from_pull-AtEnd env u (IsQuietOf server) (IsQuietOf-Keeps server) (DoesWanted server)
            auto_update name s quiet
            (λ t k.
              finish_pull-dns_ops (set_settings env u name (put_peers env u t))
              ∙ settled-dns_ops server name t k),
      )
