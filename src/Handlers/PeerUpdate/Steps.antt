-- ===== src/Handlers/PeerUpdate/Steps.antt =====
-- functions/mqhandlers.go: what the steps of HostPeerUpdate and mqFallbackPull leave alone.
use netclient.Prelude.{◌≡◌, refl, Bool, true, false, if◌then◌else◌, List, [], ◌∷◌, arith}
use netclient.Text.{Text}
use netclient.Handlers.{
  Effect, start_dns, stop_dns, configure_dns, Progress, go, stop, ◌>>=◌, PeerData, Env,
  HandlerState,
}
use netclient.Handlers.Connection.{
  set_check, reset_tickers, check_version, set_version, set_metrics_port, set_metric_interval,
  set_ip_interval, set_gateway, set_routes, sync_egress_domains, replace_peers, detect, put_peers,
}
use netclient.Handlers.Settings.{set_settings}
use netclient.Handlers.Settings.Settled.{SameSettings}
use netclient.Handlers.PeerUpdate.{
  set_flow, restart_for_stun, finish_update, finish_pull, update_peers, update_from_pull,
}

module _ {X : Type 0} where
  -- The operations on the DNS server among the effects.
  abbrev pub is_dns_op : Effect X → Bool
  is_dns_op start_dns = true
  is_dns_op stop_dns = true
  is_dns_op configure_dns = true
  is_dns_op _ = false

  abbrev pub dns_ops : List (Effect X) → List (Effect X)
  dns_ops [] = []
  dns_ops (e ∷ l) = if is_dns_op e then e ∷ dns_ops l else dns_ops l

  -- What holds where a function goes on to its end.
  abbrev pub AtEnd : (HandlerState X → Type 0) → Progress (HandlerState X) → Type 0
  AtEnd P (go s) = P s
  AtEnd P (stop s) = Unit

  AtEnd-bind :
      (P Q : HandlerState X → Type 0) (p : Progress (HandlerState X))
      (f : HandlerState X → Progress (HandlerState X))
      → AtEnd P p
      → ((s : HandlerState X) → P s → AtEnd Q (f s))
      → AtEnd Q (p >>= f)
  AtEnd-bind P Q (go s) f h k = k s h
  AtEnd-bind P Q (stop s) f h k = tt

module _ {X : Type 0} (env : Env X) (u : PeerData X) where
  -- Nothing is to be saved so far, and the interval of the update is the one that is set.
  abbrev pub IsQuiet : HandlerState X → Type 0
  IsQuiet s = (s.save ≡ false) × (s.server.config.ip_detection_interval ≡ u.ip_detection_interval)

  -- A step that leaves the configuration alone, and the settings of the handler's copy.
  abbrev pub Keeps : HandlerState X → HandlerState X → Type 0
  Keeps s t =
      (t.servers ≡ s.servers)
      × SameSettings s.server t.server
      × (IsQuiet s → IsQuiet t)
      × (dns_ops t.effects ≡ dns_ops s.effects)

  Keeps-trans : (s t r : HandlerState X) → Keeps s t → Keeps t r → Keeps s r
  Keeps-trans s t r h k = ground (arith, h, k)

  check-Keeps : (s : HandlerState X) → Keeps s (reset_tickers env u (set_check env u s))
  unfolding reset_tickers set_check
  check-Keeps s = ground arith

  check_version-Keeps :
      (auto_update : Bool) (s : HandlerState X)
      → AtEnd (Keeps s) (check_version env u auto_update s)
  unfolding check_version
  check_version-Keeps auto_update s = ground arith

  ports-Keeps : (s : HandlerState X) → Keeps s (set_metrics_port env u (set_version env u s))
  unfolding set_metrics_port set_version
  ports-Keeps s = ground arith

  set_metric_interval-Keeps : (s : HandlerState X) → AtEnd (Keeps s) (set_metric_interval env u s)
  unfolding set_metric_interval
  set_metric_interval-Keeps s = ground arith

  set_ip_interval-Keeps : (s : HandlerState X) → Keeps s (set_ip_interval env u s)
  unfolding set_ip_interval
  set_ip_interval-Keeps s = ground arith

  set_gateway-Keeps : (s : HandlerState X) → AtEnd (Keeps s) (set_gateway env u s)
  unfolding set_gateway
  set_gateway-Keeps s = ground arith

  set_routes-Keeps : (routes : List X) (s : HandlerState X) → Keeps s (set_routes env u routes s)
  unfolding set_routes
  set_routes-Keeps [] s = ground arith
  set_routes-Keeps (r ∷ routes) s = ground arith

  sync_egress_domains-Keeps :
      (domains : List X) (s : HandlerState X) → Keeps s (sync_egress_domains env u domains s)
  unfolding sync_egress_domains
  sync_egress_domains-Keeps [] s = ground arith
  sync_egress_domains-Keeps (d ∷ domains) s = ground arith

  replace_peers-Keeps : (s : HandlerState X) → Keeps s (replace_peers env u s)
  unfolding replace_peers
  replace_peers-Keeps s = ground arith

  detect-Keeps : (s : HandlerState X) → Keeps s (detect env u s)
  unfolding detect
  detect-Keeps s = ground arith

  pub put_peers-Keeps : (s : HandlerState X) → Keeps s (put_peers env u s)
  unfolding put_peers
  put_peers-Keeps s =
      let s1 = replace_peers env u s in
      let routes = env.append_extra_egress_routes u.egress_routes in
      let s2 = set_routes env u routes s1 in
      let s3 = detect env u s2 in
      let h1 = Keeps-trans s s1 s2 (replace_peers-Keeps s) (set_routes-Keeps routes s1) in
      let h2 = Keeps-trans s s2 s3 h1 (detect-Keeps s2) in
      Keeps-trans s s3 (put_peers env u s) h2 (sync_egress_domains-Keeps u.egress_domains s3)

  pub finish_update-servers : (s : HandlerState X) → (finish_update env u s).servers ≡ s.servers
  unfolding finish_update restart_for_stun set_flow
  finish_update-servers s = ground arith

  pub finish_pull-servers : (s : HandlerState X) → (finish_pull env u s).servers ≡ s.servers
  unfolding finish_pull restart_for_stun set_flow
  finish_pull-servers s = ground arith

  -- A predicate that the steps keep holds behind a step, where it goes on.
  module _ (P : HandlerState X → Type 0)
      (closed : (s t : HandlerState X) → P s → Keeps s t → P t) where
    then-AtEnd :
        (p : HandlerState X → Progress (HandlerState X)) (s t : HandlerState X)
        → P s
        → Keeps s t
        → AtEnd (Keeps t) (p t)
        → AtEnd P (p t)
    then-AtEnd p s t k h a = kept (p t) a
      where
        kept : (r : Progress (HandlerState X)) → AtEnd (Keeps t) r → AtEnd P r
        kept (go r) a' = closed t r (closed s t k h) a'
        kept (stop r) a' = tt

    -- Both functions are steps up to the settings, and then their end.
    pub update_peers-AtEnd :
        (Q : HandlerState X → Type 0) (name : Text) (s : HandlerState X)
        → P s
        → ((t : HandlerState X)
            → P t
            → Q (finish_update env u (set_settings env u name (put_peers env u t))))
        → AtEnd Q (update_peers env u name s)
    unfolding update_peers
    update_peers-AtEnd Q name s k finish =
        AtEnd-bind P Q _ _
          (AtEnd-bind P P _ _
            (AtEnd-bind P P _ _
              (then-AtEnd (check_version env u u.auto_update) s
                (reset_tickers env u (set_check env u s)) k (check-Keeps s)
                (check_version-Keeps u.auto_update _))
              (λ s1 k1.
                then-AtEnd (set_metric_interval env u) s1 _ k1 (ports-Keeps s1)
                  (set_metric_interval-Keeps _)))
            (λ s2 k2.
              then-AtEnd (set_gateway env u) s2 _ k2 (set_ip_interval-Keeps s2)
                (set_gateway-Keeps _)))
          finish

    pub update_from_pull-AtEnd :
        (Q : HandlerState X → Type 0) (auto_update : Bool) (name : Text) (s : HandlerState X)
        → P s
        → ((t : HandlerState X)
            → P t
            → Q (finish_pull env u (set_settings env u name (put_peers env u t))))
        → AtEnd Q (update_from_pull env u auto_update name s)
    unfolding update_from_pull
    update_from_pull-AtEnd Q auto_update name s k finish =
        AtEnd-bind P Q _ _
          (AtEnd-bind P P _ _
            (then-AtEnd (check_version env u auto_update) s s k
              (refl, (refl, refl, refl, refl, refl, refl), (λ q. q), refl)
              (check_version-Keeps auto_update s))
            (λ s1 k1.
              (let s2 = set_metrics_port env u (set_version env u s1) in
                let s3 = set_ip_interval env u s2 in
                then-AtEnd (set_gateway env u) s1 s3 k1
                  (Keeps-trans s1 s2 s3 (ports-Keeps s1) (set_ip_interval-Keeps s2))
                  (set_gateway-Keeps s3))))
          finish
