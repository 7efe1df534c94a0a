-- ===== src/Wireguard/Igw/Health.antt =====
-- When the monitor takes the gateway for down or for up again.
use netclient.Prelude.{
  ℕ, ◌+◌, ◌≤◌, ◌<◌, ◌≡◌, refl, List, [], ◌∷◌, Bool, true, false, not, ◌&&◌, if◌then◌else◌, leb,
  Option, none, some, arith,
}
use netclient.Text.{Text}
use netclient.Wireguard.Types.{Peer}
use netclient.Wireguard.Igw.{
  IgwStatus, Action, update_peer, set_default_routes_on_host, reset_default_routes_on_host, Dial,
  Observation, peer_error, peer_not_found, peer_found, checked, check, is_host_reachable,
  replace_ips, restored_ips, removed_ips, new_status,
}

-- How many of the last probes had the given verdict, newest first. The checks that made no probe are
-- passed over: they do not end the streak, also where the peer was lost and the gateway went down.
unfoldable pub streak : Bool → List Observation → ℕ
unfolding is_host_reachable
streak verdict [] = 0
streak verdict (peer_error ∷ os) = streak verdict os
streak verdict (peer_not_found ∷ os) = streak verdict os
streak true (peer_found igw dial ∷ os) = if is_host_reachable dial then streak true os + 1 else 0
streak false (peer_found igw dial ∷ os) = if is_host_reachable dial then 0 else streak false os + 1

module _ (parse_key : Text → Option Text) where
  -- A run of checks of a status, the newest observation first.
  pub data Run (s0 : IgwStatus) : List Observation → IgwStatus → Type 0 where
    start : Run s0 [] s0
    tick :
        {os : List Observation} {s t : IgwStatus} {acts : List Action} (o : Observation)
        → Run s0 os s
        → check parse_key s o ≡ checked t acts
        → Run s0 (o ∷ os) t

  -- What holds of a status after the observations.
  pub record Tracks (os : List Observation) (s : IgwStatus) : Type 0 where
    pub successes : s.success_count ≡ streak true os
    pub failures : s.failure_count ≡ streak false os
    pub not_overdue : s.is_healthy ≡ true → s.failure_count < 3

  check-Tracks :
      (os : List Observation) (s t : IgwStatus) (acts : List Action) (o : Observation)
      → Tracks os s
      → check parse_key s o ≡ checked t acts
      → Tracks (o ∷ os) t
  unfolding check streak
  check-Tracks os s t acts peer_error k h = ground arith
  check-Tracks os s t acts peer_not_found k h = ground arith
  check-Tracks os s t acts (peer_found igw dial) k h = ground arith

  Run-Tracks :
      (pk ip : Text) (v4 : Bool) {os : List Observation} {s : IgwStatus}
      → Run (new_status pk ip v4) os s
      → Tracks os s
  unfolding new_status streak
  Run-Tracks pk ip v4 start = ground arith
  Run-Tracks pk ip v4 (tick {os} {s} {t} {acts} o r h) =
      check-Tracks os s t acts o (Run-Tracks pk ip v4 r) h

-- Whether a gateway counts as up after an observation, given whether it did before and what was
-- observed earlier: it goes down when the interface has lost the peer, or at the third failed probe
-- in a row. It comes up at a good probe with at least two good ones just before it among the probes,
-- whether these were made before the gateway went down or after.
unfoldable pub health_after : Bool → Bool → List Observation → Observation → Bool
health_after key_parses up os peer_error = up
health_after key_parses up os peer_not_found = up && not key_parses
health_after key_parses up os (peer_found igw dial) =
    if up
    then not (leb 3 (streak false (peer_found igw dial ∷ os)))
    else leb 3 (streak true (peer_found igw dial ∷ os))

abbrev pub is_some : Option Text → Bool
is_some none = false
is_some (some k) = true

-- The key and the networks of the peer that an observation names.
abbrev pub peer_of : Option Text → Observation → Text × List Text
peer_of key (peer_found igw dial) = (igw.public_key, igw.allowed_ips)
peer_of none o = ([], [])
peer_of (some k) o = (k, [])

-- The calls that a change makes; no change makes none.
unfoldable pub calls_of : IgwStatus → Bool → Text × List Text → List Action
calls_of s up (key, ips) =
    if s.is_healthy
    then (if up
        then []
        else update_peer (replace_ips key (removed_ips ips)) ∷ reset_default_routes_on_host ∷ [])
    else (if up
        then update_peer (replace_ips key (restored_ips s.is_v4 ips))
          ∷ set_default_routes_on_host s.public_key s.network_ip
          ∷ []
        else [])

module _ (parse_key : Text → Option Text) where
  -- At every check after a start of the monitor, the gateway's state follows the streaks of the
  -- probes. It goes down at the third failed probe in a row, or when the interface has lost the peer.
  -- It comes up at the third good probe in a row, where a check that finds the peer lost is no probe
  -- and does not break the row: a gateway with two good probes that is then lost comes up at the
  -- first good probe behind that, and not only after three, as IGWRecoveryThreshold says. The peer's
  -- default routes and the host's are removed exactly when it goes down and restored exactly when it
  -- comes up; no other check makes a call.
  pub check-health_after :
      (pk ip : Text) (v4 : Bool) (os : List Observation) (s t : IgwStatus) (acts : List Action)
      (o : Observation)
      → Run parse_key (new_status pk ip v4) os s
      → check parse_key s o ≡ checked t acts
      → (t.is_healthy ≡ health_after (is_some (parse_key s.public_key)) s.is_healthy os o)
        × (acts ≡ calls_of s t.is_healthy (peer_of (parse_key s.public_key) o))
  unfolding check health_after calls_of streak
  check-health_after pk ip v4 os s t acts peer_error r h = ground arith
  check-health_after pk ip v4 os s t acts peer_not_found r h = ground arith
  check-health_after pk ip v4 os s t acts (peer_found igw dial) r h =
      let k = Run-Tracks parse_key pk ip v4 r in ground (arith, k.not_overdue)

  -- A gateway that was reached at least twice in a row, then lost from the interface, counts as up
  -- again at the first good probe after that, and not only at the third: the count of good probes
  -- is not reset when the peer is lost.
  pub recovers_at_once :
      (s : IgwStatus) (igw : Peer) (ep : Text × ℕ) (key : Text)
      → s.is_healthy ≡ true
      → 2 ≤ s.success_count
      → parse_key s.public_key ≡ some key
      → igw.endpoint ≡ some ep
      → (lost up : IgwStatus) × (a b : List Action) × (check parse_key s peer_not_found
          ≡ checked lost a)
        × (lost.is_healthy ≡ false)
        × (check parse_key lost (peer_found igw Dial.connected) ≡ checked up b)
        × (up.is_healthy ≡ true)
  unfolding check
  recovers_at_once s igw ep key up count parsed found = (
    record s { is_healthy = false },
    record s { is_healthy = true; success_count = s.success_count + 1; failure_count = 0 },
    update_peer (replace_ips key (removed_ips [])) ∷ reset_default_routes_on_host ∷ [],
    update_peer (replace_ips igw.public_key (restored_ips s.is_v4 igw.allowed_ips))
        ∷ set_default_routes_on_host s.public_key s.network_ip
        ∷ [],
    ground arith,
    refl,
    ground arith,
    refl,
  )
