-- ===== src/Config/Host/Agreed.antt =====
-- config/config.go: what UpdateHost lets the server change.
use netclient.Prelude.{ℕ, ◌≡◌, ◌≢◌, ◌⊎◌, Bool, true, false, Option, none, some, arith}
use netclient.Config.Host.{
  Host, PortChoice, HostUpdated, choose_port, port_choice, keep_own_fields, update_host,
}

-- The fields that say what the host is.
abbrev pub HasOwnFields : Host → Host → Type 0
HasOwnFields old new =
    (new.id ≡ old.id)
    × (new.interface ≡ old.interface)
    × (new.os ≡ old.os)
    × (new.os_family ≡ old.os_family)
    × (new.os_version ≡ old.os_version)
    × (new.kernel_version ≡ old.kernel_version)
    × (new.firewall_in_use ≡ old.firewall_in_use)
    × (new.daemon_installed ≡ old.daemon_installed)
    × (new.version ≡ old.version)
    × (new.mac_address ≡ old.mac_address)
    × (new.public_key ≡ old.public_key)
    × (new.traffic_key_public ≡ old.traffic_key_public)
    × (new.wg_public_listen_port ≡ old.wg_public_listen_port)
    × (new.host_pass ≡ old.host_pass)
    × (new.entra_device_id ≡ old.entra_device_id)
    × (new.serial_number ≡ old.serial_number)
    × (new.hardware_uuid ≡ old.hardware_uuid)

module _ (actual_port : Option ℕ) (is_port_free : ℕ → Bool) where
  -- What the choice says of the port: a restart takes the server's port, which is free and is not
  -- what the interface listens on; a message to the server refuses its port, for the one that the
  -- interface has, or that of the configuration where that is not known; else the server's port is
  -- the one that stands or that the interface has, or it is zero.
  abbrev pub IsAgreed : ℕ → ℕ → PortChoice → Type 0
  IsAgreed configured wanted c =
      (c.restart ≡ true
        → (c.send ≡ false)
          × (c.port ≡ wanted)
          × (is_port_free wanted ≡ true)
          × (configured ≢ wanted)
          × ((actual_port ≡ none) ⊎ (actual_port ≡ some configured)))
      × (c.send ≡ true
          → (c.restart ≡ false)
            × (c.port ≢ wanted)
            × ((actual_port ≡ some c.port) ⊎ ((actual_port ≡ none) × (c.port ≡ configured))))
      × (c.restart ≡ false
          → c.send ≡ false
          → (c.port ≡ wanted)
            × ((wanted ≡ 0) ⊎ ((wanted ≡ configured) ⊎ (actual_port ≡ some wanted))))

  port_choice-IsAgreed :
      (cfg host : Host)
      → IsAgreed cfg.listen_port host.listen_port (port_choice actual_port is_port_free cfg host)
  unfolding port_choice choose_port
  port_choice-IsAgreed cfg host = ground arith

  -- What UpdateHost with the server's `host` gives, over the host `cfg` of the configuration.
  abbrev pub IsHostUpdate : Host → Host → HostUpdated → Type 0
  IsHostUpdate cfg host r =
      HasOwnFields cfg r.host
      × (host.is_static ≡ false → cfg.endpoint_ip ≢ none → r.host.endpoint_ip ≢ none)
      × (host.is_static ≡ false → cfg.endpoint_ip6 ≢ none → r.host.endpoint_ip6 ≢ none)
      × (r.reset_interface ≡ true → (r.host.mtu ≢ 0) × (r.host.mtu ≢ cfg.mtu))
      × IsAgreed cfg.listen_port host.listen_port
          (record { port = r.host.listen_port; restart = r.restart; send = r.send_host_update })

  -- UpdateHost with a host of the server: the fields that say what the host is stay as they were;
  -- an endpoint that is known is not lost, unless the host is static; the interface is reset only
  -- for an MTU that is not zero and not that of the configuration; and the port is agreed on: a
  -- restart takes the server's port, free and not yet listened on, a message to the server refuses
  -- it for the one in use, never both, and else the port is the server's.
  pub update_host-IsHostUpdate :
      (cfg host : Host)
      → IsHostUpdate cfg host (update_host actual_port is_port_free cfg (some host))
  unfolding update_host keep_own_fields
  update_host-IsHostUpdate cfg host = ground (arith, port_choice-IsAgreed cfg host)
