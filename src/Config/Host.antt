-- ===== src/Config/Host.antt =====
-- config/config.go: UpdateHost, the server's copy of the host taken into the configuration. What the
-- interface listens on and whether a port is free are asked of the system; keys, addresses and IDs
-- are their texts, and a nil address is none. A port is an int, which is no less than zero.
pub mod Agreed
use netclient.Prelude.{ℕ, Bool, true, false, not, ◌&&◌, Option, none, some, ◌==◌, if◌then◌else◌}
use netclient.Text.{Text}

-- schema.Host, in the fields that the code reads or keeps, with some that only the server sets.
pub record Host : Type 0 where
  pub id : Text
  pub name : Text
  pub verbosity : ℕ
  pub listen_port : ℕ
  pub wg_public_listen_port : ℕ
  pub mtu : ℕ
  pub is_static : Bool
  pub auto_update : Bool
  pub endpoint_ip : Option Text
  pub endpoint_ip6 : Option Text
  pub interface : Text
  pub os : Text
  pub os_family : Text
  pub os_version : Text
  pub kernel_version : Text
  pub firewall_in_use : Text
  pub daemon_installed : Bool
  pub version : Text
  pub mac_address : Text
  pub public_key : Text
  pub traffic_key_public : Text
  pub host_pass : Text
  pub entra_device_id : Text
  pub serial_number : Text
  pub hardware_uuid : Text

-- The port that is taken, and whether to restart or to send the host to the server.
pub record PortChoice : Type 0 where
  pub port : ℕ
  pub restart : Bool
  pub send : Bool

-- The results of UpdateHost, with the host that it stores.
pub record HostUpdated : Type 0 where
  pub reset_interface : Bool
  pub restart : Bool
  pub send_host_update : Bool
  pub host : Host

-- An endpoint that the server does not know is not taken from it.
abbrev kept_endpoint : Bool → Option Text → Option Text → Option Text
kept_endpoint true new old = new
kept_endpoint false none old = old
kept_endpoint false (some e) old = some e

-- The fields that the server does not change.
unfoldable pub keep_own_fields : Host → Host → Host
keep_own_fields cfg host = record host {
  interface = cfg.interface;
  os = cfg.os;
  os_family = cfg.os_family;
  os_version = cfg.os_version;
  kernel_version = cfg.kernel_version;
  firewall_in_use = cfg.firewall_in_use;
  daemon_installed = cfg.daemon_installed;
  id = cfg.id;
  version = cfg.version;
  mac_address = cfg.mac_address;
  public_key = cfg.public_key;
  traffic_key_public = cfg.traffic_key_public;
  wg_public_listen_port = cfg.wg_public_listen_port;
  endpoint_ip = kept_endpoint host.is_static host.endpoint_ip cfg.endpoint_ip;
  endpoint_ip6 = kept_endpoint host.is_static host.endpoint_ip6 cfg.endpoint_ip6;
  host_pass = cfg.host_pass;
  entra_device_id = cfg.entra_device_id;
  serial_number = cfg.serial_number;
  hardware_uuid = cfg.hardware_uuid;
}

module _ (actual_port : Option ℕ) (is_port_free : ℕ → Bool) where
  -- The port where the server's differs from that of the configuration.
  unfoldable pub choose_port : ℕ → ℕ → PortChoice
  choose_port configured wanted = elim actual_port [
    | some actual ↦
        if actual == wanted
        then record { port = actual; restart = false; send = false }
        else if actual == configured
        then if is_port_free wanted
          then record { port = wanted; restart = true; send = false }
          else record { port = actual; restart = false; send = true }
        else record { port = actual; restart = false; send = true }
    | none ↦
        if is_port_free wanted
        then record { port = wanted; restart = true; send = false }
        else record { port = configured; restart = false; send = true }
  ]

  unfoldable pub port_choice : Host → Host → PortChoice
  port_choice cfg host =
      if not (host.listen_port == 0) && not (cfg.listen_port == host.listen_port)
      then choose_port cfg.listen_port host.listen_port
      else record { port = host.listen_port; restart = false; send = false }

  -- UpdateHost for the host `cfg` of the configuration; without a host nothing is changed.
  unfoldable pub update_host : Host → Option Host → HostUpdated
  update_host cfg none = record {
    reset_interface = false;
    restart = false;
    send_host_update = false;
    host = cfg;
  }
  update_host cfg (some host) =
      let choice = port_choice cfg host in
      record {
        reset_interface = not (host.mtu == 0) && not (cfg.mtu == host.mtu);
        restart = choice.restart;
        send_host_update = choice.send;
        host = keep_own_fields cfg (record host { listen_port = choice.port });
      }
