-- ===== src/Wireguard/Types.antt =====
-- The data of the WireGuard code. A network (net.IPNet) is its text, which is how the code compares
-- networks; a key is its text.
use netclient.Prelude.{ℕ, Bool, List, Option}
use netclient.Text.{Text, codes}

-- wgtypes.Peer, with the fields that the client reads. The endpoint is its address and port.
pub record Peer : Type 0 where
  pub public_key : Text
  pub endpoint : Option (Text × ℕ)
  pub allowed_ips : List Text

-- wgtypes.PeerConfig
pub record PeerConfig : Type 0 where
  pub public_key : Text
  pub endpoint : Option (Text × ℕ)
  pub allowed_ips : List Text
  pub remove : Bool
  pub replace_allowed_ips : Bool
  pub update_only : Bool

abbrev pub ipv4_network : Text
ipv4_network = codes "0.0.0.0/0"

abbrev pub ipv6_network : Text
ipv6_network = codes "::/0"
