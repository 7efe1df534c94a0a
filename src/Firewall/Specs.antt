-- ===== src/Firewall/Specs.antt =====
-- firewall/iptables_linux.go: the arguments of the rules of a policy, for one address family. The
-- four functions that add a policy's rules differ in whether they name the protocol ALL, whether
-- they sign the rule, where they put the protocol, and whether they leave nil addresses out.
use netclient.Prelude.{List, [], ◌∷◌, ◌++◌, map, ◌==◌, ◌||◌, if◌then◌else◌, is_empty, none, some}
use netclient.Text.{Text, codes, text_eq}
use netclient.Firewall.Types.{Net, all_protocol, target_accept}

-- The text of a net.IPNet.
abbrev pub net_string : Net → Text
net_string none = codes "<nil>"
net_string (some n) = n

-- strings.Join(l, ",")
unfoldable pub join : List Text → Text
join [] = []
join (s ∷ []) = s
join (s ∷ t ∷ l) = s ++ b',' ∷ join (t ∷ l)

abbrev pub netmaker_comment : List Text
netmaker_comment = codes "-m" ∷ codes "comment" ∷ codes "--comment" ∷ codes "NETMAKER" ∷ []

-- appendNetmakerCommentToRule
unfoldable pub append_netmaker_comment_to_rule : List Text → List Text
append_netmaker_comment_to_rule spec = spec ++ netmaker_comment

-- strings.ReplaceAll(port, "-", ":")
unfoldable pub port_range : Text → Text
port_range = map (λ c. if c == b'-' then b':' else c)

unfoldable pub destination_args : List Text → List Text
destination_args ips = if is_empty ips then [] else codes "-d" ∷ join ips ∷ []

-- The protocol that the functions which update a policy give.
unfoldable pub any_protocol_args : Text → List Text
any_protocol_args p = if is_empty p then [] else codes "-p" ∷ p ∷ []

-- The protocol that the functions which add policies give: not ALL.
unfoldable pub protocol_args : Text → List Text
protocol_args p = if is_empty p || text_eq p all_protocol then [] else codes "-p" ∷ p ∷ []

abbrev pub accept_args : List Text
accept_args = codes "-j" ∷ target_accept ∷ []

-- One rule for each port that is not empty, or one rule for all ports; `finish` signs it.
unfoldable pub port_specs : (List Text → List Text) → List Text → List Text → List (List Text)
port_specs finish front [] = []
port_specs finish front (p ∷ ports) =
    let rest = port_specs finish front ports in
    if is_empty p
    then rest
    else finish (front ++ codes "--dport" ∷ port_range p ∷ accept_args) ∷ rest

unfoldable pub rule_specs : (List Text → List Text) → List Text → List Text → List (List Text)
rule_specs finish front [] = finish (front ++ accept_args) ∷ []
rule_specs finish front (p ∷ ports) = port_specs finish front (p ∷ ports)

-- The addresses with an IP, as the rules on egress traffic take them.
unfoldable pub present : List Net → List Text
present [] = []
present (none ∷ nets) = present nets
present (some n ∷ nets) = n ∷ present nets
