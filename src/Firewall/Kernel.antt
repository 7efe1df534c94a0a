-- ===== src/Firewall/Kernel.antt =====
-- The further calls of package go-iptables that firewall/iptables_linux.go makes: on the chains, and
-- on rules at a position. A call that can fail gives none; where the code only logs a failure, the
-- rules of the kernel stay as they are. The first argument of a call on chains is the address family.
use netclient.Prelude.{ℕ, List, [], ◌∷◌, Bool, true, false, Option, none, some}
use netclient.Text.{Text}
use netclient.Firewall.Types.{RuleInfo, Iptables}

pub record ChainClient (K : Type 0) : Type 0 where
  pub rules : Iptables K
  pub append : RuleInfo → K → Option K
  pub append_unique : RuleInfo → K → Option K
  pub insert_unique : ℕ → RuleInfo → K → Option K
  pub exists : RuleInfo → K → Option Bool
  pub delete : RuleInfo → K → Option K
  pub list : Bool → Text → Text → K → Option (List Text)
  pub list_chains : Bool → Text → K → Option (List Text)
  pub chain_exists : Bool → Text → Text → K → Option Bool
  pub new_chain : Bool → Text → Text → K → Option K
  pub clear_chain : Bool → Text → Text → K → K
  pub delete_chain : Bool → Text → Text → K → K
  pub clear_and_delete_chain : Bool → Text → Text → K → K
  pub change_policy : Bool → Text → Text → Text → K → K

-- A rule as the client of one family takes it.
abbrev pub for_family : Bool → RuleInfo → RuleInfo
for_family v4 r = record r { is_ipv4 = v4 }

-- The state behind a call whose failure is only logged.
abbrev pub or_same {ℓ} : {K : Type ℓ} → Option K → K → K
or_same none k = k
or_same (some k') k = k'

module _ {K : Type 0} (client : ChainClient K) where
  -- DeleteIfExists with the client of IPv4, and with that of IPv6.
  unfoldable pub delete_for_both : RuleInfo → K → K
  delete_for_both r k =
      client.rules.delete_if_exists (for_family false r)
        (client.rules.delete_if_exists (for_family true r) k)

  unfoldable pub delete_rules_for_both : List RuleInfo → K → K
  delete_rules_for_both [] k = k
  delete_rules_for_both (r ∷ rules) k = delete_rules_for_both rules (delete_for_both r k)

  -- To avoid duplicates, a rule is deleted before it is inserted; it is recorded if that worked.
  unfoldable pub replace_rule : Bool → RuleInfo → K → List RuleInfo × K
  replace_rule v4 r k =
      let k' = client.rules.delete_if_exists (for_family v4 r) k in
      elim (client.rules.insert_rule (for_family v4 r) k') [
        | none ↦ ([], k')
        | some k'' ↦ (r ∷ [], k'')
      ]
