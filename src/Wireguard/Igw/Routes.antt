-- ===== src/Wireguard/Igw/Routes.antt =====
-- The default routes of the gateway's peer.
use netclient.Prelude.{
  ◌≡◌, refl, List, [], ◌∷◌, ◌++◌, Bool, true, false, not, ◌||◌, if◌then◌else◌, keep, keep-append,
  arith, append-nil,
}
use netclient.Text.{Text, text_eq, text_eq_iff, text_eq_refl}
use netclient.Wireguard.Types.{ipv4_network, ipv6_network}
use netclient.Wireguard.Igw.{mem_network, restored_ips, removed_ips, is_default}

abbrev pub default_for : Bool → Text
default_for is_v4 = if is_v4 then ipv4_network else ipv6_network

mem_snoc :
    (n m : Text) (l : List Text) → mem_network n (l ++ m ∷ []) ≡ (mem_network n l || text_eq m n)
unfolding mem_network
mem_snoc n m [] = ground arith
mem_snoc n m (x ∷ l) = ground (arith, mem_snoc n m l)

removed_none :
    (n : Text) (l : List Text) → is_default n ≡ true → mem_network n (removed_ips l) ≡ false
unfolding removed_ips mem_network
removed_none n [] d = refl
removed_none n (x ∷ l) d = ground (arith, removed_none n l d, text_eq_iff x n)

removed_snoc :
    (l : List Text) (n : Text) → is_default n ≡ true → removed_ips (l ++ n ∷ []) ≡ removed_ips l
unfolding removed_ips
removed_snoc l n d = ground (
  arith,
  keep-append (λ n. not (is_default n)) l (n ∷ []),
  append-nil (keep (λ n. not (is_default n)) l),
)

v4_default : is_default ipv4_network ≡ true
unfolding text_eq
v4_default = refl

v6_default : is_default ipv6_network ≡ true
unfolding text_eq
v6_default = refl

mem_restored :
    (is_v4 : Bool) (l : List Text) → mem_network (default_for is_v4) (restored_ips is_v4 l) ≡ true
unfolding restored_ips
mem_restored true l =
    ground (arith, mem_snoc ipv4_network ipv4_network l, text_eq_refl ipv4_network)
mem_restored false l =
    ground (arith, mem_snoc ipv6_network ipv6_network l, text_eq_refl ipv6_network)

removed_restored :
    (is_v4 : Bool) (l : List Text) → removed_ips (restored_ips is_v4 l) ≡ removed_ips l
unfolding restored_ips
removed_restored true l = ground (arith, removed_snoc l ipv4_network v4_default)
removed_restored false l = ground (arith, removed_snoc l ipv6_network v6_default)

restored_removed :
    (is_v4 : Bool) (l : List Text)
    → restored_ips is_v4 (removed_ips l) ≡ removed_ips l ++ default_for is_v4 ∷ []
unfolding restored_ips
restored_removed true l = ground (arith, removed_none ipv4_network l v4_default)
restored_removed false l = ground (arith, removed_none ipv6_network l v6_default)

-- After a removal the peer routes neither default network and every other network as before; after
-- a restoration it routes the default network of the gateway's family, and no other network comes
-- or goes: removing the default networks again gives what removing them before did.
pub restored-removed_ips :
    (is_v4 : Bool) (allowed : List Text)
    → (mem_network ipv4_network (removed_ips allowed) ≡ false)
      × (mem_network ipv6_network (removed_ips allowed) ≡ false)
      × (mem_network (default_for is_v4) (restored_ips is_v4 allowed) ≡ true)
      × (removed_ips (restored_ips is_v4 allowed) ≡ removed_ips allowed)
      × (restored_ips is_v4 (removed_ips allowed) ≡ removed_ips allowed ++ default_for is_v4 ∷ [])
restored-removed_ips is_v4 allowed = (
  removed_none ipv4_network allowed v4_default,
  removed_none ipv6_network allowed v6_default,
  mem_restored is_v4 allowed,
  removed_restored is_v4 allowed,
  restored_removed is_v4 allowed,
)
