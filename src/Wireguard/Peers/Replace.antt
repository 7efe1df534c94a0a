-- ===== src/Wireguard/Peers/Replace.antt =====
-- When the peers of the host are replaced.
use netclient.Prelude.{◌≡◌, ◌↔◌, refl, List, [], ◌∷◌, true, false, arith, length, map, eq_of_iff}
use netclient.Text.{Text, text_eq_iff}
use netclient.Sets.{mem, SameMembers, mem_self}
use netclient.Wireguard.Types.{PeerConfig}
use netclient.Wireguard.Peers.{key, all_mem, should_replace}

mem_of_all : (k : Text) (ks l : List Text) → all_mem ks l ≡ true → mem k ks ≡ true → mem k l ≡ true
unfolding all_mem mem
mem_of_all k [] l a m = cc
mem_of_all k (j ∷ ks) l a m = ground (arith, mem_of_all k ks l, text_eq_iff j k)

all_of_mem :
    (ks l : List Text) → ((k : Text) → mem k ks ≡ true → mem k l ≡ true) → all_mem ks l ≡ true
unfolding all_mem
all_of_mem [] l h = refl
all_of_mem (j ∷ ks) l h = rw (h j (mem_self j ks)) (all_of_mem ks l (λ k m. h k (later k j ks m)))
  where
    later : (k j : Text) (ks : List Text) → mem k ks ≡ true → mem k (j ∷ ks) ≡ true
    later k j ks m = unfold mem in ground arith

same_keys : (ks l : List Text) → all_mem ks l ≡ true → all_mem l ks ≡ true → SameMembers ks l
same_keys ks l a b k = eq_of_iff (mem k ks) (mem k l) (mem_of_all k ks l a) (mem_of_all k l ks b)

all_of_same : (ks l : List Text) → SameMembers ks l → (all_mem ks l ≡ true) × (all_mem l ks ≡ true)
all_of_same ks l s =
    (all_of_mem ks l (λ k m. ground (arith, s k)), all_of_mem l ks (λ k m. ground (arith, s k)))

-- The peers are left in place exactly when as many come in as there are and both lists have the same
-- keys.
pub should_replace_iff :
    (incoming host_peers : List PeerConfig)
    → (should_replace incoming host_peers ≡ false) ↔ (
        (length incoming ≡ length host_peers) × SameMembers (map key incoming) (map key host_peers))
unfolding should_replace
should_replace_iff incoming host_peers =
    let i = map key incoming in
    let h = map key host_peers in
    (
      λ e. (ground arith, same_keys i h (ground arith) (ground arith)),
      λ e. let a = all_of_same i h e.1 in ground (arith, e.0, a.0, a.1),
    )
