-- ===== src/Dns/Servers/Limits/First.antt =====
-- The limits keep the first four addresses, each once, and every record of another kind.
use netclient.Prelude.{
  ℕ, zero, suc, ◌+◌, ◌≡◌, refl, sym, ap, List, [], ◌∷◌, ◌++◌, Option, none, some, length, take, map,
  arith, append-nil, append_assoc, length-append,
}
use mathlib.Core.List.{map-append}
use netclient.Text.{Text}
use netclient.Sets.{nub_from, nub_from-IsDistinct, IsDistinct, IsDistinct-take}
use netclient.Dns.Types.{Rr, a, aaaa, other}
use netclient.Dns.Servers.Limits.{
  limit_ips_loop, limit_egress_ips, limit_answers_loop, limit_egress_dns_answers,
}

module _ {Ip : Type 0} (ip_string : Ip → Text) where
  -- The texts of the addresses that are not nil.
  unfoldable pub ip_keys : List (Option Ip) → List Text
  ip_keys [] = []
  ip_keys (none ∷ ips) = ip_keys ips
  ip_keys (some ip ∷ ips) = ip_string ip ∷ ip_keys ips

  unfoldable pub address_keys : List (Rr Ip) → List Text
  address_keys [] = []
  address_keys (a name ip ∷ rs) = ip_string ip ∷ address_keys rs
  address_keys (aaaa name ip ∷ rs) = ip_string ip ∷ address_keys rs
  address_keys (other name r ∷ rs) = address_keys rs

  unfoldable pub others : List (Rr Ip) → List (Rr Ip)
  others [] = []
  others (a name ip ∷ rs) = others rs
  others (aaaa name ip ∷ rs) = others rs
  others (other name r ∷ rs) = other name r ∷ others rs

  keys_snoc :
      (l : List Ip) (x : Ip) → map ip_string (l ++ x ∷ []) ≡ map ip_string l ++ ip_string x ∷ []
  keys_snoc l x = map-append ip_string l (x ∷ [])

  limit_ips_loop-take :
      (ips : List (Option Ip)) (seen : List Text) (limited : List Ip) (room : ℕ)
      → length limited + suc room ≡ 4
      → map ip_string (limit_ips_loop ip_string ips seen limited)
        ≡ map ip_string limited ++ take (suc room) (nub_from seen (ip_keys ips))
  unfolding limit_ips_loop ip_keys nub_from
  limit_ips_loop-take [] seen limited room h = sym (append-nil (map ip_string limited))
  limit_ips_loop-take (none ∷ ips) seen limited room h = limit_ips_loop-take ips seen limited room h
  limit_ips_loop-take (some ip ∷ ips) seen limited zero h = ground (
    arith,
    limit_ips_loop-take ips seen limited 0 h,
    keys_snoc limited ip,
    length-append limited (ip ∷ []),
  )
  limit_ips_loop-take (some ip ∷ ips) seen limited (suc room) h = ground (
    arith,
    limit_ips_loop-take ips seen limited (suc room) h,
    limit_ips_loop-take ips (ip_string ip ∷ seen) (limited ++ ip ∷ []) room,
    keys_snoc limited ip,
    length-append limited (ip ∷ []),
    append_assoc (map ip_string limited) (ip_string ip ∷ [])
        (take (suc room) (nub_from (ip_string ip ∷ seen) (ip_keys ips))),
  )

  -- limitEgressIPs keeps the first four different addresses, in order, and drops nil ones.
  pub limit_egress_ips-take :
      (ips : List (Option Ip))
      → (map ip_string (limit_egress_ips ip_string ips) ≡ take 4 (nub_from [] (ip_keys ips)))
        × IsDistinct (map ip_string (limit_egress_ips ip_string ips))
  unfolding limit_egress_ips
  limit_egress_ips-take ips =
      let e = limit_ips_loop-take ips [] [] 3 (omega arith) in
      (
        e,
        rw e (IsDistinct-take 4 (nub_from [] (ip_keys ips)) (nub_from-IsDistinct (ip_keys ips) [])),
      )

  address_keys-append :
      (l r : List (Rr Ip)) → address_keys (l ++ r) ≡ address_keys l ++ address_keys r
  unfolding address_keys
  address_keys-append [] r = refl
  address_keys-append (a n ip ∷ l) r = ap (◌∷◌ (ip_string ip)) (address_keys-append l r)
  address_keys-append (aaaa n ip ∷ l) r = ap (◌∷◌ (ip_string ip)) (address_keys-append l r)
  address_keys-append (other n x ∷ l) r = address_keys-append l r

  others-append : (l r : List (Rr Ip)) → others (l ++ r) ≡ others l ++ others r
  unfolding others
  others-append [] r = refl
  others-append (a n ip ∷ l) r = others-append l r
  others-append (aaaa n ip ∷ l) r = others-append l r
  others-append (other n x ∷ l) r = ap (◌∷◌ (other n x)) (others-append l r)

  limit_answers_loop-take :
      (rs : List (Rr Ip)) (seen : List Text) (count : ℕ) (limited : List (Rr Ip)) (room : ℕ)
      → count + room ≡ 4
      → address_keys (limit_answers_loop ip_string rs seen count limited)
        ≡ address_keys limited ++ take room (nub_from seen (address_keys rs))
  unfolding limit_answers_loop address_keys nub_from
  limit_answers_loop-take [] seen count limited zero h = sym (append-nil (address_keys limited))
  limit_answers_loop-take [] seen count limited (suc room) h =
      sym (append-nil (address_keys limited))
  limit_answers_loop-take (other n x ∷ rs) seen count limited room h = ground (
    arith,
    limit_answers_loop-take rs seen count (limited ++ other n x ∷ []) room h,
    address_keys-append limited (other n x ∷ []),
    append-nil (address_keys limited),
  )
  limit_answers_loop-take (a n ip ∷ rs) seen count limited zero h =
      ground (arith, limit_answers_loop-take rs seen count limited zero h)
  limit_answers_loop-take (a n ip ∷ rs) seen count limited (suc room) h = ground (
    arith,
    limit_answers_loop-take rs seen count limited (suc room) h,
    limit_answers_loop-take rs (ip_string ip ∷ seen) (count + 1) (limited ++ a n ip ∷ []) room,
    address_keys-append limited (a n ip ∷ []),
    append_assoc (address_keys limited) (ip_string ip ∷ [])
        (take room (nub_from (ip_string ip ∷ seen) (address_keys rs))),
  )
  limit_answers_loop-take (aaaa n ip ∷ rs) seen count limited zero h =
      ground (arith, limit_answers_loop-take rs seen count limited zero h)
  limit_answers_loop-take (aaaa n ip ∷ rs) seen count limited (suc room) h = ground (
    arith,
    limit_answers_loop-take rs seen count limited (suc room) h,
    limit_answers_loop-take rs (ip_string ip ∷ seen) (count + 1) (limited ++ aaaa n ip ∷ []) room,
    address_keys-append limited (aaaa n ip ∷ []),
    append_assoc (address_keys limited) (ip_string ip ∷ [])
        (take room (nub_from (ip_string ip ∷ seen) (address_keys rs))),
  )

  limit_answers_loop-others :
      (rs : List (Rr Ip)) (seen : List Text) (count : ℕ) (limited : List (Rr Ip))
      → others (limit_answers_loop ip_string rs seen count limited) ≡ others limited ++ others rs
  unfolding limit_answers_loop others
  limit_answers_loop-others [] seen count limited = sym (append-nil (others limited))
  limit_answers_loop-others (other n x ∷ rs) seen count limited = ground (
    arith,
    limit_answers_loop-others rs seen count (limited ++ other n x ∷ []),
    others-append limited (other n x ∷ []),
    append_assoc (others limited) (other n x ∷ []) (others rs),
  )
  limit_answers_loop-others (a n ip ∷ rs) seen count limited = ground (
    arith,
    limit_answers_loop-others rs seen count limited,
    limit_answers_loop-others rs (ip_string ip ∷ seen) (count + 1) (limited ++ a n ip ∷ []),
    others-append limited (a n ip ∷ []),
    append-nil (others limited),
  )
  limit_answers_loop-others (aaaa n ip ∷ rs) seen count limited = ground (
    arith,
    limit_answers_loop-others rs seen count limited,
    limit_answers_loop-others rs (ip_string ip ∷ seen) (count + 1) (limited ++ aaaa n ip ∷ []),
    others-append limited (aaaa n ip ∷ []),
    append-nil (others limited),
  )

  -- limitEgressDNSAnswers keeps the first four different addresses of the answers, of either kind,
  -- in order, and every record of another kind, in order.
  pub limit_egress_dns_answers-take :
      (answers : List (Rr Ip))
      → (address_keys (limit_egress_dns_answers ip_string answers)
          ≡ take 4 (nub_from [] (address_keys answers)))
        × (others (limit_egress_dns_answers ip_string answers) ≡ others answers)
  unfolding limit_egress_dns_answers address_keys others nub_from
  limit_egress_dns_answers-take [] = (refl, refl)
  limit_egress_dns_answers-take (r ∷ answers) = (
    limit_answers_loop-take (r ∷ answers) [] 0 [] 4 refl,
    limit_answers_loop-others (r ∷ answers) [] 0 [],
  )
