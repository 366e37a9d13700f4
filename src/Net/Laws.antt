-- ===== src/Net/Laws.antt =====
-- Laws of the addresses: Compare is 0 exactly on equal addresses.
use ddns_updater_beget.Common.{◌≡◌, refl, ◌↔◌, true, [], ◌∷◌, Ordering, Bytes, arith}
use ddns_updater_beget.Net.Defs.{Addr, invalid, v4, v6, compare_bytes, same_addr}

compare_bytes→eq : (s t : Bytes) → compare_bytes s t ≡ Ordering.eq → s ≡ t
unfolding compare_bytes
compare_bytes→eq [] [] h = refl
compare_bytes→eq [] (d ∷ t) h = cc
compare_bytes→eq (c ∷ s) [] h = cc
compare_bytes→eq (c ∷ s) (d ∷ t) h = ground (arith, compare_bytes→eq s t)

compare_bytes_refl : (s : Bytes) → compare_bytes s s ≡ Ordering.eq
unfolding compare_bytes
compare_bytes_refl [] = refl
compare_bytes_refl (c ∷ s) = ground (arith, compare_bytes_refl s)

pub same_addr→eq : (a b : Addr) → same_addr a b ≡ true → a ≡ b
unfolding same_addr
same_addr→eq invalid invalid h = refl
same_addr→eq (v4 s) (v4 t) h = ground (arith, compare_bytes→eq s t)
same_addr→eq (v6 s z) (v6 t y) h = ground (arith, compare_bytes→eq s t, compare_bytes→eq z y)
same_addr→eq _ _ h = cc

pub same_addr_refl : (a : Addr) → same_addr a a ≡ true
unfolding same_addr
same_addr_refl invalid = refl
same_addr_refl (v4 s) = ground (arith, compare_bytes_refl s)
same_addr_refl (v6 s z) = ground (arith, compare_bytes_refl s, compare_bytes_refl z)

pub same_addr_iff : (a b : Addr) → (same_addr a b ≡ true) ↔ (a ≡ b)
same_addr_iff a b = (same_addr→eq a b, λ e. rw (← e) (same_addr_refl a))
