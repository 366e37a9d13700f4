-- ===== src/Providers/Abuse/Quiet.antt =====
-- The comparisons of addresses, whose errors are never those of an abuse.
use ddns_updater_beget.Common.{
  false, ◌⊎◌, inl, inr, List, [], ◌∷◌, Option, none, some, Bytes, Error, ◌≡◌, refl, arith,
  if_either, beq,
}
use ddns_updater_beget.Net.{Addr, same_addr}
use ddns_updater_beget.Providers.Client.{
  Outcome, switch, fails, fails_with, compared, mismatch, first_compared, extracted,
}
use ddns_updater_beget.Providers.Infomaniak
use ddns_updater_beget.Providers.Namecheap
use ddns_updater_beget.Providers.Nowdns
use ddns_updater_beget.Providers.Opendns
use ddns_updater_beget.Providers.Zoneedit
use ddns_updater_beget.Providers.Abuse.Defs.{is_banned_abuse, is_abuse}

module _ (show : Addr → Bytes) (ip : Addr) where
  pub is_abuse-compared : (new_ip : Addr) → is_abuse (compared show ip new_ip) ≡ false
  unfolding is_abuse is_banned_abuse compared mismatch fails_with
  is_abuse-compared new_ip = if_either (λ r. is_abuse r ≡ false) (same_addr ip new_ip) refl refl

  pub is_abuse-first_compared :
      (ips : Option (List Addr)) → is_abuse (first_compared show ip ips) ≡ false
  unfolding is_abuse is_banned_abuse first_compared fails
  is_abuse-first_compared none = refl
  is_abuse-first_compared (some []) = refl
  is_abuse-first_compared (some (a ∷ ips)) = is_abuse-compared a

  pub is_abuse-extracted :
      (parse : Bytes → Option Addr) (s : Bytes) → is_abuse (extracted show parse ip s) ≡ false
  unfolding extracted
  is_abuse-extracted parse s = is_abuse-first_compared _

  pub is_abuse-second_compared :
      (ips : Option (List Addr)) → is_abuse (Zoneedit.second_compared show ip ips) ≡ false
  unfolding is_abuse Zoneedit.second_compared
  is_abuse-second_compared none = refl
  is_abuse-second_compared (some []) = refl
  is_abuse-second_compared (some (a ∷ [])) = refl
  is_abuse-second_compared (some (a ∷ b ∷ [])) = is_abuse-compared b
  is_abuse-second_compared (some (a ∷ b ∷ c ∷ ips)) = refl

  pub is_abuse-opendns : (found : Option Addr) → is_abuse (Opendns.received show ip found) ≡ false
  unfolding is_abuse is_banned_abuse Opendns.received mismatch fails fails_with
  is_abuse-opendns none = refl
  is_abuse-opendns (some a) = if_either (λ r. is_abuse r ≡ false) (same_addr a ip) refl refl

  pub is_abuse-received :
      (s : Bytes) (found : Option Addr) → is_abuse (Infomaniak.received show ip s found) ≡ false
  unfolding is_abuse is_banned_abuse Infomaniak.received fails_with
  is_abuse-received s none = refl
  is_abuse-received s (some a) = is_abuse-compared a

  pub is_abuse-by_prefix :
      (parse : Bytes → Option Addr) (s prefix : Bytes)
      → is_abuse (Infomaniak.by_prefix show parse ip s prefix) ≡ false
  unfolding is_abuse is_banned_abuse Infomaniak.by_prefix fails_with
  is_abuse-by_prefix parse s prefix =
      if_either (λ r. is_abuse r ≡ false) (beq prefix []) refl (is_abuse-received _ _)

  pub is_abuse-parsed :
      (failed : Outcome) (found : Option Addr)
      → is_abuse failed ≡ false
      → is_abuse (Nowdns.parsed show ip failed found) ≡ false
  unfolding is_abuse is_banned_abuse Nowdns.parsed mismatch fails_with
  is_abuse-parsed failed none h = h
  is_abuse-parsed failed (some a) h = if_either (λ r. is_abuse r ≡ false) (same_addr ip a) refl refl

  pub is_abuse-namecheap :
      (found : Option Addr) → is_abuse (Namecheap.received show ip found) ≡ false
  unfolding is_abuse is_banned_abuse Namecheap.received fails
  is_abuse-namecheap none = refl
  is_abuse-namecheap (some a) = is_abuse-compared a

  pub is_abuse-decoded :
      (parse : Bytes → Option Addr) (x : Namecheap.Parsed ⊎ Error)
      → is_abuse (Namecheap.decoded show parse ip x) ≡ false
  unfolding is_abuse is_banned_abuse Namecheap.decoded switch fails fails_with
  is_abuse-decoded parse (inr e) = refl
  is_abuse-decoded parse (inl x) = ground (arith, is_abuse-namecheap (parse x.ip))
