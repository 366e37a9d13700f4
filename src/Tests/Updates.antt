-- ===== src/Tests/Updates.antt =====
-- The decision on one record, its update, and what they use, at concrete inputs.
use ddns_updater_beget.Common.{
  ℕ, zero, suc, ◌<◌, ◌≡◌, ◌≢◌, refl, none, some, Bytes, codes, Error, [], ◌∷◌, ◌++◌, inl, inr, set,
  arith, err_banned_abuse,
}
use ddns_updater_beget.Net.{Addr, v4, v6, invalid, prefix, no_prefix}
use ddns_updater_beget.Update.Suffix.{
  ipv6_with_suffix, ipv6_with_suffix_not_v6, ipv6_with_suffix_v4_panics,
}
use ddns_updater_beget.Update.Lookup.{
  Answer, lookup_ips, lookup_ips_resilient, lookup_ips_resilient_first, lookup_ips_resilient_total,
}
use ddns_updater_beget.Update.Updater.{Call, update}
use ddns_updater_beget.Update.Updater.Effect.{outcome_record, records-update}
use ddns_updater_beget.Tests.Data.{env, world, fresh, home, call_of}

abbrev abuse : Error
abuse = record { wrapped = err_banned_abuse ∷ []; text = codes "banned due to abuse" }

abbrev refused : Call
refused = record (call_of 0) { answer = λ ip. inr abuse }

records-update_example :
    (update env.show (call_of 0) 1 home world).0.database.records
    ≡ set world.database.records 1 (outcome_record env.show (call_of 0) home (fresh (codes "b")))
records-update_example = records-update env.show (call_of 0) 1 home world (fresh (codes "b")) refl

abbrev zeros : Bytes
zeros = 0 ∷ 0 ∷ 0 ∷ 0 ∷ 0 ∷ 0 ∷ 0 ∷ 0 ∷ []

abbrev public_bytes : Bytes
public_bytes = 32 ∷ 1 ∷ 13 ∷ 184 ∷ 1 ∷ 2 ∷ 3 ∷ 4 ∷ zeros

abbrev suffix_bytes : Bytes
suffix_bytes = zeros ++ (0 ∷ 0 ∷ 0 ∷ 0 ∷ 0 ∷ 0 ∷ 0 ∷ 7 ∷ [])

ipv6_with_suffix_not_v6_example : ipv6_with_suffix home (prefix (v6 suffix_bytes []) 64) ≡ some home
unfolding ddns_updater_beget.Net.is6
ipv6_with_suffix_not_v6_example = ipv6_with_suffix_not_v6 home (prefix (v6 suffix_bytes []) 64) refl

ipv6_with_suffix_v4_panics_example :
    ipv6_with_suffix (v6 public_bytes []) (prefix (v4 (10 ∷ 0 ∷ 0 ∷ 1 ∷ [])) 24) ≡ none
ipv6_with_suffix_v4_panics_example =
    ipv6_with_suffix_v4_panics public_bytes [] (10 ∷ 0 ∷ 0 ∷ 1 ∷ []) 24 refl refl (omega arith)

abbrev timeout : Error
timeout = record { wrapped = []; text = codes "timeout" }

-- The first try fails, and the others are answered.
abbrev second_try : ℕ → Answer
second_try zero = inr timeout
second_try (suc n) = inl (some (203 ∷ 0 ∷ 113 ∷ 7 ∷ []) ∷ [])

second_try_found : lookup_ips (second_try 1) ≡ some (inl (home, invalid))
unfolding lookup_ips
second_try_found = refl

second_try_fails : (m : ℕ) → m < 1 → (e : Error) × (second_try m ≡ inr e)
second_try_fails zero h = (timeout, refl)
second_try_fails (suc m) h = absurd (omega arith)

lookup_ips_resilient_total_example : lookup_ips_resilient second_try 5 ≢ none
lookup_ips_resilient_total_example = lookup_ips_resilient_total second_try 5 second_try_IsAnswer
  where
    second_try_IsAnswer : (n : ℕ) → ddns_updater_beget.Update.Lookup.IsAnswer (second_try n)
    second_try_IsAnswer zero = tt
    second_try_IsAnswer (suc n) = (inl refl, tt)
