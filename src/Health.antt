-- ===== src/Health.antt =====
-- internal/health/check.go: isHealthy. `answer` is what the resolver returns, by the index of the
-- record.
use ddns_updater_beget.Common.{
  ℕ, ◌+◌, ◌≡◌, ◌↔◌, refl, sym, ap, ◌∙◌, Bool, true, false, not, ◌⊎◌, inl, inr, List, [], ◌∷◌,
  Option, none, some, Error, All, if◌then◌else◌, Bool-cases, some_of_ne_none,
}
use ddns_updater_beget.Net.{Addr, NetIp, is_valid, same_addr}
use ddns_updater_beget.Net.Laws.{same_addr_iff}
use ddns_updater_beget.Records.{Record, is_failure, get_current_ip}
use ddns_updater_beget.Update.Lookup.{
  Answer, IsAnswer, IsNetIp, addr_of_net_ip, addr_of_net_ip_total,
}

pub data HealthError : Type 0 where
  record_update_failed record_ip_not_set lookup_mismatch : HealthError
  lookup_failed : Error → HealthError

-- The loop over the addresses, which ends at the first that is the current one. `none` is a panic.
unfoldable pub found_among : Addr → List NetIp → Option Bool
unfolding addr_of_net_ip same_addr
found_among current [] = some false
found_among current (ip ∷ ips) =
    let rest = found_among current ips in
    elim (addr_of_net_ip ip) [
      | none ↦ none
      | some a ↦ if same_addr a current then some true else rest
    ]

mismatch_unless : Option Bool → Option (Option HealthError)
mismatch_unless none = none
mismatch_unless (some true) = some none
mismatch_unless (some false) = some (some lookup_mismatch)

check_lookup : Addr → Answer → Option (Option HealthError)
unfolding mismatch_unless found_among
check_lookup current (inr e) = some (some (lookup_failed e))
check_lookup current (inl ips) = mismatch_unless (found_among current ips)

-- The body of the loop over the records, with nil for `continue` and for its end.
unfoldable pub check_record : Record → Answer → Option (Option HealthError)
unfolding check_lookup is_failure get_current_ip is_valid
check_record r answer =
    if is_failure r.status
    then some (some record_update_failed)
    else if r.provider.proxied
    then some none
    else if not (is_valid (get_current_ip r.history))
    then some (some record_ip_not_set)
    else check_lookup (get_current_ip r.history) answer

unfoldable pub healthy_from : (ℕ → Answer) → List Record → ℕ → Option (Option HealthError)
unfolding check_record
healthy_from answer [] i = some none
healthy_from answer (r ∷ rs) i =
    let rest = healthy_from answer rs (i + 1) in
    elim (check_record r (answer i)) [
      | none ↦ none
      | some result ↦ elim result [ none ↦ rest | some e ↦ some (some e) ]
    ]

-- isHealthy; `none` is a panic, and `some none` a nil error.
unfoldable pub is_healthy : (ℕ → Answer) → List Record → Option (Option HealthError)
unfolding healthy_from
is_healthy answer rs = healthy_from answer rs 0

-- Whether an address is among those of an answer.
abbrev pub Among : List NetIp → Addr → Type 0
Among [] a = ⊥
Among (ip ∷ ips) a = (addr_of_net_ip ip ≡ some a) ⊎ Among ips a

abbrev pub Resolves : Answer → Addr → Type 0
Resolves (inr e) a = ⊥
Resolves (inl ips) a = Among ips a

-- What the program means by a healthy record: the last update did not fail, and unless it is proxied
-- its name resolves to its current address.
abbrev pub IsHealthy : Record → Answer → Type 0
IsHealthy r answer =
    (is_failure r.status ≡ false)
    × ((r.provider.proxied ≡ true)
        ⊎ ((is_valid (get_current_ip r.history) ≡ true)
            × Resolves answer (get_current_ip r.history)))

-- Every record from index `i` on is healthy.
abbrev pub AreHealthy : (ℕ → Answer) → List Record → ℕ → Type 0
AreHealthy answer [] i = Unit
AreHealthy answer (r ∷ rs) i = IsHealthy r (answer i) × AreHealthy answer rs (i + 1)

found_among-cons :
    (current a : Addr) (ip : NetIp) (ips : List NetIp)
    → addr_of_net_ip ip ≡ some a
    → found_among current (ip ∷ ips)
      ≡ (if same_addr a current then some true else found_among current ips)
unfolding found_among
found_among-cons current a ip ips e = rw (e, found_among)

found_among_iff :
    (current : Addr) (ips : List NetIp)
    → All IsNetIp ips
    → (found_among current ips ≡ some true) ↔ Among ips current
found_among_iff current [] h = (λ e. unfold found_among in cc, λ e. absurd e)
found_among_iff current (ip ∷ ips) h =
    let (a, e) = some_of_ne_none (addr_of_net_ip ip) (addr_of_net_ip_total ip h.0) in
    let step = found_among-cons current a ip ips e in
    let (to, from) = found_among_iff current ips h.1 in
    elim (Bool-cases (same_addr a current)) [
      | inl same ↦
          let eq = (same_addr_iff a current).0 same in
          (λ f. inl (e ∙ ap some eq), λ m. step ∙ rw same)
      | inr differs ↦
          let skip : found_among current (ip ∷ ips) ≡ found_among current ips = step ∙ rw differs in
          (
            λ f. inr (to (sym skip ∙ f)),
            λ m. elim m [
              | inl here ↦ let eq : a ≡ current = cc in absurd (cc ((same_addr_iff a current).1 eq))
              | inr there ↦ skip ∙ from there
            ],
          )
    ]

check_lookup_iff :
    (current : Addr) (answer : Answer)
    → IsAnswer answer
    → (check_lookup current answer ≡ some none) ↔ Resolves answer current
unfolding check_lookup
check_lookup_iff current (inr e) h = (λ f. cc, λ f. absurd f)
check_lookup_iff current (inl ips) h = by_found (found_among current ips) refl
  where
    by_found :
        (o : Option Bool)
        → found_among current ips ≡ o
        → (mismatch_unless o ≡ some none) ↔ Among ips current
    by_found none e =
        (λ f. unfold mismatch_unless in cc, λ m. cc (e, (found_among_iff current ips h).1 m))
    by_found (some true) e =
        (λ f. (found_among_iff current ips h).0 e, λ m. unfold mismatch_unless in refl)
    by_found (some false) e =
        (λ f. unfold mismatch_unless in cc, λ m. cc (e, (found_among_iff current ips h).1 m))

check_record_iff :
    (r : Record) (answer : Answer)
    → IsAnswer answer
    → (check_record r answer ≡ some none) ↔ IsHealthy r answer
unfolding check_record
check_record_iff r answer h =
    let looked_up = check_lookup_iff (get_current_ip r.history) answer h in
    elim (Bool-cases (is_failure r.status)) [
      | inl failed ↦ rw failed (λ e. cc, λ k. cc (k.0))
      | inr fine ↦ elim (Bool-cases r.provider.proxied) [
        | inl proxied ↦ rw (fine, proxied) (λ e. (refl, inl refl), λ k. refl)
        | inr direct ↦ elim (Bool-cases (is_valid (get_current_ip r.history))) [
          | inl valid ↦
              rw (fine, direct, valid)
                (
                  λ e. (refl, inr (refl, looked_up.0 e)),
                  λ k. elim k.1 [ inl other ↦ cc other | inr m ↦ looked_up.1 m.1 ],
                )
          | inr unset_ip ↦
              rw (fine, direct, unset_ip)
                (λ e. cc, λ k. elim k.1 [ inl other ↦ cc other | inr m ↦ cc m.0 ])
        ]
      ]
    ]

healthy_from-cons :
    (answer : ℕ → Answer) (r : Record) (rs : List Record) (i : ℕ) (o : Option (Option HealthError))
    → check_record r (answer i) ≡ o
    → healthy_from answer (r ∷ rs) i ≡ (elim o [
      | none ↦ none
      | some result ↦ elim result [ none ↦ healthy_from answer rs (i + 1) | some e ↦ some (some e) ]
    ])
unfolding healthy_from
healthy_from-cons answer r rs i o e = rw (e, healthy_from)

healthy_from_iff :
    (answer : ℕ → Answer) (rs : List Record) (i : ℕ)
    → ((n : ℕ) → IsAnswer (answer n))
    → (healthy_from answer rs i ≡ some none) ↔ AreHealthy answer rs i
healthy_from_iff answer [] i h = (λ e. tt, λ e. unfold healthy_from in refl)
healthy_from_iff answer (r ∷ rs) i h =
    cons (check_record r (answer i)) refl (healthy_from_iff answer rs (i + 1) h)
  where
    cons :
        (o : Option (Option HealthError))
        → check_record r (answer i) ≡ o
        → (healthy_from answer rs (i + 1) ≡ some none) ↔ AreHealthy answer rs (i + 1)
        → (healthy_from answer (r ∷ rs) i ≡ some none) ↔ AreHealthy answer (r ∷ rs) i
    cons none e rest =
        let step = healthy_from-cons answer r rs i none e in
        (λ f. cc, λ k. cc (e, (check_record_iff r (answer i) (h i)).1 k.0))
    cons (some none) e rest =
        let step = healthy_from-cons answer r rs i (some none) e in
        (
          λ f. ((check_record_iff r (answer i) (h i)).0 e, rest.0 (sym step ∙ f)),
          λ k. step ∙ rest.1 k.1,
        )
    cons (some (some x)) e rest =
        let step = healthy_from-cons answer r rs i (some (some x)) e in
        (λ f. cc, λ k. cc (e, (check_record_iff r (answer i) (h i)).1 k.0))

-- The health check returns a nil error exactly if every record is healthy, if the resolver returns
-- addresses of 4 or 16 bytes.
pub is_healthy_iff :
    (answer : ℕ → Answer) (rs : List Record)
    → ((n : ℕ) → IsAnswer (answer n))
    → (is_healthy answer rs ≡ some none) ↔ AreHealthy answer rs 0
unfolding is_healthy
is_healthy_iff answer rs h = healthy_from_iff answer rs 0 h
