-- ===== src/Providers/Custom/Stale.antt =====
-- What the URL of the custom provider keeps from an update to the next.
use ddns_updater_beget.Common.{
  ◌≡◌, ◌≢◌, refl, ◌∙◌, ap, true, false, ◌⊎◌, inl, [], ◌∷◌, Bytes, Error, beq, beq_refl, beq_of_ne,
  beq→eq, sym, arith,
}
use ddns_updater_beget.Net.{Addr, is6}
use ddns_updater_beget.Providers.Errors.{passed_on}
use ddns_updater_beget.Providers.Client.{Exchange, exchanged}
use ddns_updater_beget.Providers.Custom.{
  Values, set_value, get_value, Url, CustomProvider, ip_key, interpret, update,
}

get_value-set_value_self :
    (k v : Bytes) (values : Values) → get_value k (set_value k v values) ≡ v ∷ []
unfolding get_value set_value
get_value-set_value_self k v [] = rw (beq_refl k) refl
get_value-set_value_self k v ((q, vs) ∷ values) =
    ground (arith, beq_refl k, get_value-set_value_self k v values)

get_value-set_value_other :
    (k q v : Bytes) (values : Values)
    → beq q k ≡ false
    → beq k q ≡ false
    → get_value q (set_value k v values) ≡ get_value q values
unfolding get_value set_value
get_value-set_value_other k q v [] h h' = rw h refl
get_value-set_value_other k q v ((r, vs) ∷ values) h h' =
    ground (arith, beq→eq k r, get_value-set_value_other k q v values)

module _ {Q : Type 0} (parse_query : Q → Values ⊎ Error) (encode : Values → Q) (show : Addr → Bytes)
    (client : Url Q → Exchange) where
  query-update :
      (p : CustomProvider Q) (ip : Addr) (values : Values)
      → parse_query p.url.raw_query ≡ inl values
      → ((update parse_query encode show client p ip).1.url.raw_query
          ≡ encode (set_value (ip_key p ip) (show ip) values))
        × (ip_key (update parse_query encode show client p ip).1 ≡ ip_key p)
  unfolding update ip_key
  query-update p ip values h = rw h (refl, refl)

  key_four : (p : CustomProvider Q) (a : Addr) → is6 a ≡ false → ip_key p a ≡ p.ipv4_key
  unfolding ip_key
  key_four p a h = rw h refl

  key_six : (p : CustomProvider Q) (a : Addr) → is6 a ≡ true → ip_key p a ≡ p.ipv6_key
  unfolding ip_key
  key_six p a h = rw h refl

  -- The outcome is that of the reply to a request of the URL that the update leaves behind.
  outcome-update :
      (p : CustomProvider Q) (ip : Addr) (values : Values)
      → parse_query p.url.raw_query ≡ inl values
      → let left = (update parse_query encode show client p ip).1 in
        (update parse_query encode show client p ip).0
        ≡ exchanged passed_on (client left.url) (interpret left ip)
  unfolding update
  outcome-update p ip values h = rw h refl

  -- After an update to an IPv4 address, the request of an update to an IPv6 address has both addresses
  -- in its query, the older one as well: the outcome of the second update is that of the reply for a
  -- URL whose query is parsed to both. This is for two different keys, and for a query that is parsed to
  -- the values that were encoded.
  pub update-keeps_older :
      (p : CustomProvider Q) (a b : Addr) (values : Values)
      → ((vs : Values)
          → (ws : Values) × (parse_query (encode vs) ≡ inl ws)
            × ((k : Bytes) → get_value k ws ≡ get_value k vs))
      → parse_query p.url.raw_query ≡ inl values
      → is6 a ≡ false
      → is6 b ≡ true
      → p.ipv4_key ≢ p.ipv6_key
      → let first = (update parse_query encode show client p a).1 in
        let second = (update parse_query encode show client first b).1 in
        (ws : Values) × ((update parse_query encode show client first b).0
          ≡ exchanged passed_on (client second.url) (interpret second b))
        × (parse_query second.url.raw_query ≡ inl ws)
        × (get_value p.ipv4_key ws ≡ show a ∷ [])
        × (get_value p.ipv6_key ws ≡ show b ∷ [])
  update-keeps_older p a b values read_back parsed four six apart =
      let first = (update parse_query encode show client p a).1 in
      let (query1, keys1) = query-update p a values parsed in
      let (vs, read1, same1) = read_back (set_value (ip_key p a) (show a) values) in
      let (query2, keys2) = query-update first b vs (ap parse_query query1 ∙ read1) in
      let (ws, read2, same2) = read_back (set_value (ip_key first b) (show b) vs) in
      let key1 = key_four p a four in
      let key2 = ap (λ f. f b) keys1 ∙ key_six p b six in
      let set1 =
        same1 p.ipv4_key
        ∙ ap (λ k. get_value p.ipv4_key (set_value k (show a) values)) key1
        ∙ get_value-set_value_self p.ipv4_key (show a) values in
      let kept =
        same2 p.ipv4_key
        ∙ ap (λ k. get_value p.ipv4_key (set_value k (show b) vs)) key2
        ∙ get_value-set_value_other p.ipv6_key p.ipv4_key (show b) vs
            (beq_of_ne p.ipv4_key p.ipv6_key apart)
            (beq_of_ne p.ipv6_key p.ipv4_key (λ e. apart (sym e))) in
      let set2 =
        same2 p.ipv6_key
        ∙ ap (λ k. get_value p.ipv6_key (set_value k (show b) vs)) key2
        ∙ get_value-set_value_self p.ipv6_key (show b) vs in
      (
        ws,
        outcome-update first b vs (ap parse_query query1 ∙ read1),
        ap parse_query query2 ∙ read2,
        kept ∙ set1,
        set2,
      )
