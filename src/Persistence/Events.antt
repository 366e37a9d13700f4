-- ===== src/Persistence/Events.antt =====
-- StoreNewIP and GetEvents.
use ddns_updater_beget.Common.{
  ℕ, suc, ◌+◌, ◌-◌, ◌≤◌, ◌≡◌, ◌≢◌, refl, ap, ◌∙◌, true, false, List, [], ◌∷◌, ◌++◌, Option, none,
  some, Bytes, All, All-append, ◌⊎◌, beq_iff, beq_refl, arith, Bool-cases, inl, inr, length,
  length-append,
}
use ddns_updater_beget.IpVersion.{IpVersion, ip4or6}
use ddns_updater_beget.Records.{HistoryEvent}
use ddns_updater_beget.Persistence.Check.{IsChronological, IsEvent, IsEntry}
use ddns_updater_beget.Persistence.Defs.{
  Entry, is_entry, target_index, new_entry, store_at, stored, filter_events, find_events,
}

with_event : HistoryEvent → Entry → Entry
with_event e r = record r { events = r.events ++ e ∷ [] }

filter_events-append :
    (v : IpVersion) (es fs : List HistoryEvent)
    → filter_events v (es ++ fs) ≡ filter_events v es ++ filter_events v fs
unfolding filter_events
filter_events-append v [] fs = refl
filter_events-append v (e ∷ es) fs = ground (arith, filter_events-append v es fs)

filter_events_all : (es : List HistoryEvent) → filter_events ip4or6 es ≡ es
unfolding filter_events
filter_events_all [] = refl
filter_events_all (e ∷ es) = ap (◌∷◌ e) (filter_events_all es)

find_events_hit :
    (domain owner : Bytes) (v : IpVersion) (r : Entry) (rs : List Entry)
    → is_entry domain owner r ≡ true
    → find_events domain owner v (r ∷ rs) ≡ filter_events v r.events
unfolding find_events
find_events_hit domain owner v r rs h = rw h

find_events_miss :
    (domain owner : Bytes) (v : IpVersion) (r : Entry) (rs : List Entry)
    → is_entry domain owner r ≡ false
    → find_events domain owner v (r ∷ rs) ≡ find_events domain owner v rs
unfolding find_events
find_events_miss domain owner v r rs h = rw h

module _ (domain owner : Bytes) (event : HistoryEvent) where
  target_index-suc :
      (rs : List Entry) (i : ℕ)
      → target_index domain owner rs (suc i)
        ≡ elim (target_index domain owner rs i) as (λ x. Option ℕ) [
          | none ↦ none
          | some k ↦ some (suc k)
        ]
  unfolding target_index
  target_index-suc [] i = refl
  target_index-suc (r ∷ rs) i = ground (arith, target_index-suc rs (i + 1))

  stored-nil : stored domain owner event [] ≡ with_event event (new_entry domain owner) ∷ []
  unfolding stored with_event
  stored-nil = refl

  stored_hit :
      (r : Entry) (rs : List Entry)
      → is_entry domain owner r ≡ true
      → stored domain owner event (r ∷ rs) ≡ with_event event r ∷ rs
  unfolding stored with_event
  stored_hit r rs h = rw (h, target_index)

  store_at-suc :
      (r : Entry) (rs : List Entry) (o : Option ℕ)
      → store_at domain owner event
          (r ∷ rs)
          (elim o as (λ x. Option ℕ) [ none ↦ none | some k ↦ some (suc k) ])
        ≡ r ∷ store_at domain owner event rs o
  unfolding store_at
  store_at-suc r rs (some k) = refl
  store_at-suc r rs none =
      let last = new_entry domain owner in
      let size : length (rs ++ last ∷ []) ≡ suc (length rs) =
        omega (arith, length-append rs (last ∷ [])) in
      let here : suc (length rs) - 1 ≡ length rs = omega arith in
      let next : suc (suc (length rs)) - 1 ≡ suc (length rs) = omega arith in rw (size, here, next)

  stored_miss :
      (r : Entry) (rs : List Entry)
      → is_entry domain owner r ≡ false
      → stored domain owner event (r ∷ rs) ≡ r ∷ stored domain owner event rs
  unfolding stored
  stored_miss r rs h =
      let found : target_index domain owner (r ∷ rs) 0 ≡ target_index domain owner rs 1 =
        rw (h, target_index) in
      rw (found, target_index-suc rs 0) (store_at-suc r rs (target_index domain owner rs 0))

  -- Another domain or owner.
  abbrev pub IsOther : Bytes → Bytes → Type 0
  IsOther domain' owner' = (domain ≢ domain') ⊎ (owner ≢ owner')

  is_entry-other :
      (domain' owner' : Bytes) (r : Entry)
      → IsOther domain' owner'
      → is_entry domain owner r ≡ true
      → is_entry domain' owner' r ≡ false
  unfolding is_entry
  is_entry-other domain' owner' r ne h = ground (
    arith,
    beq_iff r.domain domain,
    beq_iff r.owner owner,
    beq_iff r.domain domain',
    beq_iff r.owner owner',
  )

  is_entry_new : is_entry domain owner (with_event event (new_entry domain owner)) ≡ true
  unfolding is_entry with_event new_entry
  is_entry_new = rw (beq_refl domain, beq_refl owner)

  pub find_events-stored_self :
      (v : IpVersion) (rs : List Entry)
      → find_events domain owner v (stored domain owner event rs)
        ≡ find_events domain owner v rs ++ filter_events v (event ∷ [])
  find_events-stored_self v [] =
      rw stored-nil (unfold find_events in rw is_entry_new (unfold with_event new_entry in refl))
  find_events-stored_self v (r ∷ rs) = elim (Bool-cases (is_entry domain owner r)) [
    | inl hit ↦
        rw (stored_hit r rs hit)
          (unfold find_events with_event in rw hit (filter_events-append v r.events (event ∷ [])))
    | inr miss ↦ rw (stored_miss r rs miss) (
        find_events_miss domain owner v r (stored domain owner event rs) miss
        ∙ (rw (find_events_miss domain owner v r rs miss) (find_events-stored_self v rs)))
  ]

  is_entry-with_event :
      (domain' owner' : Bytes) (r : Entry)
      → is_entry domain' owner' (with_event event r) ≡ is_entry domain' owner' r
  unfolding is_entry with_event
  is_entry-with_event domain' owner' r = refl

  pub find_events-stored_other :
      (domain' owner' : Bytes) (v : IpVersion) (rs : List Entry)
      → IsOther domain' owner'
      → find_events domain' owner' v (stored domain owner event rs)
        ≡ find_events domain' owner' v rs
  find_events-stored_other domain' owner' v [] ne =
      let other = is_entry-other domain' owner' _ ne is_entry_new in
      rw stored-nil (unfold find_events in rw other)
  find_events-stored_other domain' owner' v (r ∷ rs) ne =
      elim (Bool-cases (is_entry domain owner r)) [
        | inl hit ↦
            let other = is_entry-other domain' owner' r ne hit in
            rw (stored_hit r rs hit)
              (unfold find_events in rw (is_entry-with_event domain' owner' r, other))
        | inr miss ↦ rw (stored_miss r rs miss) (elim (Bool-cases (is_entry domain' owner' r)) [
          | inl found ↦ rw (
            find_events_hit domain' owner' v r (stored domain owner event rs) found,
            find_events_hit domain' owner' v r rs found,
          )
          | inr other ↦
              rw
                (
                  find_events_miss domain' owner' v r (stored domain owner event rs) other,
                  find_events_miss domain' owner' v r rs other,
                )
                (find_events-stored_other domain' owner' v rs ne)
        ])
      ]

  IsChronological-concat :
      (es : List HistoryEvent)
      → IsChronological es
      → All (λ f. f.time ≤ event.time) es
      → IsChronological (es ++ event ∷ [])
  IsChronological-concat [] c h = tt
  IsChronological-concat (f ∷ []) c h = (h.0, tt)
  IsChronological-concat (f ∷ g ∷ es) c h = (c.0, IsChronological-concat (g ∷ es) c.1 h.1)

  with_event-IsEntry :
      (r : Entry)
      → IsEntry r
      → IsEvent event
      → All (λ f. f.time ≤ event.time) r.events
      → IsEntry (with_event event r)
  unfolding with_event
  with_event-IsEntry r (d, o, (evs, chron)) e h = (
    d,
    o,
    (All-append IsEvent r.events (event ∷ []) evs (e, tt), IsChronological-concat r.events chron h),
  )

  pub stored-All :
      (rs : List Entry)
      → All IsEntry rs
      → domain ≢ []
      → owner ≢ []
      → IsEvent event
      → All (λ f. f.time ≤ event.time) (find_events domain owner ip4or6 rs)
      → All IsEntry (stored domain owner event rs)
  stored-All [] a d o e h =
      rw stored-nil (unfold with_event new_entry in ((d, o, ((e, tt), tt)), tt))
  stored-All (r ∷ rs) a d o e h = elim (Bool-cases (is_entry domain owner r)) [
    | inl hit ↦
        let found : find_events domain owner ip4or6 (r ∷ rs) ≡ r.events =
          unfold find_events in rw hit (filter_events_all r.events) in
        rw (stored_hit r rs hit) (with_event-IsEntry r a.0 e (rw found at h), a.1)
    | inr miss ↦
        let found : find_events domain owner ip4or6 (r ∷ rs) ≡ find_events domain owner ip4or6 rs =
          unfold find_events in rw miss in
        rw (stored_miss r rs miss) (a.0, stored-All rs a.1 d o e (rw found at h))
  ]
