-- ===== src/Persistence/Check.antt =====
-- What checkData accepts.
use ddns_updater_beget.Common.{
  ◌≤◌, ◌≡◌, ◌≢◌, ◌↔◌, refl, true, List, [], ◌∷◌, none, All, beq_iff, arith,
}
use ddns_updater_beget.Net.{is_valid}
use ddns_updater_beget.Records.{HistoryEvent}
use ddns_updater_beget.Persistence.Defs.{Entry, check_events_from, check_history_events, check_data}

-- The events are in the order of their times.
abbrev pub IsChronological : List HistoryEvent → Type 0
IsChronological [] = Unit
IsChronological (e ∷ []) = Unit
IsChronological (e ∷ f ∷ es) = (e.time ≤ f.time) × IsChronological (f ∷ es)

abbrev pub IsEvent : HistoryEvent → Type 0
IsEvent e = (e.time ≢ 0) × (is_valid e.ip ≡ true)

abbrev pub IsHistory : List HistoryEvent → Type 0
IsHistory es = All IsEvent es × IsChronological es

abbrev pub IsEntry : Entry → Type 0
IsEntry r = (r.domain ≢ []) × (r.owner ≢ []) × IsHistory r.events

check_events_from_sound :
    (es : List HistoryEvent) (e : HistoryEvent)
    → check_events_from e.time es ≡ none
    → All IsEvent es × IsChronological (e ∷ es)
unfolding check_events_from
check_events_from_sound [] e h = (tt, tt)
check_events_from_sound (f ∷ es) e h = ground (arith, check_events_from_sound es f)

check_events_from_complete :
    (es : List HistoryEvent) (e : HistoryEvent)
    → All IsEvent es
    → IsChronological (e ∷ es)
    → check_events_from e.time es ≡ none
unfolding check_events_from
check_events_from_complete [] e p c = refl
check_events_from_complete (f ∷ es) e p c = ground (arith, check_events_from_complete es f)

IsHistory-iff : (es : List HistoryEvent) → (check_history_events es ≡ none) ↔ IsHistory es
unfolding check_history_events check_events_from
IsHistory-iff [] = (λ h. (tt, tt), λ h. refl)
IsHistory-iff (e ∷ es) = (
  λ h. ground (arith, check_events_from_sound es e),
  λ h. ground (arith, check_events_from_complete es e),
)

-- checkData returns a nil error exactly if every record has a domain and an owner, and events that
-- have a time and a valid address and are in the order of their times.
pub check_data-All : (rs : List Entry) → (check_data rs ≡ none) ↔ All IsEntry rs
unfolding check_data
check_data-All [] = (λ h. tt, λ h. refl)
check_data-All (r ∷ rs) = (
  λ h.
      ground
        (arith, beq_iff r.domain [], beq_iff r.owner [], IsHistory-iff r.events, check_data-All rs),
  λ h.
      ground
        (arith, beq_iff r.domain [], beq_iff r.owner [], IsHistory-iff r.events, check_data-All rs),
)
