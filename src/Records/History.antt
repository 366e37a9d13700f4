-- ===== src/Records/History.antt =====
-- What the queries of a history return.
use mathlib.Core.List.{map, reverse, reverse-append}
use ddns_updater_beget.Common.{
  ℕ, zero, suc, ◌-◌, ◌≤◌, ◌≡◌, refl, ap, [], ◌∷◌, ◌++◌, some, length, get_elem?, take, arith,
  length-append, last?-concat, get_elem?_of_lt, leb, false,
}
use ddns_updater_beget.Records.Defs.{
  HistoryEvent, History, get_current_ip, get_success_time, get_previous_ips, previous_from,
  event_ip,
}

take-suc :
    (h : History) (n : ℕ) (e : HistoryEvent)
    → get_elem? h n ≡ some e
    → take (suc n) h ≡ take n h ++ e ∷ []
take-suc [] n e p = cc
take-suc (x ∷ h) zero e p = cc
take-suc (x ∷ h) (suc n) e p = ap (◌∷◌ x) (take-suc h n e p)

take_all : (h : History) (e : HistoryEvent) → take (length h) (h ++ e ∷ []) ≡ h
take_all [] e = refl
take_all (x ∷ h) e = ap (◌∷◌ x) (take_all h e)

previous_from-reverse :
    (h : History) (n : ℕ) → n ≤ length h → previous_from h n ≡ map (λ e. e.ip) (reverse (take n h))
unfolding previous_from
previous_from-reverse h zero p = refl
previous_from-reverse h (suc n) p =
    let (e, at) = get_elem?_of_lt h n (omega arith) in
    rw (take-suc h n e at, reverse-append, at)
      (ap (◌∷◌ e.ip) (previous_from-reverse h n (omega arith)))

get_previous_ips-reverse :
    (h : History) (e : HistoryEvent) → get_previous_ips (h ++ e ∷ []) ≡ map (λ x. x.ip) (reverse h)
get_previous_ips-reverse [] e = unfold get_previous_ips in refl
get_previous_ips-reverse (x ∷ h) e =
    let size : length (h ++ e ∷ []) ≡ suc (length h) = omega (arith, length-append h (e ∷ [])) in
    let long : leb (suc (length (h ++ e ∷ []))) 1 ≡ false = ground arith in
    let start : suc (length (h ++ e ∷ [])) - 1 ≡ suc (length h) = omega arith in
    let tail = previous_from-reverse ((x ∷ h) ++ e ∷ []) (suc (length h)) (omega arith) in
    unfold get_previous_ips in rw (long, start) (rw (take_all h e) at tail)

-- With the latest event `e` at the end of a history, the current address and the success time are
-- those of `e`, and the previous addresses are those of the events before it, latest first.
pub history_queries :
    (h : History) (e : HistoryEvent)
    → (get_current_ip (h ++ e ∷ []) ≡ e.ip)
      × (get_success_time (h ++ e ∷ []) ≡ e.time)
      × (get_previous_ips (h ++ e ∷ []) ≡ map (λ x. x.ip) (reverse h))
unfolding get_current_ip get_success_time event_ip
history_queries h e = (rw (last?-concat h e), rw (last?-concat h e), get_previous_ips-reverse h e)
