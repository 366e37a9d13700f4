-- ===== src/PublicIp/Http/Rings.antt =====
-- Which URL a fetcher asks.
use native.Mathlib.Nat.{mod-add-mod, add-mod-mod, add-mod_right, mod-lt, mod-eq_of_lt}
use ddns_updater_beget.Common.{
  ℕ, zero, suc, ◌+◌, ◌-◌, ◌%◌, ◌<◌, ◌≡◌, refl, sym, ap, ◌∙◌, Bool, true, false, ◌⊎◌, inl, inr, some,
  Bytes, length, get_elem?, get_elem?_of_lt, arith, Bool-cases, if◌then◌else◌,
}
use ddns_updater_beget.Net.{Addr}
use ddns_updater_beget.PublicIp.Http.{
  UrlsRing, FetchError, all_banned, is_banned, next_index, fetch_at, note_ban, ip,
}

-- The index that comes `k` places after the next one, around the ring.
abbrev pub place : ℕ → ℕ → ℕ → ℕ
place n index k = (index + 1 + k) % n

place_next : (n index k : ℕ) → place n ((index + 1) % n) k ≡ place n index (suc k)
place_next n index k =
    let e : (index + 1) % n + 1 + k ≡ (index + 1) % n + (1 + k) = omega arith in
    let f : index + 1 + (1 + k) ≡ index + 1 + suc k = omega arith in
    ap (λ x. x % n) e ∙ mod-add-mod (index + 1) n (1 + k) ∙ ap (λ x. x % n) f

place_first : (n index : ℕ) → (index + 1) % n ≡ place n index 0
place_first n index = let e : index + 1 ≡ index + 1 + 0 = omega arith in ap (λ x. x % n) e

-- The first free place, if one of the first `left` places is free.
abbrev IsFirst : (ℕ → Bool) → ℕ → ℕ → ℕ → ℕ → Type 0
IsFirst banned n left index i =
    (k : ℕ) × (k < left)
    × (i ≡ place n index k)
    × (banned i ≡ false)
    × ((j : ℕ) → j < k → banned (place n index j) ≡ true)

module _ (banned : ℕ → Bool) (n : ℕ) where
  next_index-suc :
      (left index : ℕ)
      → next_index banned n (suc left) index ≡ (
          if banned ((index + 1) % n)
          then next_index banned n left ((index + 1) % n)
          else ((index + 1) % n, true))
  unfolding next_index
  next_index-suc left index = refl

  earlier :
      (index k : ℕ)
      → banned ((index + 1) % n) ≡ true
      → ((j : ℕ) → j < k → banned (place n ((index + 1) % n) j) ≡ true)
      → (j : ℕ) → j < suc k
      → banned (place n index j) ≡ true
  earlier index k first rest zero lt = rw (← place_first n index) first
  earlier index k first rest (suc j) lt = rw (← place_next n index j) (rest j (omega arith))

  next_index-IsFirst :
      (left index i : ℕ)
      → next_index banned n left index ≡ (i, true)
      → IsFirst banned n left index i
  next_index-IsFirst zero index i h = unfold next_index in cc
  next_index-IsFirst (suc left) index i h = elim (Bool-cases (banned ((index + 1) % n))) [
    | inl taken ↦
        let step = sym (next_index-suc left index) ∙ h in
        let (k, lt, at, free, before) =
          next_index-IsFirst left ((index + 1) % n) i (rw taken at step) in
        (suc k, omega arith, at ∙ place_next n index k, free, earlier index k taken before)
    | inr free ↦
        let step = sym (next_index-suc left index) ∙ h in
        let here : (index + 1) % n ≡ i = ap (λ x. x.0) (rw free at step) in
        (
          0,
          omega arith,
          sym here ∙ place_first n index,
          rw (← here) free,
          λ j lt. absurd (omega arith),
        )
  ]

  next_index-taken :
      (left index i : ℕ)
      → next_index banned n left index ≡ (i, false)
      → (j : ℕ) → j < left
      → banned (place n index j) ≡ true
  next_index-taken zero index i h j lt = absurd (omega arith)
  next_index-taken (suc left) index i h j lt = elim (Bool-cases (banned ((index + 1) % n))) [
    | inl taken ↦
        let step = sym (next_index-suc left index) ∙ h in
        earlier index left taken (next_index-taken left ((index + 1) % n) i (rw taken at step)) j lt
    | inr free ↦
        let step = sym (next_index-suc left index) ∙ h in
        let no : true ≡ false = ap (λ x. x.1) (rw free at step) in cc
  ]

-- The places are all the indices.
place_onto : (n index i : ℕ) → i < n → (j : ℕ) × (j < n) × (place n index j ≡ i)
place_onto n index i lt =
    let r = (index + 1) % n in
    let bound : r < n = mod-lt (index + 1) (omega arith) in
    let j = (i + n - r) % n in
    let sum : r + (i + n - r) ≡ i + n = omega arith in
    (
      j,
      mod-lt (i + n - r) (omega arith),
      add-mod-mod (index + 1) (i + n - r) n
          ∙ sym (mod-add-mod (index + 1) n (i + n - r))
          ∙ ap (λ x. x % n) sum
          ∙ add-mod_right i n
          ∙ mod-eq_of_lt lt,
    )

module _ (get : Bytes → Addr ⊎ FetchError) (ring : UrlsRing) where
  ip-fetch_at :
      0 < length ring.urls
      → ip get ring
        ≡ fetch_at get ring
            (next_index (is_banned ring) (length ring.urls) (length ring.urls) ring.index)
  unfolding ip
  ip-fetch_at h = ground arith

  -- If a URL is not banned, the call for an address asks the first URL after the last index, around
  -- the ring, that is not banned. It returns what the fetch of that URL gives, and the ring stands at
  -- it, with the ban noted if the fetch says so.
  pub ip_asks :
      (i : ℕ)
      → i < length ring.urls
      → is_banned ring i ≡ false
      → (k : ℕ) × (u : Bytes) × (k < length ring.urls)
        × (get_elem? ring.urls (place (length ring.urls) ring.index k) ≡ some u)
        × (is_banned ring (place (length ring.urls) ring.index k) ≡ false)
        × ((j : ℕ) → j < k → is_banned ring (place (length ring.urls) ring.index j) ≡ true)
        × (ip get ring
            ≡ some (
              note_ban
                  (place (length ring.urls) ring.index k)
                  (record ring { index = place (length ring.urls) ring.index k })
                  (get u),
              get u,
            ))
  ip_asks i lt free = by_outcome _ _ refl
    where
      n : ℕ
      n = length ring.urls

      by_outcome :
          (at : ℕ) (ok : Bool)
          → next_index (is_banned ring) n n ring.index ≡ (at, ok)
          → (k : ℕ) × (u : Bytes) × (k < n)
            × (get_elem? ring.urls (place n ring.index k) ≡ some u)
            × (is_banned ring (place n ring.index k) ≡ false)
            × ((j : ℕ) → j < k → is_banned ring (place n ring.index j) ≡ true)
            × (ip get ring
                ≡ some (
                  note_ban
                      (place n ring.index k)
                      (record ring { index = place n ring.index k })
                      (get u),
                  get u,
                ))
      by_outcome at false h =
          let (j, below, there) = place_onto n ring.index i lt in
          let taken = next_index-taken (is_banned ring) n n ring.index at h j below in
          absurd (cc (ap (is_banned ring) there))
      by_outcome at true h =
          let (k, below, e, unbanned, before) =
            next_index-IsFirst (is_banned ring) n n ring.index at h in
          let (u, there) =
            get_elem?_of_lt ring.urls at (rw e (mod-lt (ring.index + 1 + k) (omega arith))) in
          (
            k,
            u,
            below,
            rw (← e) there,
            rw (← e) unbanned,
            before,
            ip-fetch_at (omega arith)
                ∙ ap (fetch_at get ring) h
                ∙ rw (← e) (unfold fetch_at in rw there),
          )

  -- If every URL is banned, the call for an address returns ErrBanned, whatever a fetch would give, and
  -- the bans are the same.
  pub ip_all_banned :
      0 < length ring.urls
      → ((i : ℕ) → i < length ring.urls → is_banned ring i ≡ true)
      → (i : ℕ) × (ip get ring ≡ some (record ring { index = i }, inr all_banned))
  ip_all_banned pos taken = by_outcome _ _ refl
    where
      by_outcome :
          (at : ℕ) (ok : Bool)
          → next_index (is_banned ring) (length ring.urls) (length ring.urls) ring.index ≡ (at, ok)
          → (i : ℕ) × (ip get ring ≡ some (record ring { index = i }, inr all_banned))
      by_outcome at false h =
          (at, ip-fetch_at pos ∙ ap (fetch_at get ring) h ∙ (unfold fetch_at in refl))
      by_outcome at true h =
          let (k, below, e, unbanned, before) =
            next_index-IsFirst (is_banned ring) (length ring.urls) (length ring.urls) ring.index at
              h in
          absurd (cc (taken at (rw e (mod-lt (ring.index + 1 + k) pos))))
