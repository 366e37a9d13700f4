-- ===== src/PublicIp/Info.antt =====
-- pkg/publicip/info/info.go: Info.Get, with the loop as steps of a state. Its providers are told apart
-- by their indices; `answer` is what each call of a provider returns, by the number of the call, a
-- result and an error as in Go.
use ddns_updater_beget.Common.{
  ℕ, zero, suc, ◌+◌, ◌<◌, ◌≡◌, refl, ap, ◌∙◌, Bool, false, not, ◌||◌, Option, none, some, Error,
  ltb, ◌==◌, if◌then◌else◌, arith,
}

pub data InfoError : Type 0 where
  too_many_requests : InfoError
  other : Error → InfoError

-- The variables of the loop: `calls` counts the calls of providers, and `got` is the named results.
pub record Loop (A : Type 0) : Type 0 where
  pub index : ℕ
  pub failed : ℕ
  pub calls : ℕ
  pub banned : ℕ → Bool
  pub got : A × Option InfoError

-- A panic is an index out of range.
pub data Step (A : Type 0) : Type 0 where
  running : Loop A → Step A
  returned : Loop A → Step A
  panicked : Step A

-- The map after i.ban, if the error asks for it.
unfoldable pub ban_if_asked : ℕ → InfoError → (ℕ → Bool) → ℕ → Bool
ban_if_asked i too_many_requests banned j = i == j || banned j
ban_if_asked i (other e) banned j = banned j

module _ {A : Type 0} (count : ℕ) (answer : ℕ → ℕ → A × Option InfoError) where
  -- What follows provider.get.
  unfoldable pub after_get : Loop A → A × Option InfoError → Loop A
  unfolding ban_if_asked
  after_get l (result, none) = record l { calls = l.calls + 1; got = (result, none) }
  after_get l (result, some e) = record l {
    calls = l.calls + 1;
    got = (result, some e);
    index = l.index + 1;
    failed = l.failed + 1;
    banned = ban_if_asked l.index e l.banned;
  }

  -- A round of the loop, with its condition.
  unfoldable pub step : Loop A → Step A
  unfolding after_get
  step l =
      if not (ltb l.failed count)
      then returned l
      else if not (ltb l.index count)
      then panicked
      else if l.banned l.index
      then running (record l { index = l.index + 1; failed = l.failed + 1 })
      else running (after_get l (answer l.calls l.index))

  again : ℕ → Step A → Step A
  again zero s = s
  again (suc fuel) (running l) = again fuel (step l)
  again (suc fuel) (returned l) = returned l
  again (suc fuel) panicked = panicked

  -- What Get returns with a single provider.
  single : (ℕ → Bool) → A × Option InfoError → Loop A
  single banned got = record { index = 0; failed = 0; calls = 1; banned = banned; got = got }

  -- Get, in its loop after `fuel` rounds. `start` is the random index, and `nothing`
  -- the zero result.
  unfoldable pub get_after : ℕ → ℕ → A → (ℕ → Bool) → Step A
  unfolding again step single
  get_after fuel start nothing banned =
      let loop = again fuel (
        running (record {
          index = start;
          failed = 0;
          calls = 0;
          banned = banned;
          got = (nothing, none);
        })) in
      if count == 1 then returned (single banned (answer 0 0)) else loop

  step_ok :
      (l : Loop A) (r : A)
      → l.failed < count
      → l.index < count
      → l.banned l.index ≡ false
      → answer l.calls l.index ≡ (r, none)
      → step l ≡ running (record l { calls = l.calls + 1; got = (r, none) })
  unfolding step
  step_ok l r f i b a = rw (b, a) (unfold after_get in ground arith)

  again_ok :
      (fuel : ℕ) (l : Loop A)
      → l.failed < count
      → l.index < count
      → l.banned l.index ≡ false
      → ((n : ℕ) → (r : A) × (answer n l.index ≡ (r, none)))
      → (l' : Loop A) × (again fuel (running l) ≡ running l')
  again_ok zero l f i b a = (l, unfold again in refl)
  again_ok (suc fuel) l f i b a =
      let (r, e) = a l.calls in
      let next = step_ok l r f i b e in
      let (l', more) = again_ok fuel (record l { calls = l.calls + 1; got = (r, none) }) f i b a in
      (l', again-suc fuel l ∙ ap (again fuel) next ∙ more)
    where
      again-suc : (fuel : ℕ) (l : Loop A) → again (suc fuel) (running l) ≡ again fuel (step l)
      again-suc fuel l = unfold again in refl

  -- With several providers Get never returns if the provider that it picks first is not banned and
  -- answers each call without an error: after any number of rounds it is still in its loop, which a success does not end.
  pub get_after_ok_never_returns :
      (fuel start : ℕ) (nothing : A) (banned : ℕ → Bool)
      → 1 < count
      → start < count
      → banned start ≡ false
      → ((n : ℕ) → (r : A) × (answer n start ≡ (r, none)))
      → (l : Loop A) × (get_after fuel start nothing banned ≡ running l)
  unfolding get_after
  get_after_ok_never_returns fuel start nothing banned several i b a =
      let many : (count == 1) ≡ false = ground arith in
      rw many (
        again_ok fuel
          (record { index = start; failed = 0; calls = 0; banned = banned; got = (nothing, none) })
          (omega arith) i b a)
