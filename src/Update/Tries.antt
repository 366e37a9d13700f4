-- ===== src/Update/Tries.antt =====
-- What the tries at the public address give.
use ddns_updater_beget.Common.{
  ℕ, zero, suc, ◌+◌, ◌<◌, ◌≡◌, refl, ap, ◌∙◌, List, [], ◌∷◌, ◌++◌, none, some, Error, arith,
}
use ddns_updater_beget.Net.{Addr, invalid}
use ddns_updater_beget.IpVersion.{IpVersion}
use ddns_updater_beget.Update.GetIp.{
  Fetched, try_from, tries, tries_failed, try_and_repeat_getting_ip,
}

module _ (fetch : ℕ → Fetched) (version : IpVersion) where
  try_from_ok :
      (left try : ℕ) (errs : List Error) (last a : Addr)
      → fetch try ≡ (a, none)
      → try_from fetch version (suc left) try errs last ≡ (a, none)
  unfolding try_from
  try_from_ok left try errs last a h = rw (ap (λ x. x.1) h, try_from) (ap (λ x. (x.0, none)) h)

  try_from_err :
      (left try : ℕ) (errs : List Error) (last a : Addr) (e : Error)
      → fetch try ≡ (a, some e)
      → try_from fetch version (suc left) try errs last
        ≡ try_from fetch version left (try + 1) (errs ++ e ∷ []) a
  unfolding try_from
  try_from_err left try errs last a e h =
      rw (ap (λ x. x.1) h, try_from)
        (ap (λ x. try_from fetch version left (try + 1) (errs ++ e ∷ []) x.0) h)

  try_from_first :
      (n left try : ℕ) (errs : List Error) (last a : Addr)
      → n < left
      → ((m : ℕ) → m < n → (b : Addr) × (e : Error) × (fetch (try + m) ≡ (b, some e)))
      → fetch (try + n) ≡ (a, none)
      → try_from fetch version left try errs last ≡ (a, none)
  try_from_first n zero try errs last a lt fails ok = absurd (omega arith)
  try_from_first zero (suc left) try errs last a lt fails ok =
      let here : try + 0 ≡ try = omega arith in try_from_ok left try errs last a (rw here at ok)
  try_from_first (suc n) (suc left) try errs last a lt fails ok =
      let here : try + 0 ≡ try = omega arith in
      let (b, e, failed) = fails 0 (omega arith) in
      try_from_err left try errs last b e (rw here at failed)
      ∙ try_from_first n left (try + 1) (errs ++ e ∷ []) b a (omega arith)
          (λ m l.
            let shift : try + 1 + m ≡ try + suc m = omega arith in
            rw shift (fails (suc m) (omega arith)))
          (let shift : try + 1 + n ≡ try + suc n = omega arith in rw shift ok)

  -- If the tries before try `n` of the three fail and try `n` succeeds, its address is the result,
  -- with no error.
  pub try_and_repeat_first :
      (n : ℕ) (a : Addr)
      → n < tries
      → ((m : ℕ) → m < n → (b : Addr) × (e : Error) × (fetch m ≡ (b, some e)))
      → fetch n ≡ (a, none)
      → try_and_repeat_getting_ip fetch version ≡ (a, none)
  unfolding try_and_repeat_getting_ip
  try_and_repeat_first n a lt fails ok =
      try_from_first n tries 0 [] invalid a lt
        (λ m l. let start : 0 + m ≡ m = omega arith in rw start (fails m l))
        (let start : 0 + n ≡ n = omega arith in rw start ok)

  try_from_end :
      (try : ℕ) (errs : List Error) (last : Addr)
      → try_from fetch version 0 try errs last ≡ (last, some (tries_failed version errs))
  unfolding try_from
  try_from_end try errs last = refl

  -- If all three tries fail, the address of the last is returned with the error that joins the three in
  -- order.
  pub try_and_repeat_fails :
      (a b c : Addr) (d e f : Error)
      → fetch 0 ≡ (a, some d)
      → fetch 1 ≡ (b, some e)
      → fetch 2 ≡ (c, some f)
      → try_and_repeat_getting_ip fetch version ≡ (c, some (tries_failed version (d ∷ e ∷ f ∷ [])))
  unfolding try_and_repeat_getting_ip
  try_and_repeat_fails a b c d e f first second third =
      try_from_err 2 0 [] invalid a d first
      ∙ try_from_err 1 1 (d ∷ []) a b e second
      ∙ try_from_err 0 2 (d ∷ e ∷ []) b c f third
      ∙ try_from_end 3 (d ∷ e ∷ f ∷ []) c
