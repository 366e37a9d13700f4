-- ===== src/Update/Service.antt =====
-- internal/update/service.go: the goroutine of the service, with Start, run, Stop and ForceUpdate. Both
-- channels of a forced update are without a buffer, so a send and its receive are one step.
pub mod Stopping
use ddns_updater_beget.Common.{ℕ, zero, suc, Bool, true, false, ◌⊎◌, inl, inr}

-- Where the loop of run stands: in the select, in an update after a tick, in an update after a caller
-- of ForceUpdate, in the send of the result of the latter, or after the loop, with `done` closed.
pub data Runner : Type 0 where
  selecting after_tick after_force delivering stopped : Runner

-- The runner, the calls of ForceUpdate that are in their send, those that are in their select, and
-- whether Stop has cancelled the context of run.
pub data Service : Type 0 where
  service : Runner → ℕ → ℕ → Bool → Service

-- The steps but one: a tick; the end of its update; a call of ForceUpdate; the receive of its send; the
-- end of that update; the delivery of the result; the cancellation by Stop; the return of run, after
-- which Stop returns.
pub data Step : Service → Service → Type 0 where
  tick : {n m : ℕ} {c : Bool} → Step (service selecting n m c) (service after_tick n m c)
  updated : {n m : ℕ} {c : Bool} → Step (service after_tick n m c) (service selecting n m c)
  call : {r : Runner} {n m : ℕ} {c : Bool} → Step (service r n m c) (service r (suc n) m c)
  force :
      {n m : ℕ} {c : Bool} → Step (service selecting (suc n) m c) (service after_force n (suc m) c)
  force_updated : {n m : ℕ} {c : Bool} → Step (service after_force n m c) (service delivering n m c)
  deliver : {n m : ℕ} {c : Bool} → Step (service delivering n (suc m) c) (service selecting n m c)
  cancel : {r : Runner} {n m : ℕ} {c : Bool} → Step (service r n m c) (service r n m true)
  stop : {n m : ℕ} → Step (service selecting n m true) (service stopped n m true)

-- The context of a caller is done while it awaits its result.
pub data GiveUp : Service → Service → Type 0 where
  give_up : {r : Runner} {n m : ℕ} {c : Bool} → GiveUp (service r n (suc m) c) (service r n m c)

abbrev pub AnyStep : Service → Service → Type 0
AnyStep s t = Step s t ⊎ GiveUp s t

-- The states that steps of a kind lead to.
pub data Reach (R : Service → Service → Type 0) (s : Service) : Service → Type 0 where
  here : Reach R s s
  next : {t u : Service} → Reach R s t → R t u → Reach R s u

-- Start, once run is ready.
abbrev pub started : Service
started = service selecting 0 0 false

unfoldable pub runner_of : Service → Runner
runner_of (service r n m c) = r

unfoldable pub awaiting_of : Service → ℕ
awaiting_of (service r n m c) = m

-- The calls whose update is under way or has its result ready.
unfoldable pub forced_by : Runner → ℕ
forced_by selecting = 0
forced_by after_tick = 0
forced_by after_force = 1
forced_by delivering = 1
forced_by stopped = 0
