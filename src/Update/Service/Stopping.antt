-- ===== src/Update/Service/Stopping.antt =====
-- When Stop returns, and how many callers await a result.
use ddns_updater_beget.Common.{ℕ, zero, suc, ◌≤◌, ◌≡◌, ◌≢◌, refl, Bool, inl, inr, arith}
use ddns_updater_beget.Update.Service.{
  Runner, selecting, after_tick, after_force, delivering, stopped, Service, service, Step, tick,
  updated, call, force, force_updated, deliver, cancel, stop, GiveUp, give_up, AnyStep, Reach, here,
  next, started, runner_of, awaiting_of, forced_by,
}

-- Of the states that a relation keeps, all that are reached from one.
Reach-kept {ℓ} :
    {R : Service → Service → Type 0} (P : Service → Type ℓ) {s t : Service}
    → ((u v : Service) → R u v → P u → P v)
    → P s
    → Reach R s t
    → P t
Reach-kept P keeps h here = h
Reach-kept P keeps h (next r st) = keeps _ _ st (Reach-kept P keeps h r)

unfoldable IsOwn : Service → Type 0
unfolding forced_by runner_of awaiting_of
IsOwn s = awaiting_of s ≤ forced_by (runner_of s)

AnyStep-IsOwn : {s t : Service} → AnyStep s t → IsOwn s → IsOwn t
unfolding IsOwn
AnyStep-IsOwn (inl tick) h = h
AnyStep-IsOwn (inl updated) h = h
AnyStep-IsOwn (inl call) h = h
AnyStep-IsOwn (inl force) h = ground arith
AnyStep-IsOwn (inl force_updated) h = h
AnyStep-IsOwn (inl deliver) h = ground arith
AnyStep-IsOwn (inl cancel) h = h
AnyStep-IsOwn (inl stop) h = h
AnyStep-IsOwn (inr give_up) h = ground arith

-- Whatever the order of ticks, calls and cancellations, at most one call of ForceUpdate awaits a
-- result, and one does so only while the runner is in an update that was forced or in the send of its
-- result.
pub Reach-awaiting :
    {s : Service} → Reach AnyStep started s → awaiting_of s ≤ forced_by (runner_of s)
unfolding IsOwn
Reach-awaiting r = Reach-kept IsOwn (λ u v. AnyStep-IsOwn) (omega arith) r

-- The runner is busy with an update whose result nobody awaits, or in its send.
unfoldable IsAbandoned : Service → Type 0
unfolding forced_by runner_of awaiting_of
IsAbandoned s = (forced_by (runner_of s) ≡ 1) × (awaiting_of s ≡ 0)

AnyStep-IsAbandoned : {s t : Service} → AnyStep s t → IsAbandoned s → IsAbandoned t
unfolding IsAbandoned
AnyStep-IsAbandoned (inl tick) h = cc
AnyStep-IsAbandoned (inl updated) h = cc
AnyStep-IsAbandoned (inl call) h = h
AnyStep-IsAbandoned (inl force) h = cc
AnyStep-IsAbandoned (inl force_updated) h = h
AnyStep-IsAbandoned (inl deliver) h = ground arith
AnyStep-IsAbandoned (inl cancel) h = h
AnyStep-IsAbandoned (inl stop) h = cc
AnyStep-IsAbandoned (inr give_up) h = ground arith

abandoned : (r : Runner) (n m : ℕ) (c : Bool) → suc m ≤ forced_by r → IsAbandoned (service r n m c)
unfolding IsAbandoned
abandoned selecting n m c h = ground arith
abandoned after_tick n m c h = ground arith
abandoned after_force n m c h = (refl, omega arith)
abandoned delivering n m c h = (refl, omega arith)
abandoned stopped n m c h = ground arith

GiveUp-IsAbandoned : {s t : Service} → IsOwn s → GiveUp s t → IsAbandoned t
unfolding IsOwn
GiveUp-IsAbandoned h give_up = abandoned _ _ _ _ h

busy : (s : Service) → IsAbandoned s → (runner_of s ≢ selecting) × (runner_of s ≢ stopped)
unfolding IsAbandoned
busy (service selecting n m c) h = cc
busy (service after_tick n m c) h = cc
busy (service after_force n m c) h = ((λ e. cc), (λ e. cc))
busy (service delivering n m c) h = ((λ e. cc), (λ e. cc))
busy (service stopped n m c) h = cc

-- Once the context of a caller of ForceUpdate is done while it awaits its result, the runner never
-- returns to its select and never ends: no later tick or call is served, and Stop does not return.
pub GiveUp-never_stops :
    {s t u : Service}
    → Reach AnyStep started s
    → GiveUp s t
    → Reach AnyStep t u
    → (runner_of u ≢ selecting) × (runner_of u ≢ stopped)
unfolding IsOwn
GiveUp-never_stops r g later = busy _ (
    Reach-kept IsAbandoned (λ u v. AnyStep-IsAbandoned) (GiveUp-IsAbandoned (Reach-awaiting r) g)
      later)

unfoldable IsAwaited : Service → Type 0
unfolding forced_by runner_of awaiting_of
IsAwaited s = awaiting_of s ≡ forced_by (runner_of s)

Step-IsAwaited : {s t : Service} → Step s t → IsAwaited s → IsAwaited t
unfolding IsAwaited
Step-IsAwaited tick h = h
Step-IsAwaited updated h = h
Step-IsAwaited call h = h
Step-IsAwaited force h = ground arith
Step-IsAwaited force_updated h = h
Step-IsAwaited deliver h = ground arith
Step-IsAwaited cancel h = h
Step-IsAwaited stop h = h

stops_from : (s : Service) → IsAwaited s → (t : Service) × Reach Step s t × (runner_of t ≡ stopped)
unfolding IsAwaited runner_of
stops_from (service selecting n m c) h = (_, next (next here cancel) stop, refl)
stops_from (service after_tick n m c) h = (_, next (next (next here updated) cancel) stop, refl)
stops_from (service after_force n (suc m) c) h =
    (_, next (next (next (next here force_updated) deliver) cancel) stop, refl)
stops_from (service delivering n (suc m) c) h =
    (_, next (next (next here deliver) cancel) stop, refl)
stops_from (service stopped n m c) h = (_, here, refl)
stops_from (service after_force n zero c) h = cc
stops_from (service delivering n zero c) h = cc

-- As long as no caller gives up, Stop can return from every state that is reached: the runner gets
-- back to its select, and from there to its end.
pub Reach-can_stop :
    {s : Service} → Reach Step started s → (t : Service) × Reach Step s t × (runner_of t ≡ stopped)
unfolding IsAwaited
Reach-can_stop {s} r = stops_from s (Reach-kept IsAwaited (λ u v. Step-IsAwaited) refl r)
