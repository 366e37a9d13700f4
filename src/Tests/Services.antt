-- ===== src/Tests/Services.antt =====
-- The goroutine of the service, in concrete orders of steps.
use ddns_updater_beget.Common.{◌≡◌, ◌≢◌, ◌≤◌, false, inl}
use ddns_updater_beget.Update.Service.{
  Service, service, selecting, delivering, stopped, Step, tick, updated, call, force, force_updated,
  give_up, AnyStep, Reach, here, next, started, runner_of, awaiting_of, forced_by,
}
use ddns_updater_beget.Update.Service.Stopping.{Reach-awaiting, GiveUp-never_stops, Reach-can_stop}

-- A forced update after a tick, up to its end.
abbrev forced_steps : Reach AnyStep started (service delivering 0 1 false)
forced_steps =
    next (next (next (next (next here (inl tick)) (inl call)) (inl updated)) (inl force))
      (inl force_updated)

Reach-awaiting_example :
    awaiting_of (service delivering 0 1 false)
    ≤ forced_by (runner_of (service delivering 0 1 false))
Reach-awaiting_example = Reach-awaiting forced_steps

GiveUp-never_stops_example :
    (runner_of (service delivering 1 0 false) ≢ selecting)
    × (runner_of (service delivering 1 0 false) ≢ stopped)
GiveUp-never_stops_example = GiveUp-never_stops forced_steps give_up (next here (inl call))

abbrev patient_steps : Reach Step started (service delivering 0 1 false)
patient_steps = next (next (next here call) force) force_updated

Reach-can_stop_example :
    (t : Service) × Reach Step (service delivering 0 1 false) t × (runner_of t ≡ stopped)
Reach-can_stop_example = Reach-can_stop patient_steps
