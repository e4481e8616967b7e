-- ===== src/Controllers/Trail.antt =====
-- pkg/controllers: what stands behind every call over every history.
use harvester_equinix_addon.Prelude.{◌≡◌, refl, ap, Option, List, [], ◌∷◌, ◌++◌, All}
use harvester_equinix_addon.Api.{InstancePool}
use harvester_equinix_addon.Services.{Services, Error, Exit, Call, State, All-mono}
use harvester_equinix_addon.PoolController.Submit.Lock.{
  all_submitted, Submission, submitted, stopped,
}
use harvester_equinix_addon.Controllers.Justified.{HandsPool, Justified, Submitting-Justified}
use harvester_equinix_addon.Controllers.Steps.{Handled, handle-Handled}
use harvester_equinix_addon.Controllers.{Event, handle, History}

-- The calls since `s` that are all justified by the event.
abbrev pub AllJustified : {W : Type 0} → Event → State W → State W → Type 0
AllJustified e s t = (new : List Call) × (t.calls ≡ new ++ s.calls) × All (Justified e) new

submission_justified :
    {W : Type 0} (e : Event) (ip : InstancePool) (s : State W)
    (r : Exit (InstancePool × Option Error)) (t : State W)
    → HandsPool e ip
    → Submission ip s r t
    → AllJustified e s t
submission_justified e ip s r t given (submitted new x h c a k l) = (
  Call.pool_update_status (all_submitted ip) ∷ new,
  c,
  ((ip, given, (refl, refl)), All-mono (Submitting-Justified e ip given) new a),
)
submission_justified e ip s r t given (stopped new h c a k l) =
    (new, c, All-mono (Submitting-Justified e ip given) new a)

handled_justified : {W : Type 0} (e : Event) (s t : State W) → Handled e s t → AllJustified e s t
handled_justified e s t (Handled.calm m d) = (m.new, m.grown, All-mono (λ c h. h.0) m.new m.each)
handled_justified e s t (Handled.waited held same) = ([], ap (λ u. u.calls) same, tt)
handled_justified e s t (Handled.submitted ip r free d given sub) =
    submission_justified e ip s r t given sub

module _ {W : Type 0} (env : Services W) {s : State W} where
  -- Each run of a handler in the history makes calls that are all justified by its own event.
  abbrev pub Trail : {t : State W} → History env s t → Type 0
  Trail History.start = Unit
  Trail (History.handled {t = t} h e) = Trail h × AllJustified e t (handle env e t)
  Trail (History.elsewhere h w) = Trail h

  -- Over any history, whatever the services reply and whatever changes outside between the runs of
  -- handlers, every call of a run is justified by the object that the event of this run handed to the
  -- program.
  pub history_justified : {t : State W} (h : History env s t) → Trail h
  history_justified History.start = tt
  history_justified (History.handled {t = t} h e) =
      (history_justified h, handled_justified e t (handle env e t) (handle-Handled env e t))
  history_justified (History.elsewhere h w) = history_justified h
