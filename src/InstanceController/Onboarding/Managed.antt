-- ===== src/InstanceController/Onboarding/Managed.antt =====
-- pkg/controllers/instance/instance.go: the changes that take a new instance to a managed node.
use harvester_equinix_addon.Prelude.{
  ℕ, zero, suc, String, ◌≡◌, ◌⊎◌, refl, ap, ◌∙◌, sym, inl, inr, none, some, List, [], ◌∷◌, ◌++◌,
  Option, arith,
}
use harvester_equinix_addon.Api.{Instance}
use harvester_equinix_addon.Services.{
  Services, Error, Call, State, Exit, returned, panicked, waiting, Func, perform_all,
  perform_all-append, statements,
}
use harvester_equinix_addon.InstanceController.Lifecycle.{
  finalizer, set_status, submit_request, check_status, reinstall, manage_nodes, dispatch,
  on_instance_change,
}
use harvester_equinix_addon.InstanceController.Onboarding.{LetsThrough}
use harvester_equinix_addon.InstanceController.Onboarding.Reinstalled.{
  get_call, ready, reinstall_calls,
}
use harvester_equinix_addon.InstanceController.Onboarding.Handlers.{
  accepted, submit_calls, written, reinstalling, managed, submit_request-Performs,
  check_status-Performs, reinstall-Performs, manage_nodes-Performs,
}

-- A handler that returns an object and no error hands it to what follows.
abbrev pub hand_on :
    {W : Type 0}
    → (Instance → Func W (Option Instance × Option Error))
    → Exit (Option Instance × Option Error) × State W
    → Exit (Option Instance × Option Error) × State W
hand_on f (returned (some j, none), t) = f j t
hand_on f (returned (some j, some e), t) = (returned (some j, some e), t)
hand_on f (returned (none, e), t) = (returned (none, e), t)
hand_on f (panicked, t) = (panicked, t)
hand_on f (waiting, t) = (waiting, t)

-- So many changes of an instance, each of the object that the one before has returned.
pub changes :
    {W : Type 0} → Services W → String → ℕ → Instance → Func W (Option Instance × Option Error)
changes env key zero i s = (returned (some i, none), s)
changes env key (suc n) i s = hand_on (changes env key n) (on_instance_change env key (some i) s)

module _ {W : Type 0} (env : Services W) (key : String) where
  change :
      (j k : Instance) (s t : State W)
      → j.meta.deletion_timestamp ≡ none
      → dispatch env key j s ≡ (returned (k, none), t)
      → on_instance_change env key (some j) s ≡ (returned (some k, none), t)
  unfolding on_instance_change statements
  change j k s t alive e = ground arith

  dispatch_new :
      (j : Instance) (s : State W)
      → j.status.status ≡ ""
      → dispatch env key j s ≡ submit_request env j s
  unfolding dispatch
  dispatch_new j s e = rw e refl

  dispatch_submitted :
      (j : Instance) (s : State W)
      → (j.status.status ≡ "queued") ⊎ (j.status.status ≡ "submitted")
      → dispatch env key j s ≡ reinstall env key j s
  unfolding dispatch
  dispatch_submitted j s (inl e) = rw e refl
  dispatch_submitted j s (inr e) = rw e refl

  dispatch_reinstalling :
      (j : Instance) (s : State W)
      → j.status.status ≡ "reinstalling"
      → dispatch env key j s ≡ check_status env key j s
  unfolding dispatch
  dispatch_reinstalling j s e = rw e refl

  dispatch_ready :
      (j : Instance) (s : State W)
      → j.status.status ≡ "ready"
      → dispatch env key j s ≡ manage_nodes env j s
  unfolding dispatch
  dispatch_ready j s e = rw e refl

module _ {W : Type 0} (env : Services W) (key : String) (i : Instance) (h : LetsThrough env i) where
  abbrev first : Instance
  first = accepted env i h

  abbrev second : Instance
  second = set_status (reinstalling env i h first.status) first

  abbrev third : Instance
  third = set_status (ready env i h second.status) second

  abbrev last : Instance
  last = set_status (managed env i h third.status) third

  -- The calls that each of the four changes makes, and all of them in order.
  abbrev first_calls : List Call
  first_calls = submit_calls env i h

  abbrev second_calls : List Call
  second_calls =
      get_call env i h ∷ (reinstall_calls env i h ++ written env i h second.status second ∷ [])

  abbrev third_calls : List Call
  third_calls = get_call env i h ∷ written env i h third.status third ∷ []

  abbrev last_calls : List Call
  last_calls = Call.node_get i.meta.name ∷ written env i h last.status last ∷ []

  abbrev pub onboarding_calls : List Call
  onboarding_calls = first_calls ++ (second_calls ++ (third_calls ++ last_calls))

  step_first :
      (s : State W)
      → i.meta.deletion_timestamp ≡ none
      → i.status.status ≡ ""
      → on_instance_change env key (some i) s
        ≡ (returned (some first, none), perform_all env first_calls s)
  step_first s alive e =
      change env key i first s _ alive
        (dispatch_new env key i s e ∙ submit_request-Performs env i h s)

  step_second :
      (s : State W)
      → i.meta.deletion_timestamp ≡ none
      → on_instance_change env key (some first) s
        ≡ (returned (some second, none), perform_all env second_calls s)
  step_second s alive = change env key first second s _ alive (
      dispatch_submitted env key first s h.accepted
      ∙ reinstall-Performs env i h key first (refl, refl, refl) s)

  step_third :
      (s : State W)
      → i.meta.deletion_timestamp ≡ none
      → on_instance_change env key (some second) s
        ≡ (returned (some third, none), perform_all env third_calls s)
  step_third s alive = change env key second third s _ alive (
      dispatch_reinstalling env key second s refl
      ∙ check_status-Performs env i h key second (refl, refl, refl) s)

  step_last :
      (s : State W)
      → i.meta.deletion_timestamp ≡ none
      → on_instance_change env key (some third) s
        ≡ (returned (some last, none), perform_all env last_calls s)
  step_last s alive =
      change env key third last s _ alive
        (dispatch_ready env key third s refl ∙ manage_nodes-Performs env i h third h.joins s)

  in_order :
      (a b c d : List Call) (s : State W)
      → perform_all env d (perform_all env c (perform_all env b (perform_all env a s)))
        ≡ perform_all env (a ++ (b ++ (c ++ d))) s
  in_order a b c d s = sym (
      perform_all-append env a (b ++ (c ++ d)) s
      ∙ perform_all-append env b (c ++ d) (perform_all env a s)
      ∙ perform_all-append env c d (perform_all env b (perform_all env a s)))

  -- A new instance that is not being deleted, with services that let it through, is a managed node after
  -- four changes: it has the device that was made for it, the addresses of that device and the finalizer,
  -- and is otherwise as it was, and exactly the calls of the four handlers have been made, in order.
  pub onboarded :
      (s : State W)
      → i.meta.deletion_timestamp ≡ none
      → i.status.status ≡ ""
      → let info = env.get_network_info h.active in
        changes env key 4 i s ≡ (
          returned (
            some (record i {
              meta = record (i.meta) { finalizers = finalizer ∷ [] };
              status = record {
                status = "managed";
                instance_id = h.device.id;
                public_ip = info.public_ipv4;
                private_ip = info.private_ipv4;
              };
            }),
            none,
          ),
          perform_all env onboarding_calls s,
        )
  unfolding changes
  onboarded s alive new =
      let t1 = perform_all env first_calls s in
      let t2 = perform_all env second_calls t1 in
      let t3 = perform_all env third_calls t2 in
      ap (hand_on (changes env key 3)) (step_first s alive new)
      ∙ ap (hand_on (changes env key 2)) (step_second t1 alive)
      ∙ ap (hand_on (changes env key 1)) (step_third t2 alive)
      ∙ ap (hand_on (changes env key 0)) (step_last t3 alive)
      ∙ ap (λ t. (returned (some last, none), t))
          (in_order first_calls second_calls third_calls last_calls s)
