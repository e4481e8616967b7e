-- ===== src/PoolController/Submit/Filled.antt =====
-- pkg/controllers/instancepool/instancepool.go, `submitInstances` on a cluster where nothing fails.
use harvester_equinix_addon.Prelude.{
  ℕ, zero, suc, ◌+◌, ◌≡◌, refl, ap, ◌∙◌, inl, inr, true, false, Option, none, some, ◌∷◌, arith,
  length, String, Bool-cases,
}
use harvester_equinix_addon.Prelude.Int.{pos_part}
use harvester_equinix_addon.Prelude.Text.{lookup, insert}
use harvester_equinix_addon.Api.{InstancePool, ObjectMeta, is_empty}
use harvester_equinix_addon.Services.{
  Services, Error, ok, Call, State, Flow, next, return, panic, blocked, Exit, returned, Raises,
  RaisesFunc, Raised, statements, ReturnsCalmly, run_then-Raises, pure-Raises, then-Raises,
  same-Raises, bind-Raises, invoke_then-Raises, calm_then-Raises, or_leave_then-Raises,
  leave_on-Raises, or_crash-Raises, run-Raises, body-Raises,
}
use harvester_equinix_addon.Util.{
  letter_runes, rune_at, rand_loop, rand_string_runes, lower_rand_string_runes,
}
use harvester_equinix_addon.Util.Letters.{rune_at-within}
use harvester_equinix_addon.PoolController.Template.{Credentials, instance_meta, join_config}
use harvester_equinix_addon.PoolController.Healthy.{Healthy, leaves_instances}
use harvester_equinix_addon.PoolController.Submit.{
  networking, submit_one, submit_rounds, secret_key, find_join_address, credentials,
  generate_cloud_init, submit_instances, default_ingress_service,
}
use harvester_equinix_addon.PoolController.Submit.Lock.{
  all_submitted, start, finishing, looping, submit_instances-looping,
}

module _ {W : Type 0} (env : Services W) (ip : InstancePool) (h : Healthy env ip) where
  abbrev pub size : W → ℕ
  size w = length (h.present w)

  -- A call that leaves the instances leaves their number.
  calm : (c : Call) (w : W) → leaves_instances c ≡ true → size (env.perform c w).1 ≡ size w
  calm c w e = ap length (h.keeps c w e).0

  rand_loop-Raises : {R : Type 0} (n : ℕ) → Raises size 0 (rand_loop env {R = R} n)
  unfolding rand_loop
  rand_loop-Raises zero = pure-Raises size _
  rand_loop-Raises (suc n) =
      calm_then-Raises size env 0 (Call.rand_intn 52) _ (λ w. calm (Call.rand_intn 52) w refl)
        λ w.
          then-Raises size 0
            (or_crash-Raises size (rune_at letter_runes _)
              (rune_at-within letter_runes (env.perform (Call.rand_intn 52) w).0 (h.draws w)).1)
            (λ c. then-Raises size 0 (rand_loop-Raises n) (λ rest. pure-Raises size _))

  rand_string_runes-Raises : (n : ℕ) → RaisesFunc size 0 (rand_string_runes env n)
  unfolding rand_string_runes
  rand_string_runes-Raises n = body-Raises size (
      calm_then-Raises size env 0 Call.now _ (λ w. calm Call.now w refl)
        λ w.
          calm_then-Raises size env 0 (Call.rand_seed _) _ (λ v. calm (Call.rand_seed _) v refl)
            (λ v. rand_loop-Raises n))

  lower_rand_string_runes-Raises : (n : ℕ) → RaisesFunc size 0 (lower_rand_string_runes env n)
  unfolding lower_rand_string_runes
  lower_rand_string_runes-Raises n =
      body-Raises size (
        then-Raises size 0 (run-Raises size (rand_string_runes-Raises n)) (λ s. pure-Raises size _))

  networking-Raises : Raises size 0 (networking env ip)
  unfolding networking
  networking-Raises = elim (Bool-cases (is_empty ip.spec.networking_configuration)) [
    | inl e ↦ rw e (pure-Raises size _)
    | inr e ↦ elim h.networks [ inl e' ↦ absurd (cc) | inr e' ↦ rw (e, e') (pure-Raises size _) ]
  ]

  generated : (m : ObjectMeta) (a : String) → (generate_cloud_init env ip m a).1 ≡ none
  unfolding generate_cloud_init
  generated m a = ground (arith, h.marshals (join_config ip m a))

  labelled :
      (suffix token password : String)
      → lookup "instancePool" (instance_meta ip suffix token password).labels ≡ some ip.meta.name
  unfolding instance_meta insert lookup
  labelled suffix token password = refl

  submit_one-Raises : (c : Credentials) → Raises size 1 (submit_one env ip c)
  unfolding submit_one
  submit_one-Raises c =
      then-Raises size 1 (run-Raises size (lower_rand_string_runes-Raises 8)) λ suffix.
        then-Raises size 1 (run-Raises size (rand_string_runes-Raises 16)) λ password.
          then-Raises size 1 networking-Raises λ n.
            then-Raises size 1 (leave_on-Raises size _ _ (generated _ _)) λ _.
              invoke_then-Raises size env 1 0 (Call.instance_create _) _
                (λ w. h.grows _ w (labelled suffix c.token password))
                (λ w. leave_on-Raises size _ _ (h.creates _ w))

  submit_rounds-Raises : (n : ℕ) (c : Credentials) → Raises size n (submit_rounds env n ip c)
  unfolding submit_rounds
  submit_rounds-Raises zero c = pure-Raises size tt
  submit_rounds-Raises (suc n) c =
      same-Raises size (omega arith)
        (bind-Raises size 1 n (submit_one-Raises c) (λ _. submit_rounds-Raises n c))

  find_join_address-Returns :
      (s : State W) → ReturnsCalmly size (find_join_address env) (ok h.address) s
  unfolding find_join_address statements
  find_join_address-Returns s =
      let c = Call.service_get "kube-system" default_ingress_service in
      let x = env.perform c s.world in
      (
        record s { world = x.1; calls = c ∷ s.calls },
        rw (h.exposes "kube-system" default_ingress_service s.world) refl,
        calm c s.world refl,
        refl,
      )

  secret_key-Raises :
      (key : String) {v : String}
      → lookup key h.secret ≡ some v
      → Raises size 0 (secret_key env ip h.secret key)
  unfolding secret_key
  secret_key-Raises key e = rw (e, secret_key) (pure-Raises size _)

  credentials-Raises : Raises size 0 (credentials env ip)
  unfolding credentials
  credentials-Raises =
      calm_then-Raises size env 0 (Call.secret_get _ _) _ (λ w. calm (Call.secret_get _ _) w refl)
        λ w. or_leave_then-Raises size 0 _ _ _ (h.reads_secret _ _ w) (
          then-Raises size 0 (secret_key-Raises "METAL_AUTH_TOKEN" h.has_token) λ token.
            then-Raises size 0 (secret_key-Raises "PROJECT_ID" h.has_project) λ project.
              calm_then-Raises size env 0 (Call.node_list _) _ (λ w. calm (Call.node_list _) w refl)
                λ w. or_leave_then-Raises size 0 _ _ _ (h.lists_nodes _ w) (
                  run_then-Raises size 0 _ (ok h.address) find_join_address-Returns
                    (or_leave_then-Raises size 0 _ _ _ refl (pure-Raises size _))))

  calm_status :
      (w : W) → size (env.perform (Call.pool_update_status (all_submitted ip)) w).1 ≡ size w
  calm_status w = calm (Call.pool_update_status (all_submitted ip)) w refl

  -- `submit_instances` returns the pool submitted, frees the mutex, and creates the instances needed.
  abbrev pub Filled : State W → Exit (InstancePool × Option Error) × State W → Type 0
  Filled s (r, t) =
      (r ≡ returned (all_submitted ip, none))
      × (size t.world ≡ size s.world + pos_part ip.status.needed)
      × (t.locked ≡ false)

  module _ (s : State W) (free : s.locked ≡ false) where
    finishing-Filled :
        (r : Flow (InstancePool × Option Error) (Unit {0}) × State W)
        → Raised size (pos_part ip.status.needed) (start env ip s free) r
        → Filled s (finishing env ip s free r)
    finishing-Filled (next tt, t) k = (
      ap (λ (x : InstancePool × Option Error). returned (all_submitted ip, x.1))
          (h.writes (all_submitted ip) t.world),
      calm_status t.world ∙ k.0,
      refl,
    )
    finishing-Filled (return r, t) k = absurd k
    finishing-Filled (panic, t) k = absurd k
    finishing-Filled (blocked, t) k = absurd k

    Raised-from :
        (n : ℕ) (a b : State W) (r : Flow (InstancePool × Option Error) (Unit {0}) × State W)
        → (size b.world ≡ size a.world) × (b.locked ≡ a.locked)
        → Raised size n b r
        → Raised size n a r
    Raised-from n a b (next x, t) e k = (omega arith, k.1 ∙ e.1)
    Raised-from n a b (return x, t) e k = k
    Raised-from n a b (panic, t) e k = k
    Raised-from n a b (blocked, t) e k = k

    looping-Filled :
        (r : Flow (InstancePool × Option Error) Credentials × State W)
        → Raised size 0 (start env ip s free) r
        → Filled s (looping env ip s free r)
    looping-Filled (next c, t) k =
        let n = pos_part ip.status.needed in
        finishing-Filled (submit_rounds env n ip c t) (
          Raised-from n (start env ip s free) t _ (k.0 ∙ omega arith, k.1)
            ((submit_rounds-Raises n c).raises t))
    looping-Filled (return r, t) k = absurd k
    looping-Filled (panic, t) k = absurd k
    looping-Filled (blocked, t) k = absurd k

    pub submit_instances-Filled : Filled s (submit_instances env ip s)
    submit_instances-Filled = rw (submit_instances-looping env ip s free) (
        looping-Filled (credentials env ip (start env ip s free))
          (credentials-Raises.raises (start env ip s free)))
