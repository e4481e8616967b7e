-- ===== src/PoolController/Submit/Count.antt =====
-- pkg/controllers/instancepool/instancepool.go, `submitInstances`: how many instances are created.
use harvester_equinix_addon.Prelude.{
  ℕ, zero, suc, ◌+◌, ◌≤◌, ◌≡◌, refl, ap, ◌∙◌, Bool, true, false, List, [], ◌∷◌, ◌++◌, All, arith,
  if◌then◌else◌,
}
use mathlib.Core.Path.{subst}
use harvester_equinix_addon.Api.{InstancePool, Instance}
use harvester_equinix_addon.Services.{
  Services, Call, State, Flow, next, return, panic, blocked, Code, ◌>>=◌, invoke, Makes, Only,
  pure-Only, leave-Only, leave_on-Only, run-Only, if-Only,
}
use harvester_equinix_addon.Util.Calls.{rand_string_runes-Only, lower_rand_string_runes-Only}
use harvester_equinix_addon.Api.{is_empty, is_valid_type}
use harvester_equinix_addon.PoolController.Template.{Credentials}
use harvester_equinix_addon.PoolController.Submit.{networking, submit_one, submit_rounds}

abbrev pub is_create : Call → Bool
is_create (Call.instance_create i) = true
is_create _ = false

-- The number of instances created among the calls.
unfoldable pub creates : List Call → ℕ
creates [] = 0
creates (c ∷ cs) = let rest = creates cs in if is_create c then suc rest else rest

abbrev pub Quiet : Call → Type 0
Quiet c = is_create c ≡ false

creates-append : (new calls : List Call) → All Quiet new → creates (new ++ calls) ≡ creates calls
unfolding creates
creates-append [] calls h = refl
creates-append (c ∷ new) calls h = ground (arith, creates-append new calls h.1)

-- Code that goes on creates exactly `k` more instances, and code that stops at most `k`.
abbrev pub Added : {W R A : Type 0} → ℕ → State W → Flow R A × State W → Type 0
Added k s (next a, t) = creates t.calls ≡ creates s.calls + k
Added k s (return r, t) = creates t.calls ≤ creates s.calls + k
Added k s (panic, t) = creates t.calls ≤ creates s.calls + k
Added k s (blocked, t) = creates t.calls ≤ creates s.calls + k

pub record Adds {W R A : Type 0} (k : ℕ) (m : Code W R A) : Type 0 where
  pub adds : (s : State W) → Added k s (m s)

pub creates-Makes :
    {W : Type 0} (s t : State W) → Makes Quiet s t → creates t.calls ≡ creates s.calls
creates-Makes s t h = ap creates h.grown ∙ creates-append h.new s.calls h.each

module _ {W R : Type 0} where
  Quiet-state :
      {A : Type 0} (s : State W) (r : Flow R A) (t : State W) → Makes Quiet s t → Added 0 s (r, t)
  Quiet-state s (next a) t h = omega (arith, creates-Makes s t h)
  Quiet-state s (return r) t h = omega (arith, creates-Makes s t h)
  Quiet-state s panic t h = omega (arith, creates-Makes s t h)
  Quiet-state s blocked t h = omega (arith, creates-Makes s t h)

  Quiet-Adds : {A : Type 0} {m : Code W R A} → Only Quiet m → Adds 0 m
  Quiet-Adds {m = m} h = record { adds = λ s. Quiet-state s (m s).0 (m s).1 (h.makes s) }

  more :
      {B : Type 0} (k l : ℕ) (s t : State W) (r : Flow R B × State W)
      → creates t.calls ≡ creates s.calls + k
      → Added l t r
      → Added (k + l) s r
  more k l s t (next b, u) h h' = omega arith
  more k l s t (return r, u) h h' = omega arith
  more k l s t (panic, u) h h' = omega arith
  more k l s t (blocked, u) h h' = omega arith

  after-Adds :
      {A B : Type 0} (k l : ℕ) (f : A → Code W R B) (r : Flow R A) (s t : State W)
      → Added k s (r, t)
      → ((a : A) → Adds l (f a))
      → Added (k + l) s (◌>>=◌ (λ (_ : State W). (r, t)) f s)
  unfolding ◌>>=◌
  after-Adds k l f (next a) s t h g = more k l s t (f a t) h ((g a).adds t)
  after-Adds k l f (return x) s t h g = omega arith
  after-Adds k l f panic s t h g = omega arith
  after-Adds k l f blocked s t h g = omega arith

  bind-Adds :
      {A B : Type 0} (k l : ℕ) {m : Code W R A} {f : A → Code W R B}
      → Adds k m
      → ((a : A) → Adds l (f a))
      → Adds (k + l) (m >>= f)
  unfolding ◌>>=◌
  bind-Adds k l {m = m} {f = f} h g = record {
    adds = λ s. after-Adds k l f (m s).0 s (m s).1 (h.adds s) g;
  }

  same-Adds : {A : Type 0} {k l : ℕ} {m : Code W R A} → k ≡ l → Adds k m → Adds l m
  same-Adds {m = m} e h = subst (λ j. Adds j m) e h

  -- A statement that creates nothing, before others.
  Quiet-then-Adds :
      {A B : Type 0} (k : ℕ) {m : Code W R A} {f : A → Code W R B}
      → Only Quiet m
      → ((a : A) → Adds k (f a))
      → Adds k (m >>= f)
  Quiet-then-Adds k h g = same-Adds (omega arith) (bind-Adds 0 k (Quiet-Adds h) g)

  create-Adds :
      (env : Services W) (i : Instance) → Adds 1 (invoke {R = R} env (Call.instance_create i))
  unfolding invoke creates
  create-Adds env i = record { adds = λ s. omega arith }

module _ {W : Type 0} (env : Services W) (ip : InstancePool) (c : Credentials) where
  networking-Quiet : Only Quiet (networking env ip)
  unfolding networking
  networking-Quiet =
      if-Only (is_empty ip.spec.networking_configuration) (pure-Only _)
        (if-Only (is_valid_type ip.spec.networking_configuration) (pure-Only _) (leave-Only _))

  submit_one-Adds : Adds 1 (submit_one env ip c)
  unfolding submit_one
  submit_one-Adds =
      Quiet-then-Adds 1 (run-Only (lower_rand_string_runes-Only env refl (λ t. refl) (λ n. refl) 8))
        λ suffix.
          Quiet-then-Adds 1 (run-Only (rand_string_runes-Only env refl (λ t. refl) (λ n. refl) 16))
            λ password. Quiet-then-Adds 1 networking-Quiet λ n.
              Quiet-then-Adds 1 (leave_on-Only _ _)
                λ _. bind-Adds 1 0 (create-Adds env _) (λ e. Quiet-Adds (leave_on-Only e _))

  -- Rounds that all go well create one instance each, and rounds that stop early create no more.
  pub submit_rounds-Adds : (n : ℕ) → Adds n (submit_rounds env n ip c)
  unfolding submit_rounds
  submit_rounds-Adds zero = Quiet-Adds (pure-Only tt)
  submit_rounds-Adds (suc n) =
      same-Adds (omega arith) (bind-Adds 1 n submit_one-Adds (λ _. submit_rounds-Adds n))
