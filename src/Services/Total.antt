-- ===== src/Services/Total.antt =====
-- Code that always goes on, and by how much it then raises a measure of the outside.
use harvester_equinix_addon.Prelude.{ℕ, ◌+◌, ◌≡◌, refl, sym, ◌∙◌, Option, none, some, ◌∷◌, arith}
use mathlib.Core.Path.{subst}
use harvester_equinix_addon.Services.Calls.{Error, Result, ok, Call, Reply, Services}
use harvester_equinix_addon.Services.Monad.{
  State, Flow, next, return, panic, blocked, Exit, returned, panicked, waiting, Func, Code, ◌>>=◌,
  pure, body, run, or_leave, leave_on, or_crash, invoke, finish, resume,
}

module _ {W : Type 0} (size : W → ℕ) where
  -- The flow goes on, the measure has grown by `k`, and the mutex is as it was.
  abbrev pub Raised : {R A : Type 0} → ℕ → State W → Flow R A × State W → Type 0
  Raised k s (next a, t) = (size t.world ≡ size s.world + k) × (t.locked ≡ s.locked)
  Raised k s (return r, t) = ⊥
  Raised k s (panic, t) = ⊥
  Raised k s (blocked, t) = ⊥

  abbrev pub RaisedOut : {R : Type 0} → ℕ → State W → Exit R × State W → Type 0
  RaisedOut k s (returned a, t) = (size t.world ≡ size s.world + k) × (t.locked ≡ s.locked)
  RaisedOut k s (panicked, t) = ⊥
  RaisedOut k s (waiting, t) = ⊥

  pub record Raises {R A : Type 0} (k : ℕ) (m : Code W R A) : Type 0 where
    pub raises : (s : State W) → Raised k s (m s)

  pub record RaisesFunc {R : Type 0} (k : ℕ) (f : Func W R) : Type 0 where
    pub raises : (s : State W) → RaisedOut k s (f s)

  -- The function returns `a` from `s`, and leaves the measure and the mutex.
  abbrev pub ReturnsCalmly : {A : Type 0} → Func W A → A → State W → Type 0
  ReturnsCalmly f a s =
      (t : State W) × (f s ≡ (returned a, t))
      × (size t.world ≡ size s.world)
      × (t.locked ≡ s.locked)

  module _ {R : Type 0} where
    pub pure-Raises : {A : Type 0} (a : A) → Raises 0 (pure {R = R} a)
    unfolding pure
    pure-Raises a = record { raises = λ s. (omega arith, refl) }

    more :
        {B : Type 0} (k l : ℕ) (s t : State W) (r : Flow R B × State W)
        → (size t.world ≡ size s.world + k) × (t.locked ≡ s.locked)
        → Raised l t r
        → Raised (k + l) s r
    more k l s t (next b, u) h h' = (omega arith, h'.1 ∙ h.1)
    more k l s t (return r, u) h h' = h'
    more k l s t (panic, u) h h' = h'
    more k l s t (blocked, u) h h' = h'

    continued :
        {A B : Type 0} (k l : ℕ) (f : A → Code W R B) (r : Flow R A) (s t : State W)
        → Raised k s (r, t)
        → ((a : A) → Raises l (f a))
        → Raised (k + l) s (◌>>=◌ (λ (_ : State W). (r, t)) f s)
    unfolding ◌>>=◌
    continued k l f (next a) s t h g = more k l s t (f a t) h ((g a).raises t)
    continued k l f (return x) s t h g = h
    continued k l f panic s t h g = h
    continued k l f blocked s t h g = h

    pub bind-Raises :
        {A B : Type 0} (k l : ℕ) {m : Code W R A} {f : A → Code W R B}
        → Raises k m
        → ((a : A) → Raises l (f a))
        → Raises (k + l) (m >>= f)
    unfolding ◌>>=◌
    bind-Raises k l {m = m} {f = f} h g = record {
      raises = λ s. continued k l f (m s).0 s (m s).1 (h.raises s) g;
    }

    pub same-Raises : {A : Type 0} {k l : ℕ} {m : Code W R A} → k ≡ l → Raises k m → Raises l m
    same-Raises {m = m} e h = subst (λ j. Raises j m) e h

    -- A statement that leaves the measure, before others.
    pub then-Raises :
        {A B : Type 0} (k : ℕ) {m : Code W R A} {f : A → Code W R B}
        → Raises 0 m
        → ((a : A) → Raises k (f a))
        → Raises k (m >>= f)
    then-Raises k h g = same-Raises (omega arith) (bind-Raises 0 k h g)

    -- What a call replies is known for every state of the outside, or nothing is.
    pub invoke_then-Raises :
        {B : Type 0} (env : Services W) (j k : ℕ) (c : Call) (f : Reply c → Code W R B)
        → ((w : W) → size (env.perform c w).1 ≡ size w + j)
        → ((w : W) → Raises k (f (env.perform c w).0))
        → Raises (j + k) (invoke env c >>= f)
    unfolding ◌>>=◌ invoke
    invoke_then-Raises env j k c f h g = record {
      raises = λ s.
          let u : State W = record s { world = (env.perform c s.world).1; calls = c ∷ s.calls } in
          more j k s u _ (h s.world, refl) ((g s.world).raises u);
    }

    pub calm_then-Raises :
        {B : Type 0} (env : Services W) (k : ℕ) (c : Call) (f : Reply c → Code W R B)
        → ((w : W) → size (env.perform c w).1 ≡ size w)
        → ((w : W) → Raises k (f (env.perform c w).0))
        → Raises k (invoke env c >>= f)
    calm_then-Raises env k c f h g =
        same-Raises (omega arith) (invoke_then-Raises env 0 k c f (λ w. h w ∙ omega arith) g)

    pub or_leave_then-Raises :
        {A B : Type 0} (k : ℕ) (r : Result A) (g : Error → R) (f : A → Code W R B) {a : A}
        → r ≡ ok a
        → Raises k (f a)
        → Raises k (or_leave r g >>= f)
    unfolding ◌>>=◌ or_leave pure
    or_leave_then-Raises k r g f e h = record { raises = λ s. rw e (h.raises s) }

    pub leave_on-Raises :
        (o : Option Error) (g : Error → R) → o ≡ none → Raises 0 (leave_on {W = W} o g)
    unfolding leave_on pure
    leave_on-Raises o g e = record { raises = λ s. rw e (omega arith, refl) }

    pub or_crash-Raises :
        {A : Type 0} (o : Option A) {a : A} → o ≡ some a → Raises 0 (or_crash {W = W} {R = R} o)
    unfolding or_crash pure
    or_crash-Raises o e = record { raises = λ s. rw e (omega arith, refl) }

    pub run-Raises : {A : Type 0} {f : Func W A} {k : ℕ} → RaisesFunc k f → Raises k (run {R = R} f)
    unfolding run
    run-Raises {A} {f} {k} h = record { raises = λ s. resumed s (f s) (h.raises s) }
      where
        resumed :
            (s : State W) (r : Exit A × State W)
            → RaisedOut k s r
            → Raised {R = R} k s (resume r.0, r.1)
        resumed s (returned a, t) p = p
        resumed s (panicked, t) p = p
        resumed s (waiting, t) p = p

    pub body-Raises : {m : Code W R R} {k : ℕ} → Raises k m → RaisesFunc k (body m)
    unfolding body
    body-Raises {m} {k} h = record { raises = λ s. finished s (m s) (h.raises s) }
      where
        finished :
            (s : State W) (r : Flow R R × State W) → Raised k s r → RaisedOut k s (finish r.0, r.1)
        finished s (next a, t) p = p
        finished s (return a, t) p = absurd p
        finished s (panic, t) p = p
        finished s (blocked, t) p = p

    after_run :
        {A B : Type 0} (k : ℕ) (g : A → Code W R B) (a : A) (s t : State W) (x : Exit A × State W)
        → x ≡ (returned a, t)
        → Raised k s (g a t)
        → Raised k s (◌>>=◌ (λ (_ : State W). (resume x.0, x.1)) g s)
    after_run k g a s t x e h =
        subst (λ y. Raised k s (◌>>=◌ (λ (_ : State W). (resume y.0, y.1)) g s)) (sym e)
          (unfold ◌>>=◌ in h)

    -- A function that returns the same value from every state, before others.
    pub run_then-Raises :
        {A B : Type 0} (k : ℕ) {f : Func W A} (g : A → Code W R B) (a : A)
        → ((s : State W) → ReturnsCalmly f a s)
        → Raises k (g a)
        → Raises k (run f >>= g)
    unfolding ◌>>=◌ run
    run_then-Raises k {f = f} g a h p = record {
      raises = λ s.
          let (t, e, z, l) = h s in
          let q : Raised (0 + k) s (g a t) = more 0 k s t _ (z ∙ omega arith, l) (p.raises t) in
          after_run k g a s t (f s) e (subst (λ n. Raised n s (g a t)) (omega arith) q);
    }
