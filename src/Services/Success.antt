-- ===== src/Services/Success.antt =====
-- Code that makes known calls and goes on: what a block of statements does when no call fails.
use harvester_equinix_addon.Prelude.{
  ◌≡◌, Bool, true, false, if◌then◌else◌, refl, sym, ap, ◌∙◌, Option, none, some, List, [], ◌∷◌,
  ◌++◌, concat_map, All,
}
use harvester_equinix_addon.Services.Calls.{Error, Result, ok, Call, Reply, Services}
use harvester_equinix_addon.Services.Monad.{
  State, next, returned, finish, resume, body, run, or_leave, Func, Code, ◌>>=◌, pure, or_crash,
  for_each, invoke, leave_on,
}
use mathlib.Core.Path.{subst}
use mathlib.Core.List.{append-nil}

module _ {W : Type 0} (env : Services W) where
  -- The state after the calls, in order.
  abbrev pub perform_all : List Call → State W → State W
  perform_all [] s = s
  perform_all (c ∷ cs) s =
      perform_all cs (record s { world = (env.perform c s.world).1; calls = c ∷ s.calls })

  pub perform_all-append :
      (cs ds : List Call) (s : State W)
      → perform_all (cs ++ ds) s ≡ perform_all ds (perform_all cs s)
  perform_all-append [] ds s = refl
  perform_all-append (c ∷ cs) ds s = perform_all-append cs ds _

  -- Code that makes just these calls, from any state, and goes on with `a`.
  pub record Performs {R A : Type 0} (cs : List Call) (a : A) (m : Code W R A) : Type 0 where
    pub performs : (s : State W) → m s ≡ (next a, perform_all cs s)

  module _ {R : Type 0} where
    pub pure-Performs : {A : Type 0} (a : A) → Performs [] a (pure {R = R} a)
    unfolding pure
    pure-Performs a = record { performs = λ s. refl }

    bind-next :
        {A B : Type 0} (m : Code W R A) (f : A → Code W R B) (s : State W) {a : A} {t : State W}
        → m s ≡ (next a, t)
        → (◌>>=◌ m f) s ≡ f a t
    unfolding ◌>>=◌
    bind-next m f s h = ap (λ r. ◌>>=◌ (λ (_ : State W). r) f s) h

    pub bind-Performs :
        {A B : Type 0} {m : Code W R A} (f : A → Code W R B) {cs ds : List Call} {a : A} {b : B}
        → Performs cs a m
        → Performs ds b (f a)
        → Performs (cs ++ ds) b (m >>= f)
    bind-Performs {m = m} f {cs = cs} {ds = ds} {b = b} h k = record {
      performs = λ s.
          bind-next m f s (h.performs s)
          ∙ k.performs (perform_all cs s)
          ∙ ap (λ t. (next b, t)) (sym (perform_all-append cs ds s));
    }

    pub for_each-Performs :
        {A : Type 0} {f : A → Code W R (Unit {0})} (calls : A → List Call)
        → ((x : A) → Performs (calls x) tt (f x))
        → (xs : List A) → Performs (concat_map calls xs) tt (for_each xs f)
    unfolding for_each
    for_each-Performs calls h [] = pure-Performs tt
    for_each-Performs calls h (x ∷ xs) = bind-Performs _ (h x) (for_each-Performs calls h xs)

    -- The same, for the elements of the list alone.
    pub each-Performs :
        {A : Type 0} (f : A → Code W R (Unit {0})) (calls : A → List Call) (xs : List A)
        → All (λ x. Performs (calls x) tt (f x)) xs
        → Performs (concat_map calls xs) tt (for_each xs f)
    unfolding for_each
    each-Performs f calls [] h = pure-Performs tt
    each-Performs f calls (x ∷ xs) h = bind-Performs _ h.0 (each-Performs f calls xs h.1)

    pub or_crash-Performs :
        {A : Type 0} (o : Option A) {a : A} → o ≡ some a → Performs [] a (or_crash {R = R} o)
    unfolding or_crash
    or_crash-Performs o h = record { performs = λ s. rw h (unfold pure in refl) }

    pub invoke_then-Performs :
        {B : Type 0} (c : Call) (f : Reply c → Code W R B) {cs : List Call} {b : B}
        → ((w : W) → Performs cs b (f (env.perform c w).0))
        → Performs (c ∷ cs) b (invoke env c >>= f)
    unfolding ◌>>=◌ invoke
    invoke_then-Performs c f h = record { performs = λ s. (h s.world).performs _ }

    -- A call whose reply is known, at the end of a block.
    pub invoke-Performs :
        (c : Call) {r : Reply c}
        → ((w : W) → (env.perform c w).0 ≡ r)
        → Performs (c ∷ []) r (invoke {R = R} env c)
    unfolding invoke
    invoke-Performs c h = record {
      performs = λ s.
          ap (λ r. (next r, record s { world = (env.perform c s.world).1; calls = c ∷ s.calls }))
            (h s.world);
    }

    pub leave_on-Performs :
        (o : Option Error) (k : Error → R) → o ≡ none → Performs [] tt (leave_on {W = W} o k)
    unfolding leave_on pure
    leave_on-Performs o k h = record { performs = λ s. rw h refl }

    pub if_cases-Performs :
        {A : Type 0} (b : Bool) {m k : Code W R A} {cs ds : List Call} {a : A}
        → Performs cs a m
        → Performs ds a k
        → Performs (if b then cs else ds) a (if b then m else k)
    if_cases-Performs true h k = h
    if_cases-Performs false h k = k

    -- A loop at the end of a block.
    pub for_each_last-Performs :
        {A B : Type 0} {f : A → Code W R (Unit {0})} (calls : A → List Call)
        → ((x : A) → Performs (calls x) tt (f x))
        → (xs : List A) (b : B) → Performs (concat_map calls xs) b (for_each xs f >>= λ _. pure b)
    for_each_last-Performs {f = f} calls h xs b =
        let both = bind-Performs (λ _. pure b) (for_each-Performs calls h xs) (pure-Performs b) in
        subst (λ cs. Performs {R = R} cs b (for_each xs f >>= λ _. pure b))
          (append-nil (concat_map calls xs)) both

    pub each_last-Performs :
        {A B : Type 0} (f : A → Code W R (Unit {0})) (calls : A → List Call) (xs : List A) (b : B)
        → All (λ x. Performs (calls x) tt (f x)) xs
        → Performs (concat_map calls xs) b (for_each xs f >>= λ _. pure b)
    each_last-Performs f calls xs b h =
        let both = bind-Performs (λ _. pure b) (each-Performs f calls xs h) (pure-Performs b) in
        subst (λ cs. Performs {R = R} cs b (for_each xs f >>= λ _. pure b))
          (append-nil (concat_map calls xs)) both

    pub body-Performs :
        {m : Code W R R} {cs : List Call} {a : R}
        → Performs cs a m
        → (s : State W) → body m s ≡ (returned a, perform_all cs s)
    unfolding body
    body-Performs h s = ap (λ r. (finish r.0, r.1)) (h.performs s)

    pub or_leave-Performs :
        {A : Type 0} (r : Result A) (k : Error → R) {a : A}
        → r ≡ ok a
        → Performs [] a (or_leave r k)
    unfolding or_leave pure
    or_leave-Performs r k h = record { performs = λ s. rw h refl }

    pub run-Performs :
        {A : Type 0} (f : Func W A) {cs : List Call} {a : A}
        → ((s : State W) → f s ≡ (returned a, perform_all cs s))
        → Performs cs a (run {R = R} f)
    unfolding run
    run-Performs f h = record { performs = λ s. ap (λ r. (resume r.0, r.1)) (h s) }
