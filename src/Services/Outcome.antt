-- ===== src/Services/Outcome.antt =====
-- What a piece of code hands on, or returns early: rules that follow the code. A panic and a wait
-- satisfy every such statement, so that theorems on success exclude them where they matter.
use harvester_equinix_addon.Prelude.{
  ◌≡◌, refl, Bool, true, false, Option, none, some, if◌then◌else◌, List, [], ◌∷◌,
}
use harvester_equinix_addon.Services.Calls.{Error, Result, ok, err, Call, Reply, Services}
use harvester_equinix_addon.Services.Monad.{
  State, Flow, next, return, panic, blocked, Exit, returned, panicked, waiting, Code, Func, ◌>>=◌,
  pure, leave, crash, body, run, or_leave, leave_on, invoke, resume, finish,
}
use harvester_equinix_addon.Services.Trace.{Makes, Makes-trans, Only}

abbrev pub FlowHolds : {R A : Type 0} → (R → Type 0) → (A → Type 0) → Flow R A → Type 0
FlowHolds Q P (next a) = P a
FlowHolds Q P (return r) = Q r
FlowHolds Q P panic = Unit
FlowHolds Q P blocked = Unit

abbrev pub ExitHolds : {R : Type 0} → (R → Type 0) → Exit R → Type 0
ExitHolds Q (returned r) = Q r
ExitHolds Q panicked = Unit
ExitHolds Q waiting = Unit

-- `Q` holds of what the code returns early, `P` of what it hands on.
pub record Yields {W R A : Type 0} (Q : R → Type 0) (P : A → Type 0) (m : Code W R A) : Type 0 where
  pub yields : (s : State W) → FlowHolds Q P (m s).0

pub record YieldsFunc {W R : Type 0} (Q : R → Type 0) (f : Func W R) : Type 0 where
  pub yields : (s : State W) → ExitHolds Q (f s).0

abbrev pub Any : {A : Type 0} → A → Type 0
Any a = Unit

module _ {W R : Type 0} {Q : R → Type 0} where
  module _ {A : Type 0} where
    pub pure-Yields : {P : A → Type 0} (a : A) → P a → Yields Q P (pure {W = W} a)
    unfolding pure
    pure-Yields a p = record { yields = λ s. p }

    pub leave-Yields : {P : A → Type 0} (r : R) → Q r → Yields Q P (leave {W = W} r)
    unfolding leave
    leave-Yields r q = record { yields = λ s. q }

    pub crash-Yields : {P : A → Type 0} → Yields Q P (crash {W = W})
    unfolding crash
    crash-Yields = record { yields = λ s. tt }

    pub or_leave-Yields :
        (r : Result A) (k : Error → R)
        → ((e : Error) → Q (k e))
        → Yields Q (Any {A = A}) (or_leave {W = W} r k)
    unfolding or_leave
    or_leave-Yields (ok a) k q = pure-Yields a tt
    or_leave-Yields (err e) k q = leave-Yields (k e) (q e)

    pub if-Yields :
        {P : A → Type 0} (b : Bool) {m k : Code W R A}
        → Yields Q P m
        → Yields Q P k
        → Yields Q P (if b then m else k)
    if-Yields true h h' = h
    if-Yields false h h' = h'

    -- The branches of a test, each with what the test has shown.
    pub if_cases-Yields :
        {P : A → Type 0} (b : Bool) {m k : Code W R A}
        → (b ≡ true → Yields Q P m)
        → (b ≡ false → Yields Q P k)
        → Yields Q P (if b then m else k)
    if_cases-Yields true h h' = h refl
    if_cases-Yields false h h' = h' refl

    pub option-Yields :
        {P : A → Type 0} {B : Type 0} (o : Option B) {m : B → Code W R A} {k : Code W R A}
        → ((b : B) → Yields Q P (m b))
        → Yields Q P k
        → Yields Q P (elim o [ none ↦ k | some b ↦ m b ])
    option-Yields none h h' = h'
    option-Yields (some b) h h' = h b

    pub list-Yields :
        {P : A → Type 0} {B : Type 0} (xs : List B) {k : Code W R A} {m : B → List B → Code W R A}
        → Yields Q P k
        → ((b : B) (bs : List B) → Yields Q P (m b bs))
        → Yields Q P (elim xs [ [] ↦ k | b ∷ bs ↦ m b bs ])
    list-Yields [] h h' = h
    list-Yields (b ∷ bs) h h' = h' b bs

  -- The last test of an error in a block.
  pub leave_on_last-Yields :
      (o : Option Error) (k : Error → R)
      → ((e : Error) → Q (k e))
      → Yields Q Any (leave_on {W = W} o k)
  unfolding leave_on
  leave_on_last-Yields none k q = pure-Yields tt tt
  leave_on_last-Yields (some e) k q = leave-Yields (k e) (q e)

  pub leave_on-Yields :
      (o : Option Error) (k : Error → R)
      → ((e : Error) → Q (k e))
      → Yields Q (λ _. o ≡ none) (leave_on {W = W} o k)
  unfolding leave_on
  leave_on-Yields none k q = pure-Yields tt refl
  leave_on-Yields (some e) k q = leave-Yields (k e) (q e)

  then-Yields :
      {A B : Type 0} {P : A → Type 0} {P' : B → Type 0} (f : A → Code W R B) (r : Flow R A)
      (s : State W)
      → FlowHolds Q P r
      → ((a : A) → P a → Yields Q P' (f a))
      → FlowHolds Q P' (◌>>=◌ (λ (_ : State W). (r, s)) f s).0
  unfolding ◌>>=◌
  then-Yields f (next a) s h k = (k a h).yields s
  then-Yields f (return x) s h k = h
  then-Yields f panic s h k = tt
  then-Yields f blocked s h k = tt

  pub bind-Yields :
      {A B : Type 0} (P : A → Type 0) {P' : B → Type 0} {m : Code W R A} {f : A → Code W R B}
      → Yields Q P m
      → ((a : A) → P a → Yields Q P' (f a))
      → Yields Q P' (m >>= f)
  unfolding ◌>>=◌
  bind-Yields P {m = m} {f = f} h k = record {
    yields = λ s. then-Yields {P = P} f (m s).0 (m s).1 (h.yields s) k;
  }

  pub invoke-Yields : (env : Services W) (c : Call) → Yields Q (Any {A = Reply c}) (invoke env c)
  unfolding invoke
  invoke-Yields env c = record { yields = λ s. tt }

  pub run-Yields :
      {A : Type 0} {P : A → Type 0} {f : Func W A} → YieldsFunc P f → Yields Q P (run f)
  unfolding run
  run-Yields {A} {P} {f} h = record { yields = λ s. go (f s).0 (h.yields s) }
    where
      go : (x : Exit A) → ExitHolds P x → FlowHolds Q P (resume x)
      go (returned a) p = p
      go panicked p = tt
      go waiting p = tt

  pub body-Yields : {m : Code W R R} → Yields Q Q m → YieldsFunc Q (body m)
  unfolding body
  body-Yields {m} h = record { yields = λ s. go (m s).0 (h.yields s) }
    where
      go : (x : Flow R R) → FlowHolds Q Q x → ExitHolds Q (finish x)
      go (next a) p = p
      go (return a) p = p
      go panic p = tt
      go blocked p = tt

-- The rules for the statements that a block begins with.
module _ {W R B : Type 0} {Q : R → Type 0} {P' : B → Type 0} where
  pub invoke_then-Yields :
      (env : Services W) (c : Call) {f : Reply c → Code W R B}
      → ((r : Reply c) → Yields Q P' (f r))
      → Yields Q P' (invoke env c >>= f)
  unfolding ◌>>=◌ invoke
  invoke_then-Yields env c k = record { yields = λ s. (k _).yields _ }

  pub or_leave_then-Yields :
      {A : Type 0} (r : Result A) (g : Error → R) {f : A → Code W R B}
      → ((e : Error) → Q (g e))
      → ((a : A) → Yields Q P' (f a))
      → Yields Q P' (or_leave r g >>= f)
  or_leave_then-Yields r g q k = bind-Yields Any (or_leave-Yields r g q) (λ a _. k a)

  pub leave_on_then-Yields :
      (o : Option Error) (g : Error → R) (f : Unit {0} → Code W R B)
      → ((e : Error) → Q (g e))
      → (o ≡ none → Yields Q P' (f tt))
      → Yields Q P' (leave_on o g >>= f)
  leave_on_then-Yields o g f q k = bind-Yields (λ _. o ≡ none) (leave_on-Yields o g q) (λ _ h. k h)

  pub run_then-Yields :
      {A : Type 0} {P : A → Type 0} {g : Func W A} {f : A → Code W R B}
      → YieldsFunc P g
      → ((a : A) → P a → Yields Q P' (f a))
      → Yields Q P' (run g >>= f)
  run_then-Yields {P = P} h k = bind-Yields P (run-Yields h) k

-- Calls made after a piece of code whose result is known to satisfy `P'`.
module _ {W R : Type 0} {P : Call → Type 0} where
  after-Yields :
      {A B : Type 0} {P' : A → Type 0} (f : A → Code W R B) (r : Flow R A) (s t : State W)
      → Makes P s t
      → FlowHolds (Any {A = R}) P' r
      → ((a : A) → P' a → Only P (f a))
      → Makes P s (◌>>=◌ (λ (_ : State W). (r, t)) f s).1
  unfolding ◌>>=◌
  after-Yields f (next a) s t h y k = Makes-trans h ((k a y).makes t)
  after-Yields f (return x) s t h y k = h
  after-Yields f panic s t h y k = h
  after-Yields f blocked s t h y k = h

  pub bind-Yields-Only :
      {A B : Type 0} (P' : A → Type 0) {m : Code W R A} {f : A → Code W R B}
      → Only P m
      → Yields (Any {A = R}) P' m
      → ((a : A) → P' a → Only P (f a))
      → Only P (m >>= f)
  unfolding ◌>>=◌
  bind-Yields-Only P' {m = m} {f = f} h y k = record {
    makes = λ s. after-Yields {P' = P'} f (m s).0 s (m s).1 (h.makes s) (y.yields s) k;
  }

Any-FlowHolds : {R A : Type 0} (x : Flow R A) → FlowHolds (Any {A = R}) (Any {A = A}) x
Any-FlowHolds (next a) = tt
Any-FlowHolds (return r) = tt
Any-FlowHolds panic = tt
Any-FlowHolds blocked = tt

Any-ExitHolds : {R : Type 0} (x : Exit R) → ExitHolds (Any {A = R}) x
Any-ExitHolds (returned r) = tt
Any-ExitHolds panicked = tt
Any-ExitHolds waiting = tt

module _ {W R : Type 0} where
  -- Nothing is said of the result.
  pub Any-Yields : {A : Type 0} (m : Code W R A) → Yields (Any {A = R}) (Any {A = A}) m
  Any-Yields m = record { yields = λ s. Any-FlowHolds (m s).0 }

  pub Any-YieldsFunc : (f : Func W R) → YieldsFunc (Any {A = R}) f
  Any-YieldsFunc f = record { yields = λ s. Any-ExitHolds (f s).0 }
