-- ===== src/Services/Trace.antt =====
-- What a piece of code does between two states: the calls that it adds, newest first, and rules that
-- follow the code to show that all of them satisfy a predicate.
use harvester_equinix_addon.Prelude.{
  ◌≡◌, refl, sym, ap, ◌∙◌, Bool, true, false, Option, none, some, List, [], ◌∷◌, ◌++◌, All,
  All-append, if◌then◌else◌,
}
use harvester_equinix_addon.Services.Calls.{Error, Result, ok, err, Call, Services}
use harvester_equinix_addon.Services.Monad.{
  State, Flow, next, return, panic, blocked, Code, Func, ◌>>=◌, pure, leave, crash, body, run,
  or_leave, leave_on, or_crash, for_each, invoke,
}
use mathlib.Core.List.{append_assoc}

-- The state `s` has become `t` by calls that all satisfy `P`, and the mutex is as it was.
pub record Makes {W : Type 0} (P : Call → Type 0) (s t : State W) : Type 0 where
  pub new : List Call
  pub grown : t.calls ≡ new ++ s.calls
  pub each : All P new
  pub same_lock : t.locked ≡ s.locked

-- Code that makes only calls that satisfy `P`, whatever the state.
pub record Only {W R A : Type 0} (P : Call → Type 0) (m : Code W R A) : Type 0 where
  pub makes : (s : State W) → Makes P s (m s).1

pub record OnlyFunc {W R : Type 0} (P : Call → Type 0) (f : Func W R) : Type 0 where
  pub makes : (s : State W) → Makes P s (f s).1

module _ {W : Type 0} {P : Call → Type 0} where
  pub Makes-refl : (s : State W) → Makes P s s
  Makes-refl s = record { new = []; grown = refl; each = tt; same_lock = refl }

  pub Makes-trans : {s t u : State W} → Makes P s t → Makes P t u → Makes P s u
  Makes-trans {s} h k = record {
    new = k.new ++ h.new;
    grown = k.grown ∙ ap (λ c. k.new ++ c) h.grown ∙ sym (append_assoc k.new h.new s.calls);
    each = All-append P k.new h.new k.each h.each;
    same_lock = k.same_lock ∙ h.same_lock;
  }

  module _ {R A : Type 0} where
    pub pure-Only : (a : A) → Only {R = R} P (pure {W = W} a)
    unfolding pure
    pure-Only a = record { makes = Makes-refl }

    pub leave-Only : (r : R) → Only {A = A} P (leave {W = W} r)
    unfolding leave
    leave-Only r = record { makes = Makes-refl }

    pub crash-Only : Only P (crash {W = W} {R = R} {A = A})
    unfolding crash
    crash-Only = record { makes = Makes-refl }

    pub or_crash-Only : (o : Option A) → Only P (or_crash {W = W} {R = R} o)
    unfolding or_crash
    or_crash-Only none = crash-Only
    or_crash-Only (some a) = pure-Only a

    pub or_leave-Only : (r : Result A) (k : Error → R) → Only P (or_leave {W = W} r k)
    unfolding or_leave
    or_leave-Only (ok a) k = pure-Only a
    or_leave-Only (err e) k = leave-Only (k e)

    pub if-Only : (b : Bool) {m k : Code W R A} → Only P m → Only P k → Only P (if b then m else k)
    if-Only true h h' = h
    if-Only false h h' = h'

    -- The branches of a test, each with what the test has shown.
    pub if_cases-Only :
        (b : Bool) {m k : Code W R A}
        → (b ≡ true → Only P m)
        → (b ≡ false → Only P k)
        → Only P (if b then m else k)
    if_cases-Only true h h' = h refl
    if_cases-Only false h h' = h' refl

    pub option-Only :
        {B : Type 0} (o : Option B) {m : B → Code W R A} {k : Code W R A}
        → ((b : B) → Only P (m b))
        → Only P k
        → Only P (elim o [ none ↦ k | some b ↦ m b ])
    option-Only none h h' = h'
    option-Only (some b) h h' = h b

    -- The same, with what the match has shown.
    pub option_cases-Only :
        {B : Type 0} (o : Option B) {m : B → Code W R A} {k : Code W R A}
        → ((b : B) → o ≡ some b → Only P (m b))
        → (o ≡ none → Only P k)
        → Only P (elim o [ none ↦ k | some b ↦ m b ])
    option_cases-Only none h h' = h' refl
    option_cases-Only (some b) h h' = h b refl

    pub list-Only :
        {B : Type 0} (xs : List B) {k : Code W R A} {m : B → List B → Code W R A}
        → Only P k
        → ((b : B) (bs : List B) → Only P (m b bs))
        → Only P (elim xs [ [] ↦ k | b ∷ bs ↦ m b bs ])
    list-Only [] h h' = h
    list-Only (b ∷ bs) h h' = h' b bs

  pub leave_on-Only :
      {R : Type 0} (o : Option Error) (k : Error → R) → Only P (leave_on {W = W} o k)
  unfolding leave_on
  leave_on-Only none k = pure-Only tt
  leave_on-Only (some e) k = leave-Only (k e)

  after :
      {R A B : Type 0} (f : A → Code W R B) (r : Flow R A) (s t : State W)
      → Makes P s t
      → ((a : A) → Only P (f a))
      → Makes P s (◌>>=◌ (λ (_ : State W). (r, t)) f s).1
  unfolding ◌>>=◌
  after f (next a) s t h k = Makes-trans h ((k a).makes t)
  after f (return x) s t h k = h
  after f panic s t h k = h
  after f blocked s t h k = h

  pub bind-Only :
      {R A B : Type 0} {m : Code W R A} {f : A → Code W R B}
      → Only P m
      → ((a : A) → Only P (f a))
      → Only P (m >>= f)
  unfolding ◌>>=◌
  bind-Only {m = m} {f = f} h k = record { makes = λ s. after f (m s).0 s (m s).1 (h.makes s) k }

  pub invoke-Only : {R : Type 0} (env : Services W) (c : Call) → P c → Only P (invoke {R = R} env c)
  unfolding invoke
  invoke-Only env c p = record {
    makes = λ s. record { new = c ∷ []; grown = refl; each = (p, tt); same_lock = refl };
  }

  pub body-Only : {R : Type 0} {m : Code W R R} → Only P m → OnlyFunc P (body m)
  unfolding body
  body-Only h = record { makes = h.makes }

  -- After a test of an error the error is known to be nil.
  pub leave_on_then-Only :
      {R B : Type 0} (o : Option Error) (g : Error → R) (f : Unit {0} → Code W R B)
      → (o ≡ none → Only P (f tt))
      → Only P (leave_on o g >>= f)
  unfolding ◌>>=◌ leave_on
  leave_on_then-Only none g f k = record { makes = λ s. (k refl).makes s }
  leave_on_then-Only (some e) g f k = record { makes = Makes-refl }

  pub run-Only : {R A : Type 0} {f : Func W A} → OnlyFunc P f → Only P (run {R = R} f)
  unfolding run
  run-Only h = record { makes = h.makes }

  pub for_each-Only :
      {R A : Type 0} (f : A → Code W R (Unit {0})) (xs : List A)
      → All (λ x. Only P (f x)) xs
      → Only P (for_each xs f)
  unfolding for_each
  for_each-Only f [] h = pure-Only tt
  for_each-Only f (x ∷ xs) h = bind-Only h.0 (λ _. for_each-Only f xs h.1)

-- What satisfies a predicate satisfies a weaker one.
pub All-mono :
    {P Q : Call → Type 0} → ((c : Call) → P c → Q c) → (cs : List Call) → All P cs → All Q cs
All-mono h [] k = tt
All-mono h (c ∷ cs) k = (h c k.0, All-mono h cs k.1)

pub Makes-mono :
    {W : Type 0} {P Q : Call → Type 0}
    → ((c : Call) → P c → Q c)
    → {s t : State W} → Makes P s t
    → Makes Q s t
Makes-mono h k = record {
  new = k.new;
  grown = k.grown;
  each = All-mono h k.new k.each;
  same_lock = k.same_lock;
}

pub OnlyFunc-mono :
    {W R : Type 0} {P Q : Call → Type 0} {f : Func W R}
    → ((c : Call) → P c → Q c)
    → OnlyFunc P f
    → OnlyFunc Q f
OnlyFunc-mono h k = record { makes = λ s. Makes-mono h (k.makes s) }

-- A choice between two functions, each with what the test has shown.
pub if_cases-OnlyFunc :
    {W R : Type 0} {P : Call → Type 0} (b : Bool) {f g : Func W R}
    → (b ≡ true → OnlyFunc P f)
    → (b ≡ false → OnlyFunc P g)
    → OnlyFunc P (if b then f else g)
if_cases-OnlyFunc true h k = h refl
if_cases-OnlyFunc false h k = k refl
