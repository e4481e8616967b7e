-- ===== src/Services/Monad.antt =====
-- Go functions as explicit state passing: the state of the outside, the calls made so far (the newest
-- first), and the mutex `instanceLock`. A body goes on, returns early, panics, or waits forever.
use harvester_equinix_addon.Prelude.{Bool, true, false, Option, none, some, List, [], ◌∷◌}
use harvester_equinix_addon.Services.Calls.{Error, Result, ok, err, Call, Reply, Services}

pub record State (W : Type 0) : Type 0 where
  pub world : W
  pub calls : List Call
  pub locked : Bool

pub data Flow (R A : Type 0) : Type 0 where
  next : A → Flow R A
  return : R → Flow R A
  panic : Flow R A
  blocked : Flow R A

-- What a finished call of a Go function has come to.
pub data Exit (R : Type 0) : Type 0 where
  returned : R → Exit R
  panicked : Exit R
  waiting : Exit R

-- A statement of a function that returns an `R`, and a whole function.
abbrev pub Code : Type 0 → Type 0 → Type 0 → Type 0
Code W R A = State W → Flow R A × State W

abbrev pub Func : Type 0 → Type 0 → Type 0
Func W R = State W → Exit R × State W

infixl 5 ◌>>=◌ ◌>>◌
unfoldable pub ◌>>=◌ : {W R A B : Type 0} → Code W R A → (A → Code W R B) → Code W R B
◌>>=◌ m f s =
    let (r, s') = m s in
    elim r [
      | next a ↦ f a s'
      | return x ↦ (return x, s')
      | panic ↦ (panic, s')
      | blocked ↦ (blocked, s')
    ]

abbrev pub ◌>>◌ : {W R B : Type 0} → Code W R (Unit {0}) → Code W R B → Code W R B
m >> k = m >>= λ _. k

unfoldable pub pure : {W R A : Type 0} → A → Code W R A
pure a s = (next a, s)

unfoldable pub leave : {W R A : Type 0} → R → Code W R A
leave r s = (return r, s)

unfoldable pub crash : {W R A : Type 0} → Code W R A
crash s = (panic, s)

-- The body of a function ends in its last `return`.
abbrev pub finish : {R : Type 0} → Flow R R → Exit R
finish (next r) = returned r
finish (return r) = returned r
finish panic = panicked
finish blocked = waiting

unfoldable pub body : {W R : Type 0} → Code W R R → Func W R
body m s = let (r, s') = m s in (finish r, s')

abbrev pub resume : {R A : Type 0} → Exit A → Flow R A
resume (returned a) = next a
resume panicked = panic
resume waiting = blocked

-- A call of another function of the program.
unfoldable pub run : {W R A : Type 0} → Func W A → Code W R A
run f s = let (r, s') = f s in (resume r, s')

-- `if err != nil { return … }`, on a (value, error) pair and on an error.
unfoldable pub or_leave : {W R A : Type 0} → Result A → (Error → R) → Code W R A
unfolding pure leave
or_leave (ok a) k = pure a
or_leave (err e) k = leave (k e)

unfoldable pub leave_on : {W R : Type 0} → Option Error → (Error → R) → Code W R (Unit {0})
unfolding pure leave
leave_on none k = pure tt
leave_on (some e) k = leave (k e)

-- A nil pointer that is read through, or an index out of range.
unfoldable pub or_crash : {W R A : Type 0} → Option A → Code W R A
unfolding pure crash
or_crash none = crash
or_crash (some a) = pure a

-- `for _, x := range xs { … }`.
unfoldable pub for_each :
    {W R A : Type 0} → List A → (A → Code W R (Unit {0})) → Code W R (Unit {0})
for_each [] f = pure tt
for_each (x ∷ xs) f = f x >> for_each xs f

unfoldable pub invoke : {W R : Type 0} → Services W → (c : Call) → Code W R (Reply c)
invoke env c s =
    let (r, w) = env.perform c s.world in (next r, record s { world = w; calls = c ∷ s.calls })

-- `instanceLock.Lock()` and `instanceLock.Unlock()`.
unfoldable pub lock : {W R : Type 0} → Code W R (Unit {0})
lock s = elim s.locked [ true ↦ (blocked, s) | false ↦ (next tt, record s { locked = true }) ]

unfoldable pub unlock : {W R : Type 0} → Code W R (Unit {0})
unlock s = (next tt, record s { locked = false })

-- To unfold this is to unfold the statements of Go: a proof that runs code names it.
unfoldable pub statements : Unit {0}
unfolding ◌>>=◌ pure leave crash body run or_leave leave_on or_crash invoke lock unlock
statements = tt
