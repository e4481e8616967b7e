-- ===== src/PoolController/Remove/Rounds.antt =====
-- pkg/controllers/instancepool/instancepool.go, `removeInstances`: which instances are deleted, and
-- what is left in the status.
use harvester_equinix_addon.Prelude.{
  ℕ, zero, suc, ◌<◌, ◌≡◌, refl, sym, ap, ◌∙◌, ◌≢◌, Option, none, some, List, [], ◌∷◌, ◌++◌, map,
  arith, length, length-append, Option-cases, inl, inr,
}
use mathlib.Core.List.{append_assoc, append-nil}
use harvester_equinix_addon.Api.{Instance, InstancePool}
use harvester_equinix_addon.Services.{
  Services, Error, Call, State, Flow, next, return, panic, statements,
}
use harvester_equinix_addon.PoolController.Remove.{
  last_item, drop_last, one_removed, many_removed, remove_rounds,
}

abbrev pub deletion : Instance → Call
deletion i = Call.instance_delete i.meta.name

pub last_split {ℓ} :
    {A : Type ℓ} (xs : List A) (x : A) → last_item xs ≡ some x → xs ≡ drop_last xs ++ x ∷ []
unfolding last_item drop_last
last_split [] x h = cc
last_split (a ∷ []) x h = cc
last_split (a ∷ b ∷ xs) x h = ap (λ l. a ∷ l) (last_split (b ∷ xs) x h)

last_none {ℓ} : {A : Type ℓ} (xs : List A) → last_item xs ≡ none → xs ≡ []
unfolding last_item
last_none [] h = refl
last_none (a ∷ []) h = cc
last_none (a ∷ b ∷ xs) h = cc (last_none (b ∷ xs) h)

-- What `n` rounds over `items` come to: the last `n` items are deleted, the last one first, or an
-- error stops the rounds at the item whose deletion failed, or the items run out.
abbrev pub Rounds :
    {W : Type 0}
    → ℕ
    → InstancePool
    → List Instance
    → State W
    → Flow (InstancePool × Option Error) InstancePool × State W
    → Type 0
Rounds n ip items s (next ip', t) =
    (kept : List Instance) × (gone : List Instance) × (items ≡ kept ++ gone)
    × (length gone ≡ n)
    × (ip' ≡ many_removed n ip)
    × (t.calls ≡ map deletion gone ++ s.calls)
Rounds n ip items s (return (ip', e), t) =
    (k : ℕ) × (kept : List Instance) × (gone : List Instance) × (k < n)
    × (items ≡ kept ++ gone)
    × (length gone ≡ suc k)
    × (ip' ≡ many_removed k ip)
    × (e ≢ none)
    × (t.calls ≡ map deletion gone ++ s.calls)
Rounds n ip items s (panic, t) = (length items < n) × (t.calls ≡ map deletion items ++ s.calls)
Rounds n ip items s (Flow.blocked, t) = ⊥

calls-snoc :
    (gone : List Instance) (x : Instance) (calls : List Call)
    → map deletion gone ++ deletion x ∷ calls ≡ map deletion (gone ++ x ∷ []) ++ calls
calls-snoc [] x calls = refl
calls-snoc (y ∷ gone) x calls = ap (λ l. deletion y ∷ l) (calls-snoc gone x calls)

length-snoc : (gone : List Instance) (x : Instance) → length (gone ++ x ∷ []) ≡ suc (length gone)
length-snoc gone x = omega (arith, length-append gone (x ∷ []))

items-snoc :
    (items kept gone : List Instance) (x : Instance)
    → last_item items ≡ some x
    → drop_last items ≡ kept ++ gone
    → items ≡ kept ++ (gone ++ x ∷ [])
items-snoc items kept gone x h e =
    last_split items x h ∙ ap (λ l. l ++ x ∷ []) e ∙ append_assoc kept gone (x ∷ [])

pub length-drop_last :
    (items : List Instance) (x : Instance)
    → last_item items ≡ some x
    → length items ≡ suc (length (drop_last items))
length-drop_last items x h = ap length (last_split items x h) ∙ length-snoc (drop_last items) x

module _ {W : Type 0} (env : Services W) where
  -- The state after the call that deletes an instance.
  abbrev pub deleted : Instance → State W → State W
  deleted x s = record s {
    world = (env.perform (deletion x) s.world).1;
    calls = deletion x ∷ s.calls;
  }

  module _ (n : ℕ) (ip : InstancePool) (items : List Instance) (s : State W) where
    step_empty : last_item items ≡ none → remove_rounds env (suc n) ip items s ≡ (panic, s)
    unfolding remove_rounds statements
    step_empty h = ground arith

    step_failed :
        (x : Instance) (e : Error)
        → last_item items ≡ some x
        → (env.perform (deletion x) s.world).0 ≡ some e
        → remove_rounds env (suc n) ip items s ≡ (return (ip, some e), deleted x s)
    unfolding remove_rounds statements
    step_failed x e h k = ground arith

    pub step_deleted :
        (x : Instance)
        → last_item items ≡ some x
        → (env.perform (deletion x) s.world).0 ≡ none
        → remove_rounds env (suc n) ip items s
          ≡ remove_rounds env n (one_removed ip) (drop_last items) (deleted x s)
    unfolding remove_rounds statements
    step_deleted x h k = ground arith

  -- A round that deletes the last item, before rounds that come to `r`.
  one_more :
      (n : ℕ) (ip : InstancePool) (items : List Instance) (s : State W) (x : Instance)
      (r : Flow (InstancePool × Option Error) InstancePool × State W)
      → last_item items ≡ some x
      → Rounds n (one_removed ip) (drop_last items) (deleted x s) r
      → Rounds (suc n) ip items s r
  one_more n ip items s x (next ip', t) h (kept, gone, e, l, p, c) = (
    kept,
    gone ++ x ∷ [],
    items-snoc items kept gone x h e,
    length-snoc gone x ∙ ap suc l,
    p,
    c ∙ calls-snoc gone x s.calls,
  )
  one_more n ip items s x (return (ip', e'), t) h (k, kept, gone, b, e, l, p, ne, c) = (
    suc k,
    kept,
    gone ++ x ∷ [],
    omega arith,
    items-snoc items kept gone x h e,
    length-snoc gone x ∙ ap suc l,
    p,
    ne,
    c ∙ calls-snoc gone x s.calls,
  )
  one_more n ip items s x (panic, t) h (l, c) = (
    omega (arith, length-drop_last items x h),
    c
        ∙ calls-snoc (drop_last items) x s.calls
        ∙ ap (λ l. map deletion l ++ s.calls) (sym (last_split items x h)),
  )
  one_more n ip items s x (Flow.blocked, t) h r = r

  pub remove_rounds-Rounds :
      (n : ℕ) (ip : InstancePool) (items : List Instance) (s : State W)
      → Rounds n ip items s (remove_rounds env n ip items s)
  remove_rounds-Rounds zero ip items s =
      unfold remove_rounds statements in (items, [], sym (append-nil items), refl, refl, refl)
  remove_rounds-Rounds (suc n) ip items s = elim (Option-cases (last_item items)) [
    | inl h ↦
        rw (step_empty n ip items s h)
          (omega (arith, ap length (last_none items h)), rw (last_none items h) refl)
    | inr (x, h) ↦ elim (Option-cases (env.perform (deletion x) s.world).0) [
      | inl k ↦ rw (step_deleted n ip items s x h k) (
          one_more n ip items s x _ h
            (remove_rounds-Rounds n (one_removed ip) (drop_last items) (deleted x s)))
      | inr (e, k) ↦ rw (step_failed n ip items s x e h k) (
        zero,
        drop_last items,
        x ∷ [],
        omega arith,
        last_split items x h,
        refl,
        refl,
        (λ z. cc),
        refl,
      )
    ]
  ]

  -- Deletions that all go well over too short a list run out of it.
  pub remove_rounds-panic :
      ((y : Instance) (v : W) → (env.perform (deletion y) v).0 ≡ none)
      → (n : ℕ) (ip : InstancePool) (items : List Instance) (s : State W) → length items < n
      → (remove_rounds env n ip items s).0 ≡ panic
  remove_rounds-panic fine zero ip items s h = elim h [ ]
  remove_rounds-panic fine (suc n) ip items s h = elim (Option-cases (last_item items)) [
    | inl e ↦ ap (λ r. r.0) (step_empty n ip items s e)
    | inr (x, e) ↦
        ap (λ r. r.0) (step_deleted n ip items s x e (fine x s.world))
        ∙ remove_rounds-panic fine n (one_removed ip) (drop_last items) (deleted x s)
            (omega (arith, length-drop_last items x e))
  ]
