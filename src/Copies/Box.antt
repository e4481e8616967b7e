-- ===== src/Copies/Box.antt =====
-- Deep copies behind an address: of a pointer, a slice or a map, each of which may be nil.
use harvester_equinix_addon.Prelude.{
  ℕ, ◌+◌, ◌≤◌, ◌<◌, ◌≡◌, ◌≢◌, refl, sym, ap, ◌∙◌, Option, none, some, List, [], ◌∷◌, ◌++◌, length,
  length-append, arith, inl, inr, Option-cases,
}
use mathlib.Core.Path.{subst}
use harvester_equinix_addon.Copies.Memory.{
  get, put, Agrees, Keeps, Keeps-refl, Keeps-trans, get-lt-length, get-put, append-Keeps, put-Keeps,
  put-Agrees,
}
use harvester_equinix_addon.Copies.Copier.{Copier, IsDeep, read_kept}
use harvester_equinix_addon.Copies.Rules.{seen, seen-eq_some}

abbrev pub bind : {A B : Type 0} → Option A → (A → Option B) → Option B
bind none f = none
bind (some a) f = f a

pub bind-eq_some :
    {A B : Type 0} (x : Option A) (f : A → Option B) {b : B}
    → bind x f ≡ some b
    → (a : A) × (x ≡ some a) × (f a ≡ some b)
bind-eq_some none f e = cc
bind-eq_some (some a) f e = (a, refl, e)

-- What a cell holds: `cell` puts an `E` into memory and `open_cell` takes it out. `blank` is what `new`
-- or `make` allocates before it is filled.
module _ {K E V : Type 0} (c : Copier K E V) (cell : E → K) (open_cell : K → Option E)
    (blank : E → E) where
  abbrev held : List K → ℕ → Option E
  held h a = bind (get h a) open_cell

  -- `*out = make(…, len(*in))` or `out := new(…)`, and then the copy into it.
  abbrev copy_into : E → List K → Option ℕ × List K
  copy_into e h =
      let (e', h1) = c.copy e (h ++ cell (blank e) ∷ []) in
      (some (length h), put (length h) (cell e') h1)

  -- `if in != nil { … }`. An address that holds no `E` does not occur in Go.
  abbrev copy_found : Option E → ℕ → List K → Option ℕ × List K
  copy_found none a h = (some a, h)
  copy_found (some e) a h = copy_into e h

  abbrev pub copy_box : Option ℕ → List K → Option ℕ × List K
  copy_box none h = (none, h)
  copy_box (some a) h = copy_found (held h a) a h

  abbrev read_box : List K → Option ℕ → Option (Option V)
  read_box h none = some none
  read_box h (some a) = bind (held h a) (λ e. seen some (c.read h e))

  abbrev WithinBox : (ℕ → Type 0) → List K → Option ℕ → Type 0
  WithinBox P h none = Unit
  WithinBox P h (some a) = P a × ((e : E) → held h a ≡ some e → c.Within P h e)

  abbrev pub box : Copier K (Option ℕ) (Option V)
  box = record { copy = copy_box; read = read_box; Within = WithinBox }

  -- An address that can be read holds something that can.
  read_box-some :
      (h : List K) (a : ℕ) {v : Option V}
      → read_box h (some a) ≡ some v
      → (e : E) × (u : V) × (held h a ≡ some e) × (c.read h e ≡ some u) × (some u ≡ v)
  read_box-some h a k =
      let (e, k1, k2) = bind-eq_some (held h a) (λ e. seen some (c.read h e)) k in
      let (u, k3, m) = seen-eq_some some (c.read h e) k2 in (e, u, k1, k3, m)

  some-read_box :
      (h : List K) (a : ℕ) (e : E) (u : V) (v : Option V)
      → held h a ≡ some e
      → c.read h e ≡ some u
      → some u ≡ v
      → read_box h (some a) ≡ some v
  some-read_box h a e u v k1 k2 m = rw (k1, k2) (ap some m)

  held-lt : (h : List K) (a : ℕ) {e : E} → held h a ≡ some e → a < length h
  held-lt h a k = let (j, k1, k2) = bind-eq_some (get h a) open_cell k in get-lt-length h a k1

  held-Agrees :
      {Q : ℕ → Type 0} (h g : List K) (a : ℕ) {e : E}
      → Agrees Q h g
      → Q a
      → held h a ≡ some e
      → held g a ≡ some e
  held-Agrees h g a s q k =
      let (j, k1, k2) = bind-eq_some (get h a) open_cell k in rw (s a j q k1) k2

  some_injective : {A : Type 0} {a b : A} → some a ≡ some b → a ≡ b
  some_injective e = cc

  module _ (d : IsDeep c) (opens : (e : E) → open_cell (cell e) ≡ some e) where
    into-Keeps : (e : E) (h : List K) → Keeps h (copy_into e h).1
    into-Keeps e h =
        let h0 = h ++ cell (blank e) ∷ [] in
        put-Keeps (length h) (cell (c.copy e h0).0)
          (Keeps-trans (append-Keeps h (cell (blank e))) (d.keeps e h0)) (omega arith)

    box-Keeps : (r : Option ℕ) (h : List K) → Keeps h (copy_box r h).1
    box-Keeps none h = Keeps-refl h
    box-Keeps (some a) h = elim (Option-cases (held h a)) [
      | inl k ↦ rw k (Keeps-refl h)
      | inr (e, k) ↦ rw k (into-Keeps e h)
    ]

    -- The copy of `e` that `copy_into` makes, behind a new address.
    module _ (e : E) (h : List K) {u : V} (k : c.read h e ≡ some u) where
      abbrev h0 : List K
      h0 = h ++ cell (blank e) ∷ []

      abbrev e1 : E
      e1 = (c.copy e h0).0

      abbrev h1 : List K
      h1 = (c.copy e h0).1

      abbrev h2 : List K
      h2 = put (length h) (cell e1) h1

      length-h0 : length h0 ≡ length h + 1
      length-h0 = length-append h (cell (blank e) ∷ [])

      read_h1 : c.read h1 e1 ≡ some u
      read_h1 = d.same e h0 (read_kept c d e h h0 (append-Keeps h (cell (blank e))) k)

      fresh_h1 : c.Within (λ a. length h0 ≤ a) h1 e1
      fresh_h1 = d.fresh e h0 (read_kept c d e h h0 (append-Keeps h (cell (blank e))) k)

      elsewhere : c.Within (λ a. a ≢ length h) h1 e1
      elsewhere = d.weakens e1 h1 (λ a l n. omega (arith, length-h0)) fresh_h1

      held-h2 : held h2 (length h) ≡ some e1
      held-h2 =
          rw (get-put h1 (length h) (cell e1) (omega (arith, (d.keeps e h0).longer, length-h0)))
            (opens e1)

      into_same : c.read h2 e1 ≡ some u
      into_same = d.agrees e1 h1 h2 (put-Agrees h1 (length h) (cell e1)) elsewhere read_h1

      into_fresh : c.Within (λ a. length h ≤ a) h2 e1
      into_fresh =
          d.reaches _ e1 h1 h2 (put-Agrees h1 (length h) (cell e1)) elsewhere read_h1
            (d.weakens e1 h1 (λ a l. omega (arith, length-h0)) fresh_h1)

    box_same :
        (r : Option ℕ) (h : List K) {v : Option V}
        → read_box h r ≡ some v
        → let (r', h') = copy_box r h in read_box h' r' ≡ some v
    box_same none h k = k
    box_same (some a) h k =
        let (e, u, k1, k2, m) = read_box-some h a k in
        rw k1 (
          some-read_box (h2 e h k2) (length h) (e1 e h k2) u _ (held-h2 e h k2) (into_same e h k2)
            m)

    box_fresh :
        (r : Option ℕ) (h : List K) {v : Option V}
        → read_box h r ≡ some v
        → let (r', h') = copy_box r h in WithinBox (λ a. length h ≤ a) h' r'
    box_fresh none h k = tt
    box_fresh (some a) h k =
        let (e, u, k1, k2, m) = read_box-some h a k in
        rw k1 (
          omega arith,
          λ e' q.
              subst (c.Within (λ b. length h ≤ b) (h2 e h k2))
                (some_injective (sym (held-h2 e h k2) ∙ q)) (into_fresh e h k2),
        )

    box_below :
        (r : Option ℕ) (h : List K) {v : Option V}
        → read_box h r ≡ some v
        → WithinBox (λ a. a < length h) h r
    box_below none h k = tt
    box_below (some a) h k =
        let (e, u, k1, k2, m) = read_box-some h a k in
        (
          held-lt h a k1,
          λ e' q.
              subst (c.Within (λ b. b < length h) h) (some_injective (sym k1 ∙ q)) (d.below e h k2),
        )

    box_weakens :
        {P Q : ℕ → Type 0} (r : Option ℕ) (h : List K)
        → ((a : ℕ) → P a → Q a)
        → WithinBox P h r
        → WithinBox Q h r
    box_weakens none h f w = tt
    box_weakens (some a) h f (p, w) = (f a p, λ e q. d.weakens e h f (w e q))

    box-Agrees :
        {Q : ℕ → Type 0} (r : Option ℕ) (h g : List K) {v : Option V}
        → Agrees Q h g
        → WithinBox Q h r
        → read_box h r ≡ some v
        → read_box g r ≡ some v
    box-Agrees none h g s w k = k
    box-Agrees (some a) h g s (q, w) k =
        let (e, u, k1, k2, m) = read_box-some h a k in
        some-read_box g a e u _ (held-Agrees h g a s q k1) (d.agrees e h g s (w e k1) k2) m

    box_reaches :
        (P : ℕ → Type 0) {Q : ℕ → Type 0} (r : Option ℕ) (h g : List K) {v : Option V}
        → Agrees Q h g
        → WithinBox Q h r
        → read_box h r ≡ some v
        → WithinBox P h r
        → WithinBox P g r
    box_reaches P none h g s w k z = tt
    box_reaches P (some a) h g s (q, w) k (p, z) =
        let (e, u, k1, k2, m) = read_box-some h a k in
        (
          p,
          λ e' k'.
              subst (c.Within P g) (some_injective (sym (held-Agrees h g a s q k1) ∙ k'))
                (d.reaches P e h g s (w e k1) k2 (z e k1)),
        )

    pub box-IsDeep : IsDeep box
    box-IsDeep = record {
      keeps = box-Keeps;
      same = box_same;
      fresh = box_fresh;
      below = box_below;
      weakens = box_weakens;
      agrees = box-Agrees;
      reaches = box_reaches;
    }
