-- ===== src/Copies/Sequence.antt =====
-- Deep copies of the elements of an array, one after the other.
use harvester_equinix_addon.Prelude.{
  ℕ, ◌≤◌, ◌<◌, ◌≡◌, ap, Option, some, List, [], ◌∷◌, length, arith,
}
use harvester_equinix_addon.Copies.Memory.{Agrees, Keeps, Keeps-refl, Keeps-trans}
use harvester_equinix_addon.Copies.Copier.{Copier, IsDeep, read_kept, within_kept}
use harvester_equinix_addon.Copies.Rules.{both, both-eq_some, seen, seen-eq_some}

module _ {K R V : Type 0} (c : Copier K R V) where
  abbrev pub copy_all : List R → List K → List R × List K
  copy_all [] h = ([], h)
  copy_all (r ∷ rs) h =
      let (r', h1) = c.copy r h in let (rs', h2) = copy_all rs h1 in (r' ∷ rs', h2)

  abbrev pub read_all : List K → List R → Option (List V)
  read_all h [] = some []
  read_all h (r ∷ rs) = seen (λ p. p.0 ∷ p.1) (both (c.read h r) (read_all h rs))

  abbrev pub WithinAll : (ℕ → Type 0) → List K → List R → Type 0
  WithinAll P h [] = Unit
  WithinAll P h (r ∷ rs) = c.Within P h r × WithinAll P h rs

  abbrev pub sequence : Copier K (List R) (List V)
  sequence = record { copy = copy_all; read = read_all; Within = WithinAll }

  -- An array that can be read has a first element and others that can.
  read_all-cons :
      (h : List K) (r : R) (rs : List R) {vs : List V}
      → read_all h (r ∷ rs) ≡ some vs
      → (u : V) × (us : List V) × (c.read h r ≡ some u) × (read_all h rs ≡ some us) × (u ∷ us ≡ vs)
  read_all-cons h r rs e =
      let (p, k, m) = seen-eq_some (λ p. p.0 ∷ p.1) (both (c.read h r) (read_all h rs)) e in
      let (k1, k2) = both-eq_some (c.read h r) (read_all h rs) k in (p.0, p.1, k1, k2, m)

  cons-read_all :
      (h : List K) (r : R) (rs : List R) (u : V) (us vs : List V)
      → c.read h r ≡ some u
      → read_all h rs ≡ some us
      → u ∷ us ≡ vs
      → read_all h (r ∷ rs) ≡ some vs
  cons-read_all h r rs u us vs k1 k2 m = rw (k1, k2) (ap some m)

  module _ (d : IsDeep c) where
    all-Keeps : (rs : List R) (h : List K) → Keeps h (copy_all rs h).1
    all-Keeps [] h = Keeps-refl h
    all-Keeps (r ∷ rs) h = Keeps-trans (d.keeps r h) (all-Keeps rs (c.copy r h).1)

    all_below :
        (rs : List R) (h : List K) {vs : List V}
        → read_all h rs ≡ some vs
        → WithinAll (λ a. a < length h) h rs
    all_below [] h e = tt
    all_below (r ∷ rs) h e =
        let (u, us, k1, k2, m) = read_all-cons h r rs e in (d.below r h k1, all_below rs h k2)

    all_weakens :
        {P Q : ℕ → Type 0} (rs : List R) (h : List K)
        → ((a : ℕ) → P a → Q a)
        → WithinAll P h rs
        → WithinAll Q h rs
    all_weakens [] h f w = tt
    all_weakens (r ∷ rs) h f w = (d.weakens r h f w.0, all_weakens rs h f w.1)

    all-Agrees :
        {Q : ℕ → Type 0} (rs : List R) (h g : List K) {vs : List V}
        → Agrees Q h g
        → WithinAll Q h rs
        → read_all h rs ≡ some vs
        → read_all g rs ≡ some vs
    all-Agrees [] h g a w e = e
    all-Agrees (r ∷ rs) h g a w e =
        let (u, us, k1, k2, m) = read_all-cons h r rs e in
        cons-read_all g r rs u us _ (d.agrees r h g a w.0 k1) (all-Agrees rs h g a w.1 k2) m

    all_reaches :
        (P : ℕ → Type 0) {Q : ℕ → Type 0} (rs : List R) (h g : List K) {vs : List V}
        → Agrees Q h g
        → WithinAll Q h rs
        → read_all h rs ≡ some vs
        → WithinAll P h rs
        → WithinAll P g rs
    all_reaches P [] h g a w e z = tt
    all_reaches P (r ∷ rs) h g a w e z =
        let (u, us, k1, k2, m) = read_all-cons h r rs e in
        (d.reaches P r h g a w.0 k1 z.0, all_reaches P rs h g a w.1 k2 z.1)

    all_kept :
        (rs : List R) (h g : List K) {vs : List V}
        → Keeps h g
        → read_all h rs ≡ some vs
        → read_all g rs ≡ some vs
    all_kept rs h g k e = all-Agrees rs h g k.agrees (all_below rs h e) e

    all_same :
        (rs : List R) (h : List K) {vs : List V}
        → read_all h rs ≡ some vs
        → let (rs', h') = copy_all rs h in read_all h' rs' ≡ some vs
    all_same [] h e = e
    all_same (r ∷ rs) h e =
        let (u, us, k1, k2, m) = read_all-cons h r rs e in
        let (r', h1) = c.copy r h in
        let (rs', h2) = copy_all rs h1 in
        cons-read_all h2 r' rs' u us _ (read_kept c d r' h1 h2 (all-Keeps rs h1) (d.same r h k1))
          (all_same rs h1 (all_kept rs h h1 (d.keeps r h) k2)) m

    all_fresh :
        (rs : List R) (h : List K) {vs : List V}
        → read_all h rs ≡ some vs
        → let (rs', h') = copy_all rs h in WithinAll (λ a. length h ≤ a) h' rs'
    all_fresh [] h e = tt
    all_fresh (r ∷ rs) h e =
        let (u, us, k1, k2, m) = read_all-cons h r rs e in
        let (r', h1) = c.copy r h in
        let (rs', h2) = copy_all rs h1 in
        let k : Keeps h h1 = d.keeps r h in
        (
          within_kept c d r' h1 h2 (all-Keeps rs h1) (d.same r h k1) (d.fresh r h k1),
          all_weakens rs' h2 (λ j l. omega (arith, k.longer))
              (all_fresh rs h1 (all_kept rs h h1 k k2)),
        )

    pub sequence-IsDeep : IsDeep sequence
    sequence-IsDeep = record {
      keeps = all-Keeps;
      same = all_same;
      fresh = all_fresh;
      below = all_below;
      weakens = all_weakens;
      agrees = all-Agrees;
      reaches = all_reaches;
    }
