-- ===== src/Copies/Rules.antt =====
-- Deep copies of values without addresses, of pairs, lists and records.
use harvester_equinix_addon.Prelude.{
  ◌≤◌, ◌≡◌, refl, ap, ◌∙◌, Option, none, some, List, length, arith,
}
use harvester_equinix_addon.Copies.Memory.{Keeps, Keeps-refl, Keeps-trans}
use harvester_equinix_addon.Copies.Copier.{Copier, IsDeep, read_kept, within_kept}

-- A value without addresses, that is built again.
module _ {K V : Type 0} (look : V → Option V) (refill : V → V) where
  abbrev pub plain : Copier K V V
  plain = record { copy = λ v h. (refill v, h); read = λ h v. look v; Within = λ P h v. Unit }

  pub plain-IsDeep : ((v u : V) → look v ≡ some u → look (refill v) ≡ some u) → IsDeep plain
  plain-IsDeep refills = record {
    keeps = λ v h. Keeps-refl h;
    same = λ v h e. refills v _ e;
    fresh = λ v h e. tt;
    below = λ v h e. tt;
    weakens = λ v h w p. tt;
    agrees = λ v h g a w e. e;
    reaches = λ P v h g a w e p. tt;
  }

-- A value that is copied as it is.
abbrev pub value : {K V : Type 0} → Copier K V V
value = plain (λ v. some v) (λ v. v)

pub value-IsDeep : {K V : Type 0} → IsDeep {K = K} {V = V} value
value-IsDeep = plain-IsDeep (λ v. some v) (λ v. v) (λ v u e. e)

abbrev pub both : {A B : Type 0} → Option A → Option B → Option (A × B)
both none y = none
both (some a) none = none
both (some a) (some b) = some (a, b)

pub both-eq_some :
    {A B : Type 0} (x : Option A) (y : Option B) {v : A × B}
    → both x y ≡ some v
    → (x ≡ some v.0) × (y ≡ some v.1)
both-eq_some none y e = cc
both-eq_some (some a) none e = cc
both-eq_some (some a) (some b) {v} e =
    let q : (a, b) ≡ v = cc in (ap (λ x. some x.0) q, ap (λ x. some x.1) q)

-- Two values, one copied after the other.
module _ {K R S V U : Type 0} (c : Copier K R V) (d : Copier K S U) where
  abbrev pub pair : Copier K (R × S) (V × U)
  pair = record {
    copy = λ (x : R × S) (h : List K).
        let (a, h1) = c.copy x.0 h in let (b, h2) = d.copy x.1 h1 in ((a, b), h2);
    read = λ h x. both (c.read h x.0) (d.read h x.1);
    Within = λ P h x. c.Within P h x.0 × d.Within P h x.1;
  }

  module _ (p : IsDeep c) (q : IsDeep d) where
    pair_same :
        (x : R × S) (h : List K) {v : V × U}
        → pair.read h x ≡ some v
        → let (x', h') = pair.copy x h in pair.read h' x' ≡ some v
    pair_same x h e =
        let (e1, e2) = both-eq_some (c.read h x.0) (d.read h x.1) e in
        let (a, h1) = c.copy x.0 h in
        let k1 : Keeps h h1 = p.keeps x.0 h in
        let k2 = q.keeps x.1 h1 in
        rw
          (
            read_kept c p a h1 (d.copy x.1 h1).1 k2 (p.same x.0 h e1),
            q.same x.1 h1 (read_kept d q x.1 h h1 k1 e2),
          )
          refl

    pair_fresh :
        (x : R × S) (h : List K) {v : V × U}
        → pair.read h x ≡ some v
        → let (x', h') = pair.copy x h in pair.Within (λ a. length h ≤ a) h' x'
    pair_fresh x h e =
        let (e1, e2) = both-eq_some (c.read h x.0) (d.read h x.1) e in
        let (a, h1) = c.copy x.0 h in
        let k1 : Keeps h h1 = p.keeps x.0 h in
        let (b, h2) = d.copy x.1 h1 in
        (
          within_kept c p a h1 h2 (q.keeps x.1 h1) (p.same x.0 h e1) (p.fresh x.0 h e1),
          q.weakens b h2 (λ j l. omega (arith, k1.longer))
              (q.fresh x.1 h1 (read_kept d q x.1 h h1 k1 e2)),
        )

    pub pair-IsDeep : IsDeep pair
    pair-IsDeep = record {
      keeps = λ x h. Keeps-trans (p.keeps x.0 h) (q.keeps x.1 (c.copy x.0 h).1);
      same = pair_same;
      fresh = pair_fresh;
      below = λ x h e.
          let (e1, e2) = both-eq_some (c.read h x.0) (d.read h x.1) e in
          (p.below x.0 h e1, q.below x.1 h e2);
      weakens = λ x h f w. (p.weakens x.0 h f w.0, q.weakens x.1 h f w.1);
      agrees = λ x h g a w e.
          let (e1, e2) = both-eq_some (c.read h x.0) (d.read h x.1) e in
          rw (p.agrees x.0 h g a w.0 e1, q.agrees x.1 h g a w.1 e2) refl;
      reaches = λ P x h g a w e z.
          let (e1, e2) = both-eq_some (c.read h x.0) (d.read h x.1) e in
          (p.reaches P x.0 h g a w.0 e1 z.0, q.reaches P x.1 h g a w.1 e2 z.1);
    }

abbrev pub seen : {A B : Type 0} → (A → B) → Option A → Option B
seen f none = none
seen f (some a) = some (f a)

pub seen-eq_some :
    {A B : Type 0} (f : A → B) (x : Option A) {b : B}
    → seen f x ≡ some b
    → (a : A) × (x ≡ some a) × (f a ≡ b)
seen-eq_some f none e = cc
seen-eq_some f (some a) e = (a, refl, cc)

-- A record of which some fields are copied, as `fields` takes them out and `update` puts them back, and
-- which is seen as `make` makes it of what is seen of these.
module _ {K R S V U : Type 0} (c : Copier K S U) (fields : R → S) (update : R → S → R)
    (make : R → U → V) where
  abbrev pub struct : Copier K R V
  struct = record {
    copy = λ r h. let (s, h') = c.copy (fields r) h in (update r s, h');
    read = λ h r. seen (make r) (c.read h (fields r));
    Within = λ P h r. c.Within P h (fields r);
  }

  pub struct-IsDeep :
      ((r : R) (s : S) → fields (update r s) ≡ s)
      → ((r : R) (s : S) (u : U) → make (update r s) u ≡ make r u)
      → IsDeep c
      → IsDeep struct
  struct-IsDeep updates makes p = record {
    keeps = λ r h. p.keeps (fields r) h;
    same = λ r h e.
        let (u, k, m) = seen-eq_some (make r) (c.read h (fields r)) e in
        let (s, h') = c.copy (fields r) h in
        rw (updates r s, p.same (fields r) h k) (ap some (makes r s u ∙ m));
    fresh = λ r h e.
        let (u, k, m) = seen-eq_some (make r) (c.read h (fields r)) e in
        let (s, h') = c.copy (fields r) h in rw (updates r s) (p.fresh (fields r) h k);
    below = λ r h e.
        let (u, k, m) = seen-eq_some (make r) (c.read h (fields r)) e in p.below (fields r) h k;
    weakens = λ r h f w. p.weakens (fields r) h f w;
    agrees = λ r h g a w e.
        let (u, k, m) = seen-eq_some (make r) (c.read h (fields r)) e in
        rw (p.agrees (fields r) h g a w k) (ap some m);
    reaches = λ P r h g a w e z.
        let (u, k, m) = seen-eq_some (make r) (c.read h (fields r)) e in
        p.reaches P (fields r) h g a w k z;
  }
