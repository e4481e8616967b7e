-- ===== src/Copies/Copier.antt =====
-- What it is for a function to copy deeply what a value refers to in memory, and the rules by which
-- such functions are made from one another.
use harvester_equinix_addon.Prelude.{ℕ, ◌≤◌, ◌<◌, ◌≡◌, Option, some, List, length}
use harvester_equinix_addon.Copies.Memory.{Agrees, Keeps}

-- Values of type `R` in a memory with cells of type `K`: how they are copied, what is seen of them from
-- outside (nothing, where an address is dangling), and that all addresses that they reach meet a
-- predicate.
pub record Copier (K R V : Type 0) : Type 1 where
  pub copy : R → List K → R × List K
  pub read : List K → R → Option V
  pub Within : (ℕ → Type 0) → List K → R → Type 0

pub record IsDeep {K R V : Type 0} (c : Copier K R V) : Type 1 where
  -- Nothing that was in memory is changed.
  pub keeps : (r : R) (h : List K) → Keeps h (c.copy r h).1
  -- The copy reads as the original.
  pub same :
      (r : R) (h : List K) {v : V}
      → c.read h r ≡ some v
      → let (r', h') = c.copy r h in c.read h' r' ≡ some v
  -- All that the copy reaches is new.
  pub fresh :
      (r : R) (h : List K) {v : V}
      → c.read h r ≡ some v
      → let (r', h') = c.copy r h in c.Within (λ a. length h ≤ a) h' r'
  -- A value that can be read reaches what is there.
  pub below : (r : R) (h : List K) {v : V} → c.read h r ≡ some v → c.Within (λ a. a < length h) h r
  pub weakens :
      {P Q : ℕ → Type 0} (r : R) (h : List K)
      → ((a : ℕ) → P a → Q a)
      → c.Within P h r
      → c.Within Q h r
  -- A memory that agrees on all that a value reaches shows the same value, which reaches the same.
  pub agrees :
      {Q : ℕ → Type 0} (r : R) (h g : List K) {v : V}
      → Agrees Q h g
      → c.Within Q h r
      → c.read h r ≡ some v
      → c.read g r ≡ some v
  pub reaches :
      (P : ℕ → Type 0) {Q : ℕ → Type 0} (r : R) (h g : List K) {v : V}
      → Agrees Q h g
      → c.Within Q h r
      → c.read h r ≡ some v
      → c.Within P h r
      → c.Within P g r

-- What follows in memories that keep all that is there.
module _ {K R V : Type 0} (c : Copier K R V) (d : IsDeep c) where
  pub read_kept :
      (r : R) (h g : List K) {v : V} → Keeps h g → c.read h r ≡ some v → c.read g r ≡ some v
  read_kept r h g k e = d.agrees r h g k.agrees (d.below r h e) e

  pub within_kept :
      {P : ℕ → Type 0} (r : R) (h g : List K) {v : V}
      → Keeps h g
      → c.read h r ≡ some v
      → c.Within P h r
      → c.Within P g r
  within_kept {P} r h g k e = d.reaches P r h g k.agrees (d.below r h e) e
