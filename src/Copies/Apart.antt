-- ===== src/Copies/Apart.antt =====
-- That a deep copy and its original are apart in memory: what a program writes to one of them is not
-- seen in the other.
use harvester_equinix_addon.Prelude.{
  ℕ, ◌≤◌, ◌<◌, ◌≡◌, inl, inr, ◌⊎◌, some, List, [], ◌∷◌, ◌++◌, length, arith,
}
use harvester_equinix_addon.Copies.Memory.{put, get-lt-length, Agrees, append-Keeps, put-Agrees}
use harvester_equinix_addon.Copies.Copier.{Copier, IsDeep, read_kept, within_kept}

-- What a program makes of a memory that writes only to addresses of `P`, and allocates what it needs.
pub data Writes {K : Type 0} (P : ℕ → Type 0) : List K → List K → Type 0 where
  done : {h : List K} → Writes P h h
  write : {h g : List K} (a : ℕ) (k : K) → P a → Writes P h g → Writes P h (put a k g)
  allocate : {h g : List K} (k : K) → Writes P h g → Writes P h (g ++ k ∷ [])

pub Writes-trans :
    {K : Type 0} {P : ℕ → Type 0} {f g h : List K} → Writes P f g → Writes P g h → Writes P f h
Writes-trans v done = v
Writes-trans v (write a k p w) = write a k p (Writes-trans v w)
Writes-trans v (allocate k w) = allocate k (Writes-trans v w)

Writes-Agrees :
    {K : Type 0} {P Q : ℕ → Type 0} {h g : List K}
    → ((a : ℕ) → Q a → a < length h → ¬ P a)
    → Writes P h g
    → Agrees Q h g
Writes-Agrees f done a k q e = e
Writes-Agrees f (write b j p w) a k q e =
    put-Agrees _ b j a k (λ m. f a q (get-lt-length _ a e) (rw m p)) (Writes-Agrees f w a k q e)
Writes-Agrees f (allocate j w) a k q e =
    let held = Writes-Agrees f w a k q e in
    (append-Keeps _ j).agrees a k (get-lt-length _ a held) held

module _ {K R V : Type 0} (c : Copier K R V) (d : IsDeep c) (r : R) (h g : List K) {v : V}
    (e : c.read h r ≡ some v) where
  abbrev copied : R
  copied = (c.copy r h).0

  abbrev after : List K
  after = (c.copy r h).1

  -- The original, when the program writes to what was not there before the copy.
  pub original_stays : Writes (λ a. length h ≤ a) after g → c.read g r ≡ some v
  original_stays w =
      d.agrees {Q = λ a. a < length h} r after g (Writes-Agrees (λ a l m n. omega arith) w)
        (within_kept c d r h after (d.keeps r h) e (d.below r h e))
        (read_kept c d r h after (d.keeps r h) e)

  -- The copy, when the program writes to what was there before it, or allocated after it.
  pub copy_stays :
      Writes (λ a. (a < length h) ⊎ (length after ≤ a)) after g → c.read g copied ≡ some v
  copy_stays w =
      d.agrees {Q = λ a. length h ≤ a} copied after g
        (Writes-Agrees (λ a l m n. elim n [ inl b ↦ omega arith | inr b ↦ omega arith ]) w)
        (d.fresh r h e) (d.same r h e)
