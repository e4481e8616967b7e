-- ===== src/Copies/Memory.antt =====
-- Memory as a list of cells: an address is a place in the list, and what is allocated is put at its end.
use harvester_equinix_addon.Prelude.{
  ℕ, zero, suc, ◌≤◌, ◌<◌, ◌≡◌, ◌≢◌, refl, ap, ◌∙◌, Option, none, some, List, [], ◌∷◌, ◌++◌, length,
  length-append, arith,
}

module _ {K : Type 0} where
  abbrev pub get : List K → ℕ → Option K
  get [] a = none
  get (k ∷ h) zero = some k
  get (k ∷ h) (suc a) = get h a

  -- A write to an address that holds nothing changes nothing.
  abbrev pub put : ℕ → K → List K → List K
  put a k [] = []
  put zero k (j ∷ h) = k ∷ h
  put (suc a) k (j ∷ h) = j ∷ put a k h

  pub get-lt-length : (h : List K) (a : ℕ) {k : K} → get h a ≡ some k → a < length h
  get-lt-length [] a e = cc
  get-lt-length (j ∷ h) zero e = omega arith
  get-lt-length (j ∷ h) (suc a) e = omega (arith, get-lt-length h a e)

  pub get-append : (h : List K) (j : K) (a : ℕ) → a < length h → get (h ++ j ∷ []) a ≡ get h a
  get-append [] j a l = elim l [ ]
  get-append (i ∷ h) j zero l = refl
  get-append (i ∷ h) j (suc a) l = get-append h j a (omega arith)

  pub get-put : (h : List K) (a : ℕ) (k : K) → a < length h → get (put a k h) a ≡ some k
  get-put [] a k l = elim l [ ]
  get-put (j ∷ h) zero k l = refl
  get-put (j ∷ h) (suc a) k l = get-put h a k (omega arith)

  pub get-put_ne : (h : List K) (a b : ℕ) (k : K) → b ≢ a → get (put a k h) b ≡ get h b
  get-put_ne [] a b k n = refl
  get-put_ne (j ∷ h) zero zero k n = absurd (n refl)
  get-put_ne (j ∷ h) zero (suc b) k n = refl
  get-put_ne (j ∷ h) (suc a) zero k n = refl
  get-put_ne (j ∷ h) (suc a) (suc b) k n = get-put_ne h a b k (λ e. n (ap suc e))

  pub length-put : (h : List K) (a : ℕ) (k : K) → length (put a k h) ≡ length h
  length-put [] a k = refl
  length-put (j ∷ h) zero k = refl
  length-put (j ∷ h) (suc a) k = ap suc (length-put h a k)

  -- What the addresses of `Q` hold in `h`, they hold in `g`.
  abbrev pub Agrees : (ℕ → Type 0) → List K → List K → Type 0
  Agrees Q h g = (a : ℕ) (k : K) → Q a → get h a ≡ some k → get g a ≡ some k

  -- Nothing that is in `h` is changed in `g`, which may hold more.
  pub record Keeps (h g : List K) : Type 0 where
    pub longer : length h ≤ length g
    pub agrees : Agrees (λ a. a < length h) h g

  pub Keeps-refl : (h : List K) → Keeps h h
  Keeps-refl h = record { longer = omega arith; agrees = λ a k l e. e }

  pub Keeps-trans : {f g h : List K} → Keeps f g → Keeps g h → Keeps f h
  Keeps-trans p q = record {
    longer = omega (arith, p.longer, q.longer);
    agrees = λ a k l e. q.agrees a k (omega (arith, p.longer)) (p.agrees a k l e);
  }

  pub append-Keeps : (h : List K) (j : K) → Keeps h (h ++ j ∷ [])
  append-Keeps h j = record {
    longer = omega (arith, length-append h (j ∷ []));
    agrees = λ a k l e. get-append h j a l ∙ e;
  }

  pub put-Agrees : (h : List K) (a : ℕ) (k : K) → Agrees (λ b. b ≢ a) h (put a k h)
  put-Agrees h a k b j n e = get-put_ne h a b k n ∙ e

  -- A write past the end of `h` changes nothing of it.
  pub put-Keeps : {h g : List K} (a : ℕ) (k : K) → Keeps h g → length h ≤ a → Keeps h (put a k g)
  put-Keeps {h} {g} a k p l = record {
    longer = omega (arith, p.longer, length-put g a k);
    agrees = λ b j m e. get-put_ne g a b k (λ q. omega arith) ∙ p.agrees b j m e;
  }
