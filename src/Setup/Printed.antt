-- ===== src/Setup/Printed.antt =====
-- pkg/crd/crd.go, `List`, `Objects` and `Print`: the text that is printed.
use harvester_equinix_addon.Prelude.{
  String, Bool, true, false, List, [], ◌∷◌, ◌++◌, map, ◌≡◌, ◌⊎◌, refl, sym, ap, ◌∙◌, inl, inr,
}
use mathlib.Core.Path.{subst}
use mathlib.Core.List.{append_assoc, append-nil}
use harvester_equinix_addon.Prelude.Text.{◌<>◌}
use harvester_equinix_addon.Services.{Error, Result, ok, err}
use harvester_equinix_addon.Setup.Crd.{
  Library, header_v1, header_else, footer, and_then, list, convert, objects_from, objects,
}

pub Result-cases :
    {A : Type 0} (r : Result A) → ((a : A) × (r ≡ ok a)) ⊎ ((e : Error) × (r ≡ err e))
Result-cases (ok a) = inl (a, refl)
Result-cases (err e) = inr (e, refl)

module _ {C O : Type 0} (lib : Library C O) where
  -- All the definitions convert, to these objects in their order.
  abbrev pub Convert : Bool → List O → Type 0
  Convert b os = map (convert lib b) (list lib) ≡ map ok os

  -- The template: the exports of the definitions in both versions, of which Helm takes one.
  pub record Template (text : String) : Type 0 where
    pub objs : List O
    pub converts : Convert false objs
    pub v1 : String
    pub exports : lib.export objs ≡ ok v1
    pub objs_v1_beta1 : List O
    pub converts_v1_beta1 : Convert true objs_v1_beta1
    pub v1_beta1 : String
    pub exports_v1_beta1 : lib.export objs_v1_beta1 ≡ ok v1_beta1
    pub reads : text ≡ header_v1 <> v1 <> header_else <> v1_beta1 <> footer

  -- What the loop returns: the objects, after those it has, or the error of a conversion.
  abbrev Converted : Bool → List C → List O → Result (List O) → Type 0
  Converted b cs result (ok os) =
      (new : List O) × (os ≡ result ++ new) × (map (convert lib b) cs ≡ map ok new)
  Converted b cs result (err e) = (new : List O) → ¬ (map (convert lib b) cs ≡ map ok new)

  tail_fails :
      (b : Bool) (c : C) (cs : List C)
      → ((new : List O) → ¬ (map (convert lib b) cs ≡ map ok new))
      → (new : List O) → ¬ (map (convert lib b) (c ∷ cs) ≡ map ok new)
  tail_fails b c cs h [] m = cc
  tail_fails b c cs h (o ∷ new) m = h new (cc)

  head_fails :
      (b : Bool) (c : C) (cs : List C) (e : Error)
      → convert lib b c ≡ err e
      → (new : List O) → ¬ (map (convert lib b) (c ∷ cs) ≡ map ok new)
  head_fails b c cs e k [] m = cc
  head_fails b c cs e k (o ∷ new) m = cc

  one_more-Converted :
      (b : Bool) (c : C) (cs : List C) (result : List O) (o : O) (r : Result (List O))
      → convert lib b c ≡ ok o
      → Converted b cs (result ++ o ∷ []) r
      → Converted b (c ∷ cs) result r
  one_more-Converted b c cs result o (ok os) k (new, e, m) =
      (o ∷ new, e ∙ append_assoc result (o ∷ []) new, rw (k, m) refl)
  one_more-Converted b c cs result o (err z) k h = tail_fails b c cs h

  objects_from-Converted :
      (b : Bool) (cs : List C) (result : List O)
      → Converted b cs result (objects_from lib b result cs)
  unfolding objects_from
  objects_from-Converted b [] result = ([], sym (append-nil result), refl)
  objects_from-Converted b (c ∷ cs) result =
      by_result (convert lib b c) refl (λ o. objects_from-Converted b cs (result ++ o ∷ []))
    where
      by_result :
          (r : Result O)
          → convert lib b c ≡ r
          → ((o : O) → Converted b cs (result ++ o ∷ []) (objects_from lib b (result ++ o ∷ []) cs))
          → Converted b (c ∷ cs) result (and_then r (λ o. objects_from lib b (result ++ o ∷ []) cs))
      by_result (ok o) k h = one_more-Converted b c cs result o _ k (h o)
      by_result (err e) k h = head_fails b c cs e k

  objects-Converted : (b : Bool) → Converted b (list lib) [] (objects lib b)
  unfolding objects
  objects-Converted b = objects_from-Converted b (list lib) []

  map_ok_injective : (os os' : List O) → map ok os ≡ map ok os' → os ≡ os'
  map_ok_injective [] [] h = refl
  map_ok_injective [] (o ∷ os') h = cc
  map_ok_injective (o ∷ os) [] h = cc
  map_ok_injective (o ∷ os) (o' ∷ os') h =
      let t : map ok os ≡ map ok os' = cc in cc (map_ok_injective os os' t)

  -- The text that `Print` writes, or the first error on the way to it.
  abbrev pub printed : Result String
  printed = and_then (objects lib false) λ os. and_then (lib.export os) λ v1.
      and_then (objects lib true) λ os'.
        and_then (lib.export os')
          λ v1_beta1. ok (header_v1 <> v1 <> header_else <> v1_beta1 <> footer)

  -- A text that is returned is the template, and without one there is none.
  abbrev pub IsPrinted : Result String → Type 0
  IsPrinted (ok text) = Template text
  IsPrinted (err e) = (text : String) → ¬ Template text

  -- Objects that the loop returns are those of the definitions, and there are no others.
  same_objects :
      (b : Bool) (os os' : List O) → Converted b (list lib) [] (ok os) → Convert b os' → os' ≡ os
  same_objects b os os' (new, e, m) h = map_ok_injective os' new (sym h ∙ m) ∙ sym e

  Converted-Convert : (b : Bool) (os : List O) → Converted b (list lib) [] (ok os) → Convert b os
  Converted-Convert b os (new, e, m) = m ∙ ap (map ok) (sym e)

  known_objects : (b : Bool) (r : Result (List O)) → objects lib b ≡ r → Converted b (list lib) [] r
  known_objects b r e = subst (Converted b (list lib) []) e (objects-Converted b)

  last_export :
      (os os' : List O) (a : String) (r : Result String)
      → Converted false (list lib) [] (ok os)
      → lib.export os ≡ ok a
      → Converted true (list lib) [] (ok os')
      → lib.export os' ≡ r
      → IsPrinted (and_then r λ b. ok (header_v1 <> a <> header_else <> b <> footer))
  last_export os os' a (ok b) h e h' e' = record {
    objs = os;
    converts = Converted-Convert false os h;
    v1 = a;
    exports = e;
    objs_v1_beta1 = os';
    converts_v1_beta1 = Converted-Convert true os' h';
    v1_beta1 = b;
    exports_v1_beta1 = e';
    reads = refl;
  }
  last_export os os' a (err z) h e h' e' = λ text t.
      cc (t.exports_v1_beta1, same_objects true os' t.objs_v1_beta1 h' t.converts_v1_beta1)

  pub printed-IsPrinted : IsPrinted printed
  printed-IsPrinted = elim (Result-cases (objects lib false)) [
    | inr (e, k) ↦ rw k (λ text t. known_objects false (err e) k t.objs t.converts)
    | inl (os, k) ↦ elim (Result-cases (lib.export os)) [
      | inr (e, k') ↦
          rw (k, k')
            (λ text t.
              cc (
                t.exports,
                same_objects false os t.objs (known_objects false (ok os) k) t.converts,
              ))
      | inl (a, k') ↦ elim (Result-cases (objects lib true)) [
        | inr (e, k2) ↦
            rw (k, k', k2)
              (λ text t. known_objects true (err e) k2 t.objs_v1_beta1 t.converts_v1_beta1)
        | inl (os', k2) ↦
            rw (k, k', k2)
              (last_export os os' a (lib.export os') (known_objects false (ok os) k) k'
                (known_objects true (ok os') k2) refl)
      ]
    ]
  ]
