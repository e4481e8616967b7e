-- ===== src/Setup/Written.antt =====
-- pkg/crd/crd.go, `Print` and `WriteFile`: what is written to the file, and when it is closed.
use harvester_equinix_addon.Prelude.{String, true, false, some, ◌≡◌, refl, inl, inr, Option-cases}
use harvester_equinix_addon.Services.{Error, Result, ok, err}
use harvester_equinix_addon.Setup.{Step, Outside, Log, attempt, taken, outcome, setup_code}
use harvester_equinix_addon.Setup.Crd.{Library, objects, print, write_file}
use harvester_equinix_addon.Setup.Printed.{
  Result-cases, Template, printed, IsPrinted, printed-IsPrinted,
}

module _ {C O W : Type 0} (lib : Library C O) (out : Outside C W) (file : String) where
  -- How `print` ends, from the text.
  abbrev writing : Result String → Log C W → Result (Unit {0}) × Log C W
  writing (ok text) s = attempt out (Step.write file text) s
  writing (err e) s = (err e, s)

  print-writing : (s : Log C W) → print lib out file s ≡ writing (printed lib) s
  unfolding print setup_code
  print-writing s = elim (Result-cases (objects lib false)) [
    | inr (e, k) ↦ rw k refl
    | inl (os, k) ↦ elim (Result-cases (lib.export os)) [
      | inr (e, k') ↦ rw (k, k') refl
      | inl (v1, k') ↦ elim (Result-cases (objects lib true)) [
        | inr (e, k2) ↦ rw (k, k', k2) refl
        | inl (os', k2) ↦ elim (Result-cases (lib.export os')) [
          | inr (e, k3) ↦ rw (k, k', k2, k3) refl
          | inl (v1_beta1, k3) ↦ rw (k, k', k2, k3) refl
        ]
      ]
    ]
  ]

  -- The log when the file has been made, and what has been taken to get there.
  abbrev rooted : Log C W → Log C W
  rooted s = taken out (Step.mkdir_all (lib.dir file)) s

  abbrev made : Log C W → Log C W
  made s = taken out (Step.create_file file) (rooted s)

  -- How `WriteFile` ends, by what it returns and the log that it leaves.
  pub data Written (s : Log C W) : Result (Unit {0}) × Log C W → Type 0 where
    -- The template has been written at once, and the file closed; the error is that of the write.
    filled :
        (text : String)
        → Template lib text
        → Written s (
          outcome (out.perform (Step.write file text) (made s).world).0,
          taken out (Step.close_file file) (taken out (Step.write file text) (made s)),
        )
    -- There is no template, and the file has been closed with nothing written to it.
    emptied :
        (e : Error)
        → ((text : String) → ¬ Template lib text)
        → Written s (err e, taken out (Step.close_file file) (made s))
    -- The file could not be made, or its directory.
    unmade :
        (e : Error)
        → (out.perform (Step.create_file file) (rooted s).world).0 ≡ some e
        → Written s (err e, made s)
    homeless :
        (e : Error)
        → (out.perform (Step.mkdir_all (lib.dir file)) s.world).0 ≡ some e
        → Written s (err e, rooted s)

  by_text :
      (s : Log C W) (r : Result String)
      → IsPrinted lib r
      → let (x, t) = writing r (made s) in Written s (x, taken out (Step.close_file file) t)
  unfolding setup_code
  by_text s (ok text) h = Written.filled text h
  by_text s (err e) h = Written.emptied e h

  -- `WriteFile` ends in one of four ways: the directory or the file cannot be made; the file is made
  -- and closed again with nothing in it, since a definition does not convert or export; or the
  -- template is written at once, and the file closed.
  pub write_file-Written : (s : Log C W) → Written s (write_file lib out file s)
  unfolding write_file setup_code
  write_file-Written s =
      elim (Option-cases (out.perform (Step.mkdir_all (lib.dir file)) s.world).0) [
        | inr (e, k) ↦ rw k (Written.homeless e k)
        | inl k ↦ elim (Option-cases (out.perform (Step.create_file file) (rooted s).world).0) [
          | inr (e, k') ↦ rw (k, k') (Written.unmade e k')
          | inl k' ↦
              rw (k, k', print-writing (made s)) (by_text s (printed lib) (printed-IsPrinted lib))
        ]
      ]
