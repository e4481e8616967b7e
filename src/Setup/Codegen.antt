-- ===== src/Setup/Codegen.antt =====
-- pkg/codegen/main.go and pkg/codegen/cleanup/main.go, with the runs that generate.go asks for.
use harvester_equinix_addon.Prelude.{true, String, List, [], ◌∷◌, if◌then◌else◌}
use harvester_equinix_addon.Prelude.Text.{◌==◌}
use harvester_equinix_addon.Services.{Error, ok, err}
use harvester_equinix_addon.Setup.{
  GeneratorOptions, Step, Outside, Setup, ◌>>◌, attempt, perform, taken,
}
use harvester_equinix_addon.Setup.Crd.{Library, write_file}

abbrev pub generator_options : GeneratorOptions
generator_options = record {
  output_package = "github.com/harvester/harvester-equinix-addon/pkg/generated";
  boilerplate = "scripts/boilerplate.go.txt";
  group = "equinix.harvesterhci.io";
  types = "./pkg/apis/equinix.harvesterhci.io/v1" ∷ [];
  generate_types = true;
}

module _ {C O W : Type 0} (lib : Library C O) (out : Outside C W) where
  -- `if err != nil { … }`, where what follows ends the process.
  unfoldable pub or_die : (Error → Step C) → Setup C W (Unit {0}) → Setup C W (Unit {0})
  or_die death m s =
      let (r, t) = m s in elim r [ ok u ↦ (ok tt, t) | err e ↦ (err e, taken out (death e) t) ]

  unfoldable pub generate : Setup C W (Unit {0})
  generate = do
    perform out (Step.unsetenv "GOPATH")
    perform out (Step.controller_gen generator_options)

  -- The arguments of the process, its name first.
  unfoldable pub codegen : List String → Setup C W (Unit {0})
  unfolding or_die generate write_file
  codegen (name ∷ command ∷ file ∷ rest) =
      if command == "crds"
      then (perform out (Step.print_line "Writing CRDs to" file)
          >> or_die Step.panic (write_file lib out file))
      else generate
  codegen args = generate

  unfoldable pub clean : Setup C W (Unit {0})
  unfolding or_die
  clean = do
    or_die Step.fatal (attempt out (Step.cleanup "./pkg/apis"))
    or_die Step.fatal (attempt out (Step.remove_all "./pkg/generated"))
