-- ===== src/Tests/Starting.antt =====
-- The theorems on the start of the program and on the schemas, at a library that prints plain text.
use harvester_equinix_addon.Prelude.{String, none, some, List, [], ◌∷◌, Option}
use harvester_equinix_addon.Prelude.Text.{◌<>◌}
use harvester_equinix_addon.Services.{Error, remote, ok}
use harvester_equinix_addon.Setup.{Step, Outside, Log}
use harvester_equinix_addon.Setup.Crd.{Library, write_file}
use harvester_equinix_addon.Setup.Startup.{main}
use harvester_equinix_addon.Setup.Process.{Process, main-Process}
use harvester_equinix_addon.Setup.Written.{Written, write_file-Written}

-- A definition is the list of its columns, an object is their text.
abbrev Columns : Type 0
Columns = List String

abbrev joined : List String → String
joined [] = ""
joined (s ∷ ss) = s <> "\n" <> joined ss

abbrev plain : Library Columns String
plain = record {
  crd = λ gvk status non_namespace obj. gvk.group ∷ [];
  with_column = λ name path c. name ∷ c;
  to_custom_resource_definition = λ c. ok (joined c);
  to_custom_resource_definition_v1_beta1 = λ c. ok (joined c);
  export = λ os. ok (joined os);
  dir = λ file. "templates";
}

-- A step outside fails if it makes the clients of the core.
abbrev replies : Step Columns → Unit {0} → Option Error × Unit {0}
replies Step.core_factory w = (some (remote "refused"), w)
replies x w = (none, w)

abbrev outside : Outside Columns (Unit {0})
outside = record { perform = replies }

abbrev empty_log : Log Columns (Unit {0})
empty_log = record { world = tt; steps = [] }

main-Process_example : Process plain outside "kube" empty_log (main plain outside "kube" empty_log)
main-Process_example = main-Process plain outside "kube" empty_log

write_file-Written_example :
    Written plain outside "crds.yaml" empty_log (write_file plain outside "crds.yaml" empty_log)
write_file-Written_example = write_file-Written plain outside "crds.yaml" empty_log
