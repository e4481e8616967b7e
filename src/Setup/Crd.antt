-- ===== src/Setup/Crd.antt =====
-- pkg/crd/crd.go: the custom resource definitions, as they are created in the cluster and printed.
use harvester_equinix_addon.Prelude.{
  String, Bool, true, false, Option, none, some, List, [], ◌∷◌, ◌++◌, if◌then◌else◌,
}
use harvester_equinix_addon.Prelude.Text.{◌<>◌}
use harvester_equinix_addon.Services.{Result, ok, err}
use harvester_equinix_addon.Setup.{
  Schema, Step, Outside, Setup, ◌>>=◌, ◌>>◌, lift, attempt, deferred,
}

pub record GroupVersionKind : Type 0 where
  pub group : String
  pub version : String
  pub kind : String

-- What the code uses of the library of definitions `C` and of the objects `O` made of them: a
-- definition from its fields `GVK`, `Status`, `NonNamespace` and `SchemaObject`, and the methods.
pub record Library (C O : Type 0) : Type 0 where
  pub crd : GroupVersionKind → Bool → Bool → Schema → C
  pub with_column : String → String → C → C
  pub to_custom_resource_definition : C → Result O
  pub to_custom_resource_definition_v1_beta1 : C → Result O
  pub export : List O → Result String
  -- `filepath.Dir`
  pub dir : String → String

-- `if err != nil { return nil, err }`
abbrev pub and_then : {A B : Type 0} → Result A → (A → Result B) → Result B
and_then (err e) f = err e
and_then (ok a) f = f a

abbrev pub header_v1 : String
header_v1 = "{{- if .Capabilities.APIVersions.Has \"apiextensions.k8s.io/v1\" -}}\n"

abbrev pub header_else : String
header_else = "{{- else -}}\n---\n"

abbrev pub footer : String
footer = "{{- end -}}"

module _ {C O : Type 0} (lib : Library C O) where
  unfoldable pub new_crd : Schema → Option (C → C) → C
  new_crd obj customize =
      let crd =
        lib.crd (record { group = "equinix.harvesterhci.io"; version = "v1"; kind = "" }) true true
          obj in
      elim customize [ none ↦ crd | some f ↦ f crd ]

  unfoldable pub list : List C
  unfolding new_crd
  list =
      new_crd Schema.instance (
        some λ c. lib.with_column "privateIP" ".status.privateIP" (
          lib.with_column "publicIP" ".status.publicIP" (
            lib.with_column "InstanceID" ".status.instanceID"
              (lib.with_column "Status" ".status.status" c))))
      ∷ new_crd Schema.instance_pool (
          some λ c.
            lib.with_column "Requested" ".status.requested" (
              lib.with_column "Ready" ".status.ready"
                (lib.with_column "Status" ".status.status" c)))
      ∷ []

  abbrev pub convert : Bool → C → Result O
  convert v1_beta1 c =
      if v1_beta1
      then lib.to_custom_resource_definition_v1_beta1 c
      else lib.to_custom_resource_definition c

  -- The loop, with the objects so far; an error is returned at once, without them.
  unfoldable pub objects_from : Bool → List O → List C → Result (List O)
  objects_from v1_beta1 result [] = ok result
  objects_from v1_beta1 result (c ∷ cs) =
      and_then (convert v1_beta1 c) (λ o. objects_from v1_beta1 (result ++ o ∷ []) cs)

  unfoldable pub objects : Bool → Result (List O)
  unfolding objects_from list
  objects v1_beta1 = objects_from v1_beta1 [] list

  module _ {W : Type 0} (out : Outside C W) where
    unfoldable pub print : String → Setup C W (Unit {0})
    unfolding objects
    print writer = do
      obj ← lift (objects false)
      text ← lift (lib.export obj)
      obj_v1_beta1 ← lift (objects true)
      text_v1_beta1 ← lift (lib.export obj_v1_beta1)
      attempt out (Step.write writer (header_v1 <> text <> header_else <> text_v1_beta1 <> footer))

    unfoldable pub write_file : String → Setup C W (Unit {0})
    unfolding print
    write_file filename = do
      attempt out (Step.mkdir_all (lib.dir filename))
      attempt out (Step.create_file filename)
      deferred out (Step.close_file filename) (print filename)

    unfoldable pub create : Setup C W (Unit {0})
    unfolding list
    create = do attempt out Step.crd_factory; attempt out (Step.batch_create list)
