-- ===== src/Policy/Context.antt =====
-- internal/controllers/policy_evaluator.go: the values of an instance that the rules of a policy see.
use servicer.Prelude.{String, List, [], ◌∷◌, Option, some}
use servicer.Json.{Json, Fields, str, obj, end, field}
use servicer.Api.{ServiceInstance}

-- The map of the parameters.
decoded_parameters : Option Json → Json
decoded_parameters (some (obj fields)) = obj fields
decoded_parameters _ = obj end

strings_to_any : List (String × String) → Fields
strings_to_any [] = end
strings_to_any (entry ∷ entries) = field entry.0 (str entry.1) (strings_to_any entries)

abbrev single : String → Json → Json
single name value = obj (field name value end)

unfoldable pub build_policy_evaluation_context : ServiceInstance → Json
unfolding decoded_parameters strings_to_any
build_policy_evaluation_context i = obj (
    field "metadata"
      (obj (field "name" (str i.name) (field "labels" (obj (strings_to_any i.labels)) end)))
      (field "spec"
        (obj (
          field "projectRef" (single "name" (str i.project_ref)) (
            field "serviceClassRef" (single "name" (str i.service_class_ref)) (
              field "servicePlanRef" (single "name" (str i.service_plan_ref)) (
                field "version" (str i.version) (
                  field "exposure" (single "mode" (str i.exposure_mode)) (
                    field "secretPolicy"
                      (obj (
                        field "deliveryMode" (str i.secret_delivery_mode)
                          (field "externalSecretProvider" (str i.external_secret_provider) end)))
                      (field "deletionPolicy" (str i.deletion_policy) end))))))))
        (field "parameters" (decoded_parameters i.parameters) end)))
