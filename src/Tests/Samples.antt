-- ===== src/Tests/Samples.antt =====
-- Small schemas, in the shape of those of the Kubernetes kinds.
use becloudless.Json.{str, arr, obj, nil, cons, Fields, end, field}

abbrev pub text_field : Fields
text_field = field "type" (str "string") (field "pattern" (str "^a") end)

-- a port of a service
abbrev pub port : Fields
port = field "type" (str "object") (
    field "required" (arr (cons (str "port") (cons (str "name") nil))) (
      field "properties"
        (obj (
          field "name" (obj text_field)
            (field "port" (obj (field "type" (str "integer") end)) end)))
        end))

abbrev pub ports : Fields
ports = field "type" (str "array") (field "items" (obj port) end)

-- an object that takes the rest from a branch
abbrev pub combined : Fields
combined =
    field "description" (str "d")
      (field "required" (arr (cons (str "a") nil)) (field "allOf" (arr (cons (obj port) nil)) end))

abbrev pub spec : Fields
spec =
    field "type" (str "object") (
      field "properties" (obj (field "ports" (obj ports) (field "template" (obj combined) end)))
        end)
