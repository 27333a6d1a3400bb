-- ===== src/Mutations/Probes.antt =====
-- The probes of the containers: kube/charts/base/templates/resources/mutations/probes/probes.go.
use becloudless.Prelude.{
  String, Bool, false, ◌&&◌, ◌||◌, not, Option, none, some, List, [], ◌∷◌, ◌++◌, ◌==◌, ◌&◌,
  if◌then◌else◌, join, quote, sort_strings, contains, split_on, trim_space, map,
}
use becloudless.Json.{
  Value, str, arr, obj, Items, nil, cons, Fields, end, field, get, set, delete, has, as_obj, as_arr,
  as_str, or_end, or_empty, fields_of,
}
use becloudless.Walk.{Visit, walk_schema_nodes_with_path}
use becloudless.Mutations.{ok, MutationResult, Mutation, or_null, schema_type_includes}

-- `probeNames`
abbrev pub probe_names : List String
probe_names = "livenessProbe" ∷ "readinessProbe" ∷ "startupProbe" ∷ []

abbrev pub handler_names : List String
handler_names = "exec" ∷ "grpc" ∷ "httpGet" ∷ "tcpSocket" ∷ []

abbrev pub port_handler_names : List String
port_handler_names = "grpc" ∷ "httpGet" ∷ "tcpSocket" ∷ []

abbrev pub last_part : List String → String
last_part [] = ""
last_part (s ∷ []) = s
last_part (s ∷ t ∷ list) = last_part (t ∷ list)

abbrev pub has_period : Option Fields → Bool
has_period none = false
has_period (some props) = has "periodSeconds" props

-- `isProbeNode`
unfoldable pub is_probe_node : Fields → String → Bool
unfolding split_on
is_probe_node node path =
    contains probe_names (last_part (split_on "." path))
    && schema_type_includes (or_null (get "type" node)) "object"
    && has_period (as_obj (get "properties" node))

abbrev pub is_port : Value → Bool
is_port (str s) = s == "port"
is_port _ = false

-- `slices.DeleteFunc(required, ...)`
unfoldable pub without_port : Items → Items
without_port nil = nil
without_port (cons r required) =
    let rest = without_port required in if is_port r then rest else cons r rest

abbrev pub set_required : Fields → Items → Fields
set_required handler nil = delete "required" handler
set_required handler (cons r required) = set "required" (arr (cons r required)) handler

abbrev pub port_note : String
port_note = "Defaults to the only port of the container, or to its port named `http`."

-- the description of a `port` that is an object
unfoldable pub note_port : Fields → Fields
unfolding trim_space set
note_port port =
    set "description"
      (str (trim_space (or_empty (as_str (get "description" port)) & ("\n" & port_note)))) port

abbrev pub with_note : Fields → Option Fields → Option Fields → Fields
with_note handler none port = handler
with_note handler (some props) none = handler
with_note handler (some props) (some port) =
    set "properties" (obj (set "port" (obj (note_port port)) props)) handler

abbrev pub note_handler : Fields → Fields
note_handler handler =
    with_note handler (as_obj (get "properties" handler))
      (as_obj (get "port" (or_end (as_obj (get "properties" handler)))))

abbrev pub drop_port : Fields → Option Items → Fields
drop_port handler none = handler
drop_port handler (some required) = set_required handler (without_port required)

-- the body of the loop of `makePortOptional`
unfoldable pub optional_port : Fields → Fields
unfolding note_port without_port set
optional_port handler = note_handler (drop_port handler (as_arr (get "required" handler)))

abbrev pub in_handler : String → Fields → Option Fields → Fields
in_handler name props none = props
in_handler name props (some handler) = set name (obj (optional_port handler)) props

unfoldable pub optional_ports : List String → Fields → Fields
unfolding optional_port set
optional_ports [] props = props
optional_ports (name ∷ list) props =
    optional_ports list (in_handler name props (as_obj (get name props)))

-- `makePortOptional`
abbrev pub make_port_optional : Fields → Fields
make_port_optional props = optional_ports port_handler_names props

abbrev pub copy_handler : String → Fields → Option Value → Fields
copy_handler name out none = out
copy_handler name out (some handler) = set name handler out

unfoldable pub copied_handlers : List String → Fields → Fields → Fields
unfolding set
copied_handlers [] props out = out
copied_handlers (name ∷ list) props out =
    copied_handlers list props (copy_handler name out (get name props))

-- `handlerSchemas`
abbrev pub handler_schemas : Fields → Fields
handler_schemas props = copied_handlers handler_names props end

abbrev pub is_enabled_probe : Fields → String → Bool
is_enabled_probe props name =
    has "enabled" (or_end (as_obj (get "properties" (or_end (as_obj (get name props))))))

abbrev pub any_enabled : Fields → List String → Bool
any_enabled props [] = false
any_enabled props (name ∷ list) = is_enabled_probe props name || any_enabled props list

abbrev pub shared_probe : Fields → Value
shared_probe handlers = obj (
    field "type" (str "object") (
      field "description"
        (str
          "The handler (`httpGet`, `tcpSocket`, `grpc` or `exec`) of the livenessProbe, readinessProbe and startupProbe that set none. The timings stay the ones of `defaults.container` and of each probe.")
        (field "properties" (obj handlers) end)))

abbrev pub with_shared : Fields → Fields → Option Fields → Fields
with_shared node handlers none = node
with_shared node handlers (some props) =
    if not (has "probe" props) && any_enabled props probe_names
    then set "properties" (obj (set "probe" (shared_probe handlers) props)) node
    else node

-- `addSharedProbe`
unfoldable pub add_shared_probe : Fields → Fields → Fields
add_shared_probe node handlers = with_shared node handlers (as_obj (get "properties" node))

abbrev pub enabled_property : Value
enabled_property = obj (
    field "type" (str "boolean") (
      field "description"
        (str
          "Whether to set this probe. Defaults to true, false removes it (ex: a probe set by the defaults).")
        end))

-- the variables of `Mutate`: the paths, and the handlers of the first probe found
abbrev pub Probed : Type 0
Probed = List String × Option Fields

abbrev pub or_shared : Fields → Option Fields → Fields
or_shared node none = node
or_shared node (some handlers) = add_shared_probe node handlers

abbrev pub or_handlers : Option Fields → Fields → Option Fields
or_handlers none props = some (handler_schemas props)
or_handlers (some handlers) props = some handlers

-- the visit of `Mutate`
unfoldable pub probe_visit : Visit Probed
unfolding is_probe_node optional_ports copied_handlers add_shared_probe set
probe_visit node path (paths, handlers) =
    let props = make_port_optional (or_end (as_obj (get "properties" node))) in
    if is_probe_node node path
    then (
      set "properties" (obj (set "enabled" enabled_property props)) node,
      (paths ++ path ∷ [], or_handlers handlers props),
    )
    else (or_shared node handlers, (paths, handlers))

abbrev pub with_probes : Value × Probed → MutationResult
with_probes (v, (paths, handlers)) = record {
  schema = fields_of v;
  template_args = ("probePaths", "(list " & (join " " (map quote (sort_strings paths)) & ")")) ∷ [];
}

-- `Probes.Mutate(schema)`
unfoldable pub probes : Mutation
unfolding probe_visit sort_strings quote
probes schema =
    ok (with_probes (walk_schema_nodes_with_path probe_visit "" (obj schema) ([], none)))
