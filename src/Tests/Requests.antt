-- ===== src/Tests/Requests.antt =====
-- Requests for a part of the espresso control.
use py_de.Base.{
  ◌≡◌, ◌↔◌, refl, true, false, ok, err, none, List, [], ◌∷◌, attribute_error, de1_api_type_error,
}
use py_de.PyNum.{int}
use py_de.Json.{Json, num, str, object, no_fields, field}
use py_de.Dispatcher.Mapping
use py_de.Dispatcher.Mapping.{
  Content, parsed, IsAt, Mapping, Entries, is_at, tree, no_entries, entry, Targets, no_targets,
  mapping_requires, requires_inner, PyType,
}
use py_de.Dispatcher.Validate.{validate_patch_return_targets}
use py_de.Dispatcher.Accepts.{Accepts, marks, validate_patch-Accepts}
use py_de.Dispatcher.Needs.{leaves_of, mapping_requires-marks}

abbrev temperature : IsAt
temperature = record {
  target = Mapping.Target.mmr;
  v_type = PyType.float ∷ [];
  read_only = false;
  internal_type = none;
  if_not_ready = false;
}

abbrev weight : IsAt
weight = record {
  target = Mapping.Target.flow_sequencer;
  v_type = PyType.float ∷ PyType.none_type ∷ [];
  read_only = false;
  internal_type = none;
  if_not_ready = false;
}

abbrev entries : Entries
entries =
    entry "group" (tree (entry "temperature" (is_at temperature) no_entries))
      (entry "stop_at_weight" (is_at weight) no_entries)

abbrev request : Content
request = parsed (
    object (
      field "group" (object (field "temperature" (num (int 92)) no_fields))
        (field "stop_at_weight" Json.null no_fields)))

validate_patch-Accepts_example :
    (validate_patch_return_targets (tree entries) request
      ≡ ok (record { de1 = true; scale = false }))
    ↔ ((l : List IsAt) × Accepts (tree entries) request l
        × ((record { de1 = true; scale = false }) ≡ marks l no_targets))
validate_patch-Accepts_example =
    validate_patch-Accepts (tree entries) request (record { de1 = true; scale = false })

request-accepted :
    validate_patch_return_targets (tree entries) request ≡ ok (record { de1 = true; scale = false })
unfolding validate_patch_return_targets Mapping.requires_connected_de1
    Mapping.requires_connected_scale
request-accepted = refl

-- A number where the mapping has a dict
number-raises :
    validate_patch_return_targets
      (tree entries)
      (parsed (object (field "group" (num (int 3)) no_fields)))
    ≡ err attribute_error
unfolding validate_patch_return_targets
number-raises = refl

text-refused :
    validate_patch_return_targets
      (tree entries)
      (parsed (object (field "stop_at_weight" (str "36") no_fields)))
    ≡ err de1_api_type_error
unfolding validate_patch_return_targets
text-refused = refl

mapping_requires-marks_example : mapping_requires entries ≡ marks (leaves_of entries) no_targets
mapping_requires-marks_example = mapping_requires-marks entries
