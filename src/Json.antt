-- ===== src/Json.antt =====
-- The values of encoding/json and how it fills Go variables from them. A JSON text is its tree; a
-- text that is no JSON has no tree. A key names a field by its exact spelling.
mod Maps
pub use Maps.*
mod Defs
pub use Defs.{Json, null, boolean, num, str, arr, obj, Items, Fields, end, field}
unfoldable pub use Defs.{
  fields_of, entries, string_into, float_into, time_into, fill, map_into, encode_entries,
  encode_map, omit_empty, members_into, struct_into,
}
