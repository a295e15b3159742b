-- ===== src/Json.antt =====
-- nlohmann::json, which the program only calls: a parameter, with what it documents as laws.
mod Defs
mod Documents
pub use Defs.{Json, JsonLaws, find, or_null, or_throw, parsed, at_string, at_int64, at_double}
pub use Documents.{Tree, Fields, tree_json, tree_laws, str, int, num, boolean, obj, field, end}
