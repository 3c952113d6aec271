-- ===== src/Overlay.antt =====
-- eyot-backend/app/core/overlay.py: `deep_merge`. A
-- copy of a document is the document.
pub mod Merged
pub mod Resolve
pub mod Resolved
mod Examples
use eyot_ai.Prelude.{String, Option, none, some}
use eyot_ai.Json.{Value, Fields, obj, field, end, get, put}

pub deep_merge : Fields → Fields → Fields
deep_merge base end = base
deep_merge base (field key (obj override) rest) =
    let value : Value = elim (get base key) [
      | some (obj old) ↦ obj (deep_merge old override)
      | _ ↦ obj override
    ] in
    deep_merge (put base key value) rest
deep_merge base (field key value rest) = deep_merge (put base key value) rest
