-- ===== src/Json.antt =====
-- Go's `any` as `encoding/json` fills it, and `json.RawMessage`.
pub mod Canonical
mod Examples
use cann_o_call.Prelude.{String, Bool}

mutual
  -- A number keeps its text (`UseNumber`); an object's members stand in the order of an iteration.
  pub data Json : Type 0 where
    null : Json
    bool : Bool → Json
    text : String → Json
    number : String → Json
    array : Items → Json
    object : Fields → Json
    raw : String → Json

  pub data Items : Type 0 where
    nil : Items
    cons : Json → Items → Items

  pub data Fields : Type 0 where
    end : Fields
    field : String → Json → Fields → Fields
