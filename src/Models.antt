-- ===== src/Models.antt =====
-- The objects of scim2_models that the program reads and writes, with the fields it uses. The
-- library itself is not part of this repository: what it computes is a parameter wherever it is used.
use scim2_server.Base.{ℕ, Bool, true, false, Option, some, nat_eq, Text, text_eq, option_text_eq}

-- A JSON value or a pydantic model, as `replace_bulk_ids` walks it. A model is its fields.
mutual
  pub data Value : Type 0 where
    text : Text → Value
    items : Values → Value
    dict : Fields → Value
    model : Fields → Value
    other : ℕ → Value

  pub data Values : Type 0 where
    nil : Values
    cons : Value → Values → Values

  pub data Fields : Type 0 where
    end : Fields
    field : Text → Value → Fields → Fields

-- `meta`, without the dates' arithmetic: a date is a number.
pub record Meta : Type 0 where
  pub resource_type : Option Text
  pub created : Option ℕ
  pub last_modified : Option ℕ
  pub location : Option Text
  pub version : Option Text

-- A resource: its common attributes, and all others as one value.
pub record Resource : Type 0 where
  pub id : Option Text
  pub meta : Option Meta
  pub attributes : Value

pub record ResourceType : Type 0 where
  pub id : Option Text
  pub name : Text
  pub endpoint : Option Text

-- `BulkOperation.Method`
pub data Method : Type 0 where
  post put patch delete : Method

abbrev pub is_post : Option Method → Bool
is_post (some post) = true
is_post _ = false

-- `response` is the status of the error of an operation that failed its validation.
pub record BulkOperation : Type 0 where
  pub method : Option Method
  pub bulk_id : Option Text
  pub version : Option Text
  pub path : Option Text
  pub payload : Value
  pub status : ℕ
  pub response : Option ℕ

-- The dict of the outcome of a bulk operation. An error response is held by its status.
pub record BulkOutcome : Type 0 where
  pub method : Option Method
  pub bulk_id : Option Text
  pub location : Option Text
  pub version : Option Text
  pub status : ℕ
  pub response : Option ℕ
