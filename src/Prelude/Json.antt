-- ===== src/Prelude/Json.antt =====
-- JSON values as Python's `json.loads` returns them. Each value but a text carries what `str` and
-- its truth value are; of a dictionary the code reads the fields.
use Prim.Native.String.{String}
use mathlib.Core.Bool.{Bool, true, false}
use package.text.Mathlib.Text.{◌==◌ as str_eq}
use efata_777_backend_premiu.Prelude.Tests.{if◌then◌else◌}
use efata_777_backend_premiu.Prelude.Text.{is_empty}

mutual
  pub data Json : Type 0 where
    null : Json
    text : String → Json
    -- a number, a Boolean or a list, by its truth and its text
    other : Bool → String → Json
    object : String → Fields → Json

  pub data Fields : Type 0 where
    end : Fields
    field : String → Json → Fields → Fields

-- `d.get(key)`.
unfoldable pub get : Fields → String → Json
get end key = null
get (field k v rest) key = if str_eq k key then v else get rest key

-- The truth value.
abbrev pub is_true : Json → Bool
is_true null = false
is_true (text s) = if is_empty s then false else true
is_true (other b s) = b
is_true (object s end) = false
is_true (object s (field k v rest)) = true

-- `a or b`.
abbrev pub or_else : Json → Json → Json
or_else a b = if is_true a then a else b

-- `str(v)`.
abbrev pub shown : Json → String
shown null = "None"
shown (text s) = s
shown (other b s) = s
shown (object s fields) = s

-- `v if isinstance(v, dict) else {}`.
abbrev pub as_fields : Json → Fields
as_fields (object s fields) = fields
as_fields _ = end

abbrev pub is_object : Json → Bool
is_object (object s fields) = true
is_object _ = false
