-- ===== src/Common/Json.antt =====
-- JSON values, as far as the application looks into them: the `metadata` column of a ledger entry,
-- and the value that is stored for an account's lockout.
use nestjs_enterprise_starte.Prelude.{
  String, ◌≡◌, Option, none, some, arith, ◌===◌, string_key, if◌then◌else◌,
}
use nestjs_enterprise_starte.Prelude.Int.{ℤ}

-- A JavaScript number: an integer, or one that `Number.isInteger` refuses.
pub data Number : Type 0 where
  integer : ℤ → Number
  fraction : Number

mutual
  pub data Json : Type 0 where
    null : Json
    boolean : Json
    number : Number → Json
    text : String → Json
    array : Items → Json
    object : Fields → Json

  pub data Items : Type 0 where
    nil : Items
    cons : Json → Items → Items

  pub data Fields : Type 0 where
    end : Fields
    field : String → Json → Fields → Fields

-- `object[key]`
unfoldable pub get_field : String → Fields → Option Json
get_field k end = none
get_field k (field j v rest) = if k === j then some v else get_field k rest

-- `{ ...object, [key]: value }`
unfoldable pub set_field : String → Json → Fields → Fields
set_field k v end = field k v end
set_field k v (field j w rest) = if k === j then field j v rest else field j w (set_field k v rest)

pub get_field-set_field_self :
    (k : String) (v : Json) (fields : Fields) → get_field k (set_field k v fields) ≡ some v
unfolding get_field set_field
get_field-set_field_self k v end = ground (arith, string_key.same_iff k k)
get_field-set_field_self k v (field j w rest) =
    ground (arith, string_key.same_iff k j, get_field-set_field_self k v rest)
