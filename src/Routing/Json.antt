-- ===== src/Routing/Json.antt =====
-- JSON values, `sonic_rs::Value`. A float is its IEEE 754 bit pattern.
use fastrapi.Prelude.{ℕ, Bool, Option, none, some, if◌then◌else◌}
use fastrapi.Text.{Str, str_eq}

pub data Number : Type 0 where
  pos negsuc float : ℕ → Number

mutual
  pub data Json : Type 0 where
    null : Json
    bool : Bool → Json
    num : Number → Json
    str : Str → Json
    arr : Items → Json
    obj : Fields → Json

  pub data Items : Type 0 where
    nil : Items
    cons : Json → Items → Items

  pub data Fields : Type 0 where
    end : Fields
    field : Str → Json → Fields → Fields

-- `get` and `insert` of an object: an insertion replaces the value of an equal key.
unfoldable pub get_field : Str → Fields → Option Json
unfolding str_eq
get_field k end = none
get_field k (field key value fields) = if str_eq key k then some value else get_field k fields

unfoldable pub insert_field : Str → Json → Fields → Fields
unfolding str_eq
insert_field k v end = field k v end
insert_field k v (field key value fields) =
    if str_eq key k then field key v fields else field key value (insert_field k v fields)
