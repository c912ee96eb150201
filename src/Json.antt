-- ===== src/Json.antt =====
-- The values of Python that the program keeps as `Any`: what `json.loads` builds.
use mm_harness.Prelude.{
  ℕ, String, Bool, Option, none, some, List, contains, if◌then◌else◌, ◌==◌, string_eq,
}

-- an `int`; `negsuc n` is -(n + 1)
pub data ℤ : Type 0 where
  pos : ℕ → ℤ
  negsuc : ℕ → ℤ

-- A `float` is kept as the text of its `repr`: no code of the model computes with it.
mutual
  pub data Json : Type 0 where
    null : Json
    boolean : Bool → Json
    integer : ℤ → Json
    real : String → Json
    string : String → Json
    array : Items → Json
    object : Fields → Json

  pub data Items : Type 0 where
    nil : Items
    item : Json → Items → Items

  pub data Fields : Type 0 where
    end : Fields
    field : String → Json → Fields → Fields

-- d.get(key)
unfoldable pub get : String → Fields → Option Json
get key end = none
get key (field name value rest) =
    let later = get key rest in if name == key then some value else later

-- d[key] = value
unfoldable pub put : String → Json → Fields → Fields
put key value end = field key value end
put key value (field name old rest) =
    let later = put key value rest in
    if name == key then field name value rest else field name old later

-- {key: value for key, value in d.items() if key not in keys}
unfoldable pub without : List String → Fields → Fields
without keys end = end
without keys (field name value rest) =
    let later = without keys rest in if contains name keys then later else field name value later
