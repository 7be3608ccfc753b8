-- ===== src/Prelude/Json.antt =====
-- What Python's `json` module reads and writes: None, bool, float, str, list and dict with string
-- keys. `F` stands for the numbers.
use mathlib.Core.Bool.{Bool}
use mathlib.Core.Option.{Option, none, some}
use Prim.Native.String.{String}
use mathlib.Core.List.{List, [], ◌∷◌}
use pypoc.Prelude.Tests.{if◌then◌else◌}
use pypoc.Prelude.Keys.{◌==◌, string_eq}

mutual
  pub data Json (F : Type 0) : Type 0 where
    null : Json F
    flag : Bool → Json F
    number : F → Json F
    text : String → Json F
    array : Items F → Json F
    object : Fields F → Json F

  pub data Items (F : Type 0) : Type 0 where
    no_items : Items F
    item : Json F → Items F → Items F

  pub data Fields (F : Type 0) : Type 0 where
    no_fields : Fields F
    field : String → Json F → Fields F → Fields F

module _ {F : Type 0} where
  -- `d.get(key)`
  abbrev pub get : String → Fields F → Option (Json F)
  get k no_fields = none
  get k (field j v d) = if j == k then some v else get k d

  -- `d[key] = value`
  abbrev pub set : String → Json F → Fields F → Fields F
  set k v no_fields = field k v no_fields
  set k v (field j w d) = if j == k then field j v d else field j w (set k v d)

  -- The list of the items, the list of texts as a value, an optional text as a value.
  abbrev pub texts : List String → Items F
  texts [] = no_items
  texts (t ∷ ts) = item (text t) (texts ts)

  abbrev pub text_or_null : Option String → Json F
  text_or_null none = null
  text_or_null (some t) = text t
