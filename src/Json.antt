-- ===== src/Json.antt =====
-- The part of serde_json that the program relies on: the data type `Value` with its accessors, and
-- the parser as a parameter.
use distributed_softmax.Prelude.{ℕ, Bool, Option, none, some, List, [], ◌∷◌, if◌then◌else◌, ◌⊎◌}
use distributed_softmax.Text.{Bytes, beq}

-- `serde_json::Value`; a number by its `f64`. The keys of an object are distinct.
mutual
  pub data Value (N : Type 0) : Type 0 where
    null : Value N
    bool : Bool → Value N
    number : N → Value N
    string : Bytes → Value N
    array : Values N → Value N
    object : Members N → Value N

  pub data Values (N : Type 0) : Type 0 where
    nil : Values N
    cons : Value N → Values N → Values N

  pub data Members (N : Type 0) : Type 0 where
    end : Members N
    member : Bytes → Value N → Members N → Members N

module _ {N : Type 0} where
  unfoldable pub find_member : Bytes → Members N → Value N
  find_member key end = null
  find_member key (member k v rest) =
      let later = find_member key rest in if beq k key then v else later

  -- `j[key]`: `Null` where `j` is no object or lacks the key.
  unfoldable pub index : Value N → Bytes → Value N
  unfolding find_member
  index (object members) key = find_member key members
  index _ key = null

  -- `as_f64`
  unfoldable pub as_f64 : Value N → Option N
  as_f64 (number x) = some x
  as_f64 _ = none

  -- `as_array`
  unfoldable pub as_array : Value N → Option (Values N)
  as_array (array vs) = some vs
  as_array _ = none

  -- `iter().filter_map(|v| v.as_f64()).collect()`
  unfoldable pub filter_numbers : Values N → List N
  unfolding as_f64
  filter_numbers nil = []
  filter_numbers (cons v vs) = elim (as_f64 v) [
    | none ↦ filter_numbers vs
    | some x ↦ x ∷ filter_numbers vs
  ]

-- `serde_json::from_str::<Value>`: the text of an error, or the value.
abbrev pub Parser : Type 0 → Type 0
Parser N = Bytes → Bytes ⊎ Value N

-- What the program puts into a `json!` object.
pub data Field (N : Type 0) : Type 0 where
  text : Bytes → Field N
  count : ℕ → Field N
  numbers : List N → Field N
