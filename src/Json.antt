-- ===== src/Json.antt =====
-- JSON values, and the checks of `JsonValueSchema` in src/interfaces/temporal-kv.ts.
pub mod Depth
use umbra_db.Prelude.{
  ℕ, zero, suc, ◌+◌, Bool, true, false, not, ◌&&◌, ◌||◌, List, [], ◌∷◌, Option, none, some, Text,
  ltb, if◌then◌else◌,
}
use umbra_db.SafeText.{has_postgres_unsafe_text}

-- A number is kept as the bit pattern of its double: nothing here computes with it.
mutual
  pub data Json : Type 0 where
    null : Json
    bool : Bool → Json
    num : ℕ → Json
    str : Text → Json
    arr : Items → Json
    obj : Fields → Json

  pub data Items : Type 0 where
    nil : Items
    cons : Json → Items → Items

  pub data Fields : Type 0 where
    end : Fields
    field : Text → Json → Fields → Fields

-- jsonValueHasUnsafeText, and its two `.some` loops
unfoldable mutual
  pub json_value_has_unsafe_text : Json → Bool
  json_value_has_unsafe_text null = false
  json_value_has_unsafe_text (bool b) = false
  json_value_has_unsafe_text (num n) = false
  json_value_has_unsafe_text (str s) = has_postgres_unsafe_text s
  json_value_has_unsafe_text (arr xs) = items_have_unsafe_text xs
  json_value_has_unsafe_text (obj fs) = fields_have_unsafe_text fs

  pub items_have_unsafe_text : Items → Bool
  items_have_unsafe_text nil = false
  items_have_unsafe_text (cons x xs) = json_value_has_unsafe_text x || items_have_unsafe_text xs

  pub fields_have_unsafe_text : Fields → Bool
  fields_have_unsafe_text end = false
  fields_have_unsafe_text (field k v fs) =
      (has_postgres_unsafe_text k || json_value_has_unsafe_text v) || fields_have_unsafe_text fs

-- `stack` of exceedsMaxDepth, its top first
abbrev pub Stack : Type 0
Stack = List (Json × ℕ)

-- for (const item of v) stack.push({ v: item, depth })
unfoldable pub push_items : Items → ℕ → Stack → Stack
push_items nil depth stack = stack
push_items (cons x xs) depth stack = push_items xs depth ((x, depth) ∷ stack)

-- for (const val of Object.values(v)) stack.push({ v: val, depth })
unfoldable pub push_fields : Fields → ℕ → Stack → Stack
push_fields end depth stack = stack
push_fields (field k v fs) depth stack = push_fields fs depth ((v, depth) ∷ stack)

unfoldable pub push_children : Json → ℕ → Stack → Stack
unfolding push_items push_fields
push_children (arr xs) depth stack = push_items xs depth stack
push_children (obj fs) depth stack = push_fields fs depth stack
push_children _ depth stack = stack

-- `while (stack.length > 0)`, a value popped on each round; `none` means that the fuel ran out
unfoldable pub depth_loop : ℕ → ℕ → Stack → Option Bool
depth_loop zero max_depth stack = none
depth_loop (suc fuel) max_depth [] = some false
depth_loop (suc fuel) max_depth ((v, depth) ∷ stack) =
    let rest = depth_loop fuel max_depth (push_children v (depth + 1) stack) in
    if ltb max_depth depth then some true else rest

-- the number of values in a value, itself included
unfoldable mutual
  pub nodes : Json → ℕ
  nodes null = 1
  nodes (bool b) = 1
  nodes (num n) = 1
  nodes (str s) = 1
  nodes (arr xs) = suc (nodes_items xs)
  nodes (obj fs) = suc (nodes_fields fs)

  pub nodes_items : Items → ℕ
  nodes_items nil = 0
  nodes_items (cons x xs) = nodes x + nodes_items xs

  pub nodes_fields : Fields → ℕ
  nodes_fields end = 0
  nodes_fields (field k v fs) = nodes v + nodes_fields fs

-- one round for each value, and one more to find the stack empty
unfoldable pub exceeds_max_depth : Json → ℕ → Option Bool
exceeds_max_depth v max_depth = depth_loop (suc (nodes v)) max_depth ((v, 0) ∷ [])

-- MAX_JSON_DEPTH
abbrev pub max_json_depth : ℕ
max_json_depth = 64

-- a loop that ran out of fuel would accept nothing
abbrev pub passes : Option Bool → Bool
passes none = false
passes (some exceeds) = not exceeds

-- JsonValueSchema: the depth is checked first, then `z.json()` of the schema library, which is a
-- parameter, then the text.
unfoldable pub is_json_value : (Json → Bool) → Json → Bool
is_json_value z_json v =
    passes (exceeds_max_depth v max_json_depth) && (z_json v && not (json_value_has_unsafe_text v))
