-- ===== src/Mixins/Variables.antt =====
-- config/config_mixins.go: the uses of mixins and their variables. The package mapstructure is a
-- parameter.
pub mod Upper
pub mod Walked
pub mod Normalized
use resticprofile.Base.{
  ℕ, Bool, true, false, List, [], ◌∷◌, ◌++◌, Option, none, some, if◌then◌else◌, Text,
}
use resticprofile.Text.{text_eq, to_lower}
use resticprofile.Text.Maps.{Map, lookup, put, remove, keys}
use resticprofile.Mixins.Tree.{
  Value, null, string_value, scalar, list_value, map_value, Items, no_items, item, Fields,
  no_fields, field, Mixin,
}

-- strings.ToUpper, and the keys that a range visits of a map which the loop changes, by the keys of
-- the map at first. The order is not specified, and a key that is added may be visited or not.
module _ {ℓ} {A : Type ℓ} (upper : Text → Text) where
  -- One round of keysToUpper.
  unfoldable pub key_to_upper : Text → A → Map A → Map A
  unfolding put remove text_eq
  key_to_upper key v items =
      if text_eq (upper key) key then items else put (upper key) v (remove key items)

  -- A key that is removed before the range comes to it is not visited.
  unfoldable pub visit_key : Text → Option A → Map A → Map A
  unfolding key_to_upper
  visit_key key none items = items
  visit_key key (some v) items = key_to_upper key v items

  -- The loop over the keys that the range visits, each with the value that it has then.
  unfoldable pub visit_keys : List Text → Map A → Map A
  unfolding visit_key lookup
  visit_keys [] items = items
  visit_keys (key ∷ visits) items = visit_keys visits (visit_key key (lookup key items) items)

  unfoldable pub keys_to_upper : (List Text → List Text) → Map A → Map A
  unfolding visit_keys keys
  keys_to_upper visits items = visit_keys (visits (keys items)) items

module _ {ℓ} {A : Type ℓ} where
  unfoldable pub add_if_missing : Option A → Text → A → Map A → Map A
  unfolding put
  add_if_missing none k v variables = put k v variables
  add_if_missing (some u) k v variables = variables

  -- The variables that are missing are added.
  unfoldable pub add_missing : Map A → Map A → Map A
  unfolding add_if_missing lookup
  add_missing [] variables = variables
  add_missing ((k, v) ∷ rest) variables =
      add_missing rest (add_if_missing (lookup k variables) k v variables)

-- A nil map of variables is `none`.
pub record MixinUse : Type 0 where
  pub name : Text
  pub variables : Option (Map Value)
  pub implicit_variables : Map Value

module _ (upper : Text → Text) (visits : List Text → List Text) where
  normalized : MixinUse → Option (Map Value) → Map Value → MixinUse
  unfolding keys_to_upper add_missing
  normalized u variables [] = record u { variables = variables }
  normalized u none (v ∷ implicit) = record u {
    variables = some (keys_to_upper upper visits (v ∷ implicit));
    implicit_variables = [];
  }
  normalized u (some variables) (v ∷ implicit) = record u {
    variables = some (add_missing (keys_to_upper upper visits (v ∷ implicit)) variables);
    implicit_variables = [];
  }

  upper_variables : Option (Map Value) → Option (Map Value)
  unfolding keys_to_upper
  upper_variables none = none
  upper_variables (some variables) = some (keys_to_upper upper visits variables)

  unfoldable pub normalize_variables : MixinUse → MixinUse
  unfolding normalized upper_variables
  normalize_variables u = normalized u (upper_variables u.variables) u.implicit_variables

abbrev use_of : Text → MixinUse
use_of name = record { name = name; variables = none; implicit_variables = [] }

abbrev lower_name : MixinUse → MixinUse
lower_name u = record u { name = to_lower u.name }

-- mapstructure.Decode of an item into a use.
module _ (decode : Value → Option MixinUse) (upper : Text → Text)
    (visits : List Text → List Text) where
  use_of_value : Value → Option MixinUse
  unfolding normalize_variables
  use_of_value (string_value s) = some (use_of s)
  use_of_value v = elim (decode v) [
    | none ↦ none
    | some u ↦ some (normalize_variables upper visits u)
  ]

  prepend_use : Option MixinUse → Option (List MixinUse) → Option (List MixinUse)
  unfolding to_lower
  prepend_use none uses = none
  prepend_use (some u) none = none
  prepend_use (some u) (some uses) = some (lower_name u ∷ uses)

  uses_of_items : Items → Option (List MixinUse)
  unfolding use_of_value prepend_use
  uses_of_items no_items = some []
  uses_of_items (item v items) = prepend_use (use_of_value v) (uses_of_items items)

  -- parseMixinUses; an error is `none`.
  unfoldable pub parse_mixin_uses : Value → Option (List MixinUse)
  unfolding uses_of_items to_lower
  parse_mixin_uses null = some []
  parse_mixin_uses (string_value s) = some (lower_name (use_of s) ∷ [])
  parse_mixin_uses (list_value items) = uses_of_items items
  parse_mixin_uses v = none
