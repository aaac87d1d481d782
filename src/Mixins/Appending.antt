-- ===== src/Mixins/Appending.antt =====
-- config/config_mixins.go: keys that append to a list or prepend to it. The packages viper and cast
-- are parameters.
pub mod Keys
use resticprofile.Base.{
  ℕ, Bool, true, false, not, ◌&&◌, List, [], ◌∷◌, ◌++◌, Option, none, some, if◌then◌else◌, Text,
  codes, contains,
}
use resticprofile.Text.{text_eq, strip_prefix, to_upper}
use resticprofile.Text.Maps.{Map, lookup, put, remove}
use resticprofile.Mixins.Expansion.{is_empty}
use resticprofile.Mixins.Tree.{
  Value, null, string_value, scalar, list_value, map_value, Items, no_items, item, Fields,
  no_fields, field,
}

pub data MixinAppendToKey : Type 0 where
  mixin_no_append mixin_append mixin_prepend : MixinAppendToKey

abbrev cons_to : ℕ → Option Text → Option Text
cons_to c none = none
cons_to c (some s) = some (c ∷ s)

-- What stands before a suffix, which is compared in upper case.
unfoldable pub before_suffix : Text → Text → Option Text
unfolding to_upper text_eq
before_suffix suffix [] = none
before_suffix suffix (c ∷ s) =
    let later = before_suffix suffix s in
    if text_eq (to_upper (c ∷ s)) suffix then some [] else cons_to c later

-- `.+` matches a text that is not empty and has no line end.
unfoldable pub some_line : Option Text → Option Text
unfolding contains
some_line none = none
some_line (some s) = if is_empty s then none else if contains 10 s then none else some s

abbrev first_match : Option Text → Option Text → Option Text
first_match none o = o
first_match (some s) o = some s

-- mixinAppendKeyRegex and mixinPrependKeyRegex, with the group that matched.
unfoldable pub append_key : Text → Option Text
unfolding before_suffix some_line
append_key key =
    first_match (some_line (before_suffix (codes "__APPEND") key))
      (some_line (before_suffix (codes "...") key))

unfoldable pub prepend_key : Text → Option Text
unfolding before_suffix some_line strip_prefix
prepend_key key =
    first_match (some_line (before_suffix (codes "__PREPEND") key))
      (some_line (strip_prefix (codes "...") key))

target_of : Option Text → Option Text → Text × MixinAppendToKey
target_of (some target) prepended = (target, mixin_append)
target_of none (some target) = (target, mixin_prepend)
target_of none none = ([], mixin_no_append)

unfoldable pub parse_append_to_list_key : Text → Text × MixinAppendToKey
unfolding target_of append_key prepend_key
parse_append_to_list_key key = target_of (append_key key) (prepend_key key)

-- The keys of a map of the configuration, and the map with them.
entries : Fields → Map Value
entries no_fields = []
entries (field name v fields) = (name, v) ∷ entries fields

fields_of : Map Value → Fields
fields_of [] = no_fields
fields_of ((name, v) ∷ m) = field name v (fields_of m)

append_items : Items → Items → Items
append_items no_items items = items
append_items (item v items) more = item v (append_items items more)

-- viper's Sub and Get, and cast.ToSlice.
pub record Viper : Type 1 where
  pub Config : Type 0
  pub sub : Text → Config → Option Config
  pub get : Text → Config → Value
  pub to_slice : Value → Option Items

abbrev value_or_null : Option Value → Value
value_or_null none = null
value_or_null (some v) = v

holds_map : Value → Bool
holds_map (map_value m) = true
holds_map v = false

module _ (viper : Viper) where
  sub_of : Text → Option viper.Config → Option viper.Config
  sub_of name none = none
  sub_of name (some config) = viper.sub name config

  -- The value of the content, or else of the configuration.
  source_value : Text → Option viper.Config → Value → Value
  source_value target (some config) null = viper.get target config
  source_value target config v = v

  one_item : Value → Option Items → Items
  one_item v (some items) = items
  one_item null none = no_items
  one_item v none = item v no_items

  -- A slice, or the one value, or nothing for nil.
  slice_of : Value → Items
  unfolding one_item
  slice_of v = one_item v (viper.to_slice v)

  joined : MixinAppendToKey → Items → Items → Items
  unfolding append_items
  joined mixin_prepend source appendable = append_items appendable source
  joined operation source appendable = append_items source appendable

  append_to : Text × MixinAppendToKey → Option viper.Config → Value → Map Value → Map Value
  unfolding joined slice_of source_value lookup put
  append_to (target, operation) config v content =
      let source = source_value target config (value_or_null (lookup target content)) in
      put target (list_value (joined operation (slice_of source) (slice_of v))) content

  -- One round of revolveAppendToListKeys; `child` is the content that the recursive call leaves.
  resolve_key :
      Text
      → Value
      → Text × MixinAppendToKey
      → Option viper.Config
      → Map Value
      → Map Value
      → Map Value
  unfolding append_to remove holds_map fields_of lookup put
  resolve_key name v (target, mixin_no_append) config child content =
      if holds_map v && holds_map (value_or_null (lookup name content))
      then put name (map_value (fields_of child)) content
      else content
  resolve_key name v key config child content = append_to key config v (remove name content)

  -- The loop over the keys that the content has at first.
  unfoldable mutual
    unfolding resolve_key parse_append_to_list_key entries sub_of

    pub resolve_keys : Fields → Option viper.Config → Map Value → Map Value
    resolve_keys no_fields config content = content
    resolve_keys (field name v fields) config content = resolve_keys fields config (
        resolve_key name v (parse_append_to_list_key name) config
          (resolve_child v (sub_of name config)) content)

    pub resolve_child : Value → Option viper.Config → Map Value
    resolve_child (map_value child) config = resolve_keys child config (entries child)
    resolve_child null config = []
    resolve_child (string_value s) config = []
    resolve_child (scalar s) config = []
    resolve_child (list_value items) config = []

  -- revolveAppendToListKeys
  unfoldable pub resolve_append_to_list_keys : Option viper.Config → Fields → Fields
  unfolding resolve_keys fields_of entries
  resolve_append_to_list_keys config content =
      fields_of (resolve_keys content config (entries content))
