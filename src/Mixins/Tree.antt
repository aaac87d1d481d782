-- ===== src/Mixins/Tree.antt =====
-- config/config_mixins.go: the values of a configuration, and a mixin that is filled in.
use resticprofile.Base.{
  ◌≡◌, false, [], ◌∷◌, ◌++◌, Option, none, some, if◌then◌else◌, Text, contains,
}
use resticprofile.Text.{text_eq, to_upper}
use resticprofile.Text.Maps.{Map, lookup}
use resticprofile.Mixins.Expansion.{dollar, expand, is_empty}
use resticprofile.Mixins.Expansion.Substitution.{expand-substitutes}

-- What a configuration file holds; a scalar that is no string comes with its text.
mutual
  pub data Value : Type 0 where
    null : Value
    string_value : Text → Value
    scalar : Text → Value
    list_value : Items → Value
    map_value : Fields → Value

  pub data Items : Type 0 where
    no_items : Items
    item : Value → Items → Items

  pub data Fields : Type 0 where
    no_fields : Fields
    field : Text → Value → Fields → Fields

pub record Mixin : Type 0 where
  pub default_variables : Map Value
  pub source : Fields

-- A variable that is there and not nil.
set_value : Option Value → Option Value
set_value (some null) = none
set_value o = o

or_default : Option Value → Option Value → Option Value
or_default (some v) o = some v
or_default none o = o

-- cast.ToStringE, which refuses lists and maps.
text_of : Value → Option Text
text_of (string_value s) = some s
text_of (scalar s) = some s
text_of v = none

retained : Text → Text
retained name = dollar ∷ b'{' ∷ (name ++ (b'}' ∷ []))

text_or_retained : Text → Option Text → Text
unfolding retained
text_or_retained name none = retained name
text_or_retained name (some s) = s

replaced : Text → Option Value → Text
unfolding text_of text_or_retained retained
replaced name none = retained name
replaced name (some v) = text_or_retained name (text_of v)

module _ (m : Mixin) (variables : Map Value) where
  -- What a name is replaced by: a variable, a default, or the name as it was.
  unfoldable pub replacement : Text → Text
  unfolding replaced set_value or_default to_upper lookup text_eq
  replacement name =
      if text_eq name (dollar ∷ [])
      then dollar ∷ []
      else replaced name (
          or_default (set_value (lookup (to_upper name) variables))
            (set_value (lookup (to_upper name) m.default_variables)))

  unfoldable pub expand_variables : Text → Text
  unfolding expand replacement
  expand_variables = expand replacement

  -- The values of a list; a list inside a list is kept.
  unfoldable mutual
    unfolding expand_variables

    pub translate : Fields → Fields
    translate no_fields = no_fields
    translate (field name v fields) = field name (translate_value v) (translate fields)

    pub translate_value : Value → Value
    translate_value (map_value fields) = map_value (translate fields)
    translate_value (string_value s) = string_value (expand_variables s)
    translate_value (list_value items) = list_value (translate_items items)
    translate_value null = null
    translate_value (scalar s) = scalar s

    pub translate_items : Items → Items
    translate_items no_items = no_items
    translate_items (item v items) = item (translate_item v) (translate_items items)

    pub translate_item : Value → Value
    translate_item (string_value s) = string_value (expand_variables s)
    translate_item (map_value fields) = map_value (translate fields)
    translate_item null = null
    translate_item (scalar s) = scalar s
    translate_item (list_value items) = list_value items

  -- Resolve
  unfoldable pub resolve : Fields
  unfolding translate
  resolve = translate m.source

  -- For a text without a dollar, a name that is not empty and has no closing brace, and any text
  -- behind: expandVariables replaces the name in braces by the variable of that name in upper case, or
  -- else by the default, or keeps it, leaves the text before, and expands what is behind on its own.
  pub expand_variables-substitutes :
      (before name after : Text)
      → contains dollar before ≡ false
      → contains b'}' name ≡ false
      → is_empty name ≡ false
      → expand_variables (before ++ (dollar ∷ b'{' ∷ (name ++ (b'}' ∷ after))))
        ≡ before ++ (replacement name ++ expand_variables after)
  unfolding expand_variables
  expand_variables-substitutes = expand-substitutes replacement
