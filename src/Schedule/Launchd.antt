-- ===== src/Schedule/Launchd.antt =====
-- schedule/tree_darwin.go and schedule/handler_darwin.go: the calendar intervals of launchd for the
-- events of a job. The elements of the tree stand in a store, since they are shared: the elements of
-- a field are the same pointers below each element of the field before.
pub mod Elements
pub mod Layers
pub mod Intervals
pub mod Keys
pub mod Holding
use mathlib.Core.Option
use resticprofile.Base.{
  ℕ, zero, suc, ◌+◌, Bool, true, false, not, ◌&&◌, List, [], ◌∷◌, ◌++◌, Option, none, some, ◌==◌,
  if◌then◌else◌, Text, codes,
}
use resticprofile.Text.{text_eq}
use resticprofile.Text.Maps.{Map, put}
use resticprofile.Calendar.Value.{
  TypeValue, week_day, month, day, hour, minute, Value, get_range_values,
}
use resticprofile.Calendar.Event.{Event, field}

-- A pointer to an element.
abbrev pub Address : Type 0
Address = ℕ

pub record TreeElement : Type 0 where
  pub value : ℕ
  pub element_type : TypeValue
  pub sub_elements : List Address

-- The elements that exist have the addresses below `next`.
pub record Store : Type 0 where
  pub at : Address → TreeElement
  pub next : Address

unfoldable pub allocate : TreeElement → Store → Address × Store
allocate e h = (h.next, record { at = λ a. if h.next == a then e else h.at a; next = h.next + 1 })

-- `element.subElements = ...`
unfoldable pub set_sub_elements : List Address → Address → Store → Store
set_sub_elements subs a h = record h {
  at = λ b. if a == b then record (h.at b) { sub_elements = subs } else h.at b;
}

unfoldable pub get_elements : List ℕ → TypeValue → Store → List Address × Store
unfolding allocate
get_elements [] t h = ([], h)
get_elements (v ∷ values) t h =
    let (a, h1) = allocate (record { value = v; element_type = t; sub_elements = [] }) h in
    let (rest, h2) = get_elements values t h1 in (a ∷ rest, h2)

-- The state of the loop. The row is none while currentElements points to the root elements.
pub record Growing : Type 0 where
  pub store : Store
  pub elements : List Address
  pub row : Option (List Address)

unfoldable pub current_elements : Growing → List Address
current_elements g = elim g.row [ none ↦ g.elements | some row ↦ row ]

-- Each element of the row takes the new elements for its children, and the children make the next
-- row.
unfoldable pub extend_row : List Address → List Address → Store → List Address × Store
unfolding set_sub_elements
extend_row sub_tree [] h = ([], h)
extend_row sub_tree (a ∷ row) h =
    let (rest, h1) = extend_row sub_tree row (set_sub_elements sub_tree a h) in
    (sub_tree ++ rest, h1)

-- The new elements below the current ones, or as the roots.
unfoldable pub attach : List Address × Store → Growing → List Address → Growing
unfolding extend_row
attach (sub_tree, h) g [] = record g { store = h; elements = sub_tree }
attach (sub_tree, h) g (a ∷ row) =
    let (new_row, h1) = extend_row sub_tree (a ∷ row) h in
    record g { store = h1; row = some new_row }

-- One type of value, with the numbers of its field.
unfoldable pub add_level : TypeValue → List ℕ → Growing → Growing
unfolding get_elements current_elements attach
add_level t [] g = g
add_level t (v ∷ values) g = attach (get_elements (v ∷ values) t g.store) g (current_elements g)

unfoldable pub add_levels : List (TypeValue × List ℕ) → Growing → Growing
unfolding add_level
add_levels [] g = g
add_levels ((t, values) ∷ rest) g = add_levels rest (add_level t values g)

abbrev pub values_order : List TypeValue
values_order = month ∷ day ∷ week_day ∷ hour ∷ minute ∷ []

-- The numbers of a field; every type of valuesOrder is a field.
unfoldable pub values_of : Event → TypeValue → List ℕ
unfolding field get_range_values
values_of e t = elim (field t e) [ none ↦ [] | some v ↦ get_range_values v ]

unfoldable pub levels_of : Event → List TypeValue → List (TypeValue × List ℕ)
unfolding values_of
levels_of e [] = []
levels_of e (t ∷ ts) = (t, values_of e t) ∷ levels_of e ts

abbrev pub no_element : TreeElement
no_element = record { value = 0; element_type = TypeValue.unknown_type; sub_elements = [] }

abbrev pub empty_store : Store
empty_store = record { at = λ a. no_element; next = 0 }

unfoldable pub generate_tree_of_schedules : Event → Store × List Address
unfolding add_levels levels_of
generate_tree_of_schedules e =
    let g =
      add_levels (levels_of e values_order)
        (record { store = empty_store; elements = []; row = none }) in
    (g.store, g.elements)

abbrev pub CalendarInterval : Type 0
CalendarInterval = Map ℕ

unfoldable pub set_value_from_type : ℕ → TypeValue → CalendarInterval → CalendarInterval
unfolding put
set_value_from_type value week_day entry = put (codes "Weekday") value entry
set_value_from_type value month entry = put (codes "Month") value entry
set_value_from_type value day entry = put (codes "Day") value entry
set_value_from_type value hour entry = put (codes "Hour") value entry
set_value_from_type value minute entry = put (codes "Minute") value entry
set_value_from_type value _ entry = entry

-- A loop over the elements that adds to the entries.
unfoldable pub fill_each :
    (Address → List CalendarInterval → Option (List CalendarInterval))
    → List Address
    → List CalendarInterval
    → Option (List CalendarInterval)
fill_each fill [] entries = some entries
fill_each fill (a ∷ rest) entries = elim (fill a entries) [
  | none ↦ none
  | some entries' ↦ fill_each fill rest entries'
]

-- An element without children finishes its entry. A clone of the entry is the same list.
unfoldable pub fill_children :
    (CalendarInterval → Address → List CalendarInterval → Option (List CalendarInterval))
    → CalendarInterval
    → List Address
    → List CalendarInterval
    → Option (List CalendarInterval)
unfolding fill_each
fill_children fill entry [] entries = some (entries ++ (entry ∷ []))
fill_children fill entry (a ∷ rest) entries = fill_each (fill entry) (a ∷ rest) entries

unfoldable pub fill_element :
    (CalendarInterval → Address → List CalendarInterval → Option (List CalendarInterval))
    → CalendarInterval
    → TreeElement
    → List CalendarInterval
    → Option (List CalendarInterval)
unfolding fill_children set_value_from_type
fill_element fill entry e entries =
    fill_children fill (set_value_from_type e.value e.element_type entry) e.sub_elements entries

-- The entries of an element and of those below it, added to `entries`; none when the tree is deeper
-- than the fuel.
unfoldable pub fill_in_value :
    (fuel : ℕ)
    → Store
    → CalendarInterval
    → Address
    → List CalendarInterval
    → Option (List CalendarInterval)
unfolding fill_element
fill_in_value zero h entry a entries = none
fill_in_value (suc fuel) h entry a entries =
    fill_element (fill_in_value fuel h) entry (h.at a) entries

unfoldable pub get_intervals_from_tree : Store × List Address → Option (List CalendarInterval)
unfolding fill_in_value fill_each
get_intervals_from_tree (h, tree) = fill_each (fill_in_value 5 h []) tree []

unfoldable pub get_intervals_from_schedules : List Event → Option (List CalendarInterval)
unfolding get_intervals_from_tree generate_tree_of_schedules
get_intervals_from_schedules [] = some []
get_intervals_from_schedules (schedule ∷ rest) =
    elim (get_intervals_from_tree (generate_tree_of_schedules schedule)) [
      | none ↦ none
      | some entries ↦ Option.map (λ others. entries ++ others) (get_intervals_from_schedules rest)
    ]
