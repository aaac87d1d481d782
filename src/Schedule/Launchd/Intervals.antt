-- ===== src/Schedule/Launchd/Intervals.antt =====
-- The calendar intervals of launchd are the choices of one number for each field that has some.
use mathlib.Core.Path.{subst}
use resticprofile.Base.{
  ℕ, zero, suc, ◌≤◌, ◌≡◌, refl, sym, ap, ◌∙◌, List, [], ◌∷◌, ◌++◌, Option, none, some, arith,
  length, append-nil, append_assoc,
}
use resticprofile.Calendar.Value.{TypeValue}
use resticprofile.Calendar.Event.{Event}
use resticprofile.Schedule.Launchd.{
  Address, Store, Growing, allocate, set_sub_elements, get_elements, extend_row, attach, add_level,
  add_levels, current_elements, values_order, levels_of, generate_tree_of_schedules, empty_store,
  CalendarInterval, set_value_from_type, fill_each, fill_children, fill_element, fill_in_value,
  get_intervals_from_tree, get_intervals_from_schedules,
}
use resticprofile.Schedule.Launchd.Elements.{element, Reads}
use resticprofile.Schedule.Launchd.Layers.{Level, Layered, extended-Layered, first-Layered}

abbrev pub flat_map {ℓ κ} : {A : Type ℓ} {B : Type κ} → (A → List B) → List A → List B
flat_map f [] = []
flat_map f (x ∷ xs) = f x ++ flat_map f xs

-- One entry for each choice of a number at every level.
abbrev pub choices : CalendarInterval → List Level → List CalendarInterval
choices entry [] = entry ∷ []
choices entry ((t, vs) ∷ rest) = flat_map (λ v. choices (set_value_from_type v t entry) rest) vs

-- The levels that have a number.
abbrev pub present : List Level → List Level
present [] = []
present ((t, []) ∷ rest) = present rest
present ((t, v ∷ vs) ∷ rest) = (t, v ∷ vs) ∷ present rest

-- An event without a number at any level has no interval.
abbrev pub intervals_of_levels : List Level → List CalendarInterval
intervals_of_levels [] = []
intervals_of_levels (level ∷ rest) = choices [] (level ∷ rest)

fill_each-Reads :
    (fill : Address → List CalendarInterval → Option (List CalendarInterval))
    (found : ℕ → List CalendarInterval) (h : Store) (t : TypeValue) (subs : List Address)
    (places : List Address) (values : List ℕ) (entries : List CalendarInterval)
    → ((a : Address) (v : ℕ) (before : List CalendarInterval)
        → h.at a ≡ element t subs v
        → fill a before ≡ some (before ++ found v))
    → Reads h t subs places values
    → fill_each fill places entries ≡ some (entries ++ flat_map found values)
unfolding fill_each
fill_each-Reads fill found h t subs [] [] entries each r = ap some (sym (append-nil entries))
fill_each-Reads fill found h t subs [] (v ∷ vs) entries each r = absurd r
fill_each-Reads fill found h t subs (a ∷ places) [] entries each r = absurd r
fill_each-Reads fill found h t subs (a ∷ places) (v ∷ vs) entries each r =
    rw (each a v entries r.0, fill_each)
      (fill_each-Reads fill found h t subs places vs (entries ++ found v) each r.1
        ∙ ap some (append_assoc entries (found v) (flat_map found vs)))

fill_in-Layered :
    (rest : List Level) (fuel : ℕ) (h : Store) (places : List Address) (t : TypeValue) (vs : List ℕ)
    (row : List Address) (entry : CalendarInterval) (entries : List CalendarInterval)
    → length rest ≤ fuel
    → Layered h places (t, vs) rest row
    → fill_each (fill_in_value (suc fuel) h entry) places entries
      ≡ some (entries ++ choices entry ((t, vs) ∷ rest))
unfolding fill_in_value fill_element fill_children
fill_in-Layered [] fuel h places t vs row entry entries l (r, _) =
    fill_each-Reads (fill_in_value (suc fuel) h entry)
      (λ v. choices (set_value_from_type v t entry) []) h t [] places vs entries
      (λ a v before e. ap (λ x. fill_element (fill_in_value fuel h) entry x before) e) r
fill_in-Layered (level ∷ rest) zero h places t vs row entry entries l layers =
    absurd (omega (arith, l))
fill_in-Layered ((u, us) ∷ rest) (suc fuel) h places t vs row entry entries l
      (b, (bs, (r, (apart, below)))) =
    fill_each-Reads (fill_in_value (suc (suc fuel)) h entry)
      (λ v. choices (set_value_from_type v t entry) ((u, us) ∷ rest)) h t (b ∷ bs) places vs entries
      (λ a v before e.
        ap (λ x. fill_element (fill_in_value (suc fuel) h) entry x before) e
        ∙ fill_in-Layered rest fuel h (b ∷ bs) u us row (set_value_from_type v t entry) before
            (omega (arith, l)) below)
      r

-- The levels done so far stand in the store, below the root elements.
abbrev Built : Growing → List Level → Type 0
Built g [] = (g.elements ≡ []) × (g.row ≡ none)
Built g (level ∷ rest) =
    (r : Address) × ((others : List Address) × ((current_elements g ≡ r ∷ others)
        × Layered g.store g.elements level rest (r ∷ others)))

current-none : (g : Growing) → g.row ≡ none → current_elements g ≡ g.elements
unfolding current_elements
current-none g n = rw n refl

attach-Built :
    (g : Growing) (levels : List Level) (t : TypeValue) (v : ℕ) (vs : List ℕ)
    → Built g levels
    → Built (add_level t (v ∷ vs) g) (levels ++ ((t, v ∷ vs) ∷ []))
unfolding add_level get_elements attach extend_row current_elements
attach-Built g [] t v vs (e, n) =
    let made = get_elements (v ∷ vs) t g.store in
    let g' : Growing = record g { store = made.1; elements = made.0 } in
    let built : Built g' ((t, v ∷ vs) ∷ []) = (
      g.store.next,
      (
        (get_elements vs t (allocate (element t [] v) g.store).1).0,
        (current-none g' n, first-Layered g.store t v vs),
      ),
    ) in
    subst (λ x. Built (attach made g x) ((t, v ∷ vs) ∷ [])) (sym (current-none g n ∙ e)) built
attach-Built g (level ∷ rest) t v vs (r, (others, (e, layers))) =
    let made = get_elements (v ∷ vs) t g.store in
    subst (λ x. Built (attach made g x) (level ∷ (rest ++ ((t, v ∷ vs) ∷ [])))) (sym e)
      (
        g.store.next,
        (
          (get_elements vs t (allocate (element t [] v) g.store).1).0
              ++ (extend_row made.0 others (set_sub_elements made.0 r made.1)).0,
          (refl, extended-Layered g.store r others t v vs g.elements level rest layers),
        ),
      )

add_levels-Built :
    (levels : List Level) (g : Growing) (done : List Level)
    → Built g done
    → Built (add_levels levels g) (done ++ present levels)
unfolding add_levels add_level
add_levels-Built [] g done b = subst (Built g) (sym (append-nil done)) b
add_levels-Built ((t, []) ∷ levels) g done b = add_levels-Built levels g done b
add_levels-Built ((t, v ∷ vs) ∷ levels) g done b =
    subst (Built (add_levels ((t, v ∷ vs) ∷ levels) g))
      (append_assoc done ((t, v ∷ vs) ∷ []) (present levels))
      (add_levels-Built levels (add_level t (v ∷ vs) g) (done ++ ((t, v ∷ vs) ∷ []))
        (attach-Built g done t v vs b))

length-present : (levels : List Level) → length (present levels) ≤ length levels
length-present [] = omega arith
length-present ((t, []) ∷ levels) = omega (arith, length-present levels)
length-present ((t, v ∷ vs) ∷ levels) = omega (arith, length-present levels)

intervals_of_tree :
    (h : Store) (elements : List Address) (row : Option (List Address)) (levels : List Level)
    → length levels ≤ 5
    → Built (record { store = h; elements = elements; row = row }) levels
    → get_intervals_from_tree (h, elements) ≡ some (intervals_of_levels levels)
unfolding get_intervals_from_tree
intervals_of_tree h elements row [] l (e, n) = ap (λ x. fill_each (fill_in_value 5 h []) x []) e
intervals_of_tree h elements row ((t, vs) ∷ rest) l (r, (others, (e, layers))) =
    fill_in-Layered rest 4 h elements t vs (r ∷ others) [] [] (omega (arith, l)) layers

-- The intervals of an event, by the numbers of its months, days, days of the week, hours and minutes.
abbrev pub intervals_of : Event → List CalendarInterval
intervals_of e = intervals_of_levels (present (levels_of e values_order))

intervals_of_event :
    (e : Event) → get_intervals_from_tree (generate_tree_of_schedules e) ≡ some (intervals_of e)
unfolding generate_tree_of_schedules levels_of
intervals_of_event e =
    let levels = levels_of e values_order in
    let start : Growing = record { store = empty_store; elements = []; row = none } in
    let g = add_levels levels start in
    intervals_of_tree g.store g.elements g.row (present levels)
      (omega (arith, length-present levels)) (add_levels-Built levels start [] (refl, refl))

-- launchd is given, for each event in turn, one interval for each choice of one number from each of
-- the months, days, days of the week, hours and minutes that the event names, and none for an event
-- that names none of these; the shared elements of the tree, and the five levels of the fuel, do not
-- show.
pub get_intervals-choices :
    (schedules : List Event)
    → get_intervals_from_schedules schedules ≡ some (flat_map intervals_of schedules)
unfolding get_intervals_from_schedules
get_intervals-choices [] = refl
get_intervals-choices (e ∷ rest) =
    rw (intervals_of_event e, get_intervals_from_schedules, get_intervals-choices rest) refl
