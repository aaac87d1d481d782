-- ===== src/Crond/Entry/Fields.antt =====
-- The fields in front of the command of an entry: bytes that neither end a line nor begin a comment.
use resticprofile.Base.{
  ℕ, suc, ◌+◌, ◌-◌, ◌≤◌, ◌≡◌, refl, Bool, false, true, not, ◌||◌, List, [], ◌∷◌, ◌++◌, map,
  append_assoc, arith, ◌==◌, ltb, leb, if◌then◌else◌, length, length-append, Text, codes, All,
  All-append, Bool-cases, inl, inr,
}
use resticprofile.Text.{join, two_digits, text_eq}
use resticprofile.Text.Numbers.{IsDigits, digits-Numeral, two_digits-Numeral}
use resticprofile.Calendar.Value.{Value, Range, get_ranges, get_range_values}
use resticprofile.Calendar.Event.{Event}
use resticprofile.Crond.Entry.{
  Entry, format_week_day, format_list, format_span, format_range, range_field, week_day_field,
  entry_string,
}

abbrev pub IsField : Text → Type 0
IsField = All (λ c. ((c == b'\n') ≡ false) × ((c == b'#') ≡ false))

digits-IsField : (s : Text) → IsDigits s → IsField s
digits-IsField [] h = tt
digits-IsField (c ∷ s) (h, hs) = ((ground (arith, h), ground (arith, h)), digits-IsField s hs)

append-IsField : (s t : Text) → IsField s → IsField t → IsField (s ++ t)
append-IsField s t hs ht =
    All-append (λ c. ((c == b'\n') ≡ false) × ((c == b'#') ≡ false)) s t hs ht

join-IsField : (ps : List Text) → All IsField ps → IsField (join b',' ps)
unfolding join
join-IsField [] h = tt
join-IsField (p ∷ []) h = h.0
join-IsField (p ∷ q ∷ ps) h =
    append-IsField p (b',' ∷ join b',' (q ∷ ps)) h.0 ((refl, refl), join-IsField (q ∷ ps) h.1)

two_digits-IsField : (n : ℕ) → IsField (two_digits n)
two_digits-IsField n = digits-IsField (two_digits n) ((two_digits-Numeral n).all_digits)

format_span-IsField : (r : Range) → IsField (format_span two_digits r)
unfolding format_span
format_span-IsField r = elim (Bool-cases (ltb (r.start + 1) r.end || ltb (r.end + 1) r.start)) [
  | inl e ↦ rw e (both b'-' refl refl)
  | inr e ↦ elim (Bool-cases (not (r.end == r.start))) [
    | inl f ↦ rw (e, f) (both b',' refl refl)
    | inr f ↦ rw (e, f) (two_digits-IsField r.start)
  ]
]
  where
    both :
        (c : ℕ)
        → (c == b'\n') ≡ false
        → (c == b'#') ≡ false
        → IsField (two_digits r.start ++ (c ∷ two_digits r.end))
    both c line hash =
        append-IsField (two_digits r.start) (c ∷ two_digits r.end) (two_digits-IsField r.start)
          ((line, hash), two_digits-IsField r.end)

map-IsField :
    {A : Type 0} (f : A → Text) (xs : List A) → ((x : A) → IsField (f x)) → All IsField (map f xs)
map-IsField f [] h = tt
map-IsField f (x ∷ xs) h = (h x, map-IsField f xs h)

either-IsField : (b : Bool) (s t : Text) → IsField s → IsField t → IsField (if b then s else t)
either-IsField true s t hs ht = hs
either-IsField false s t hs ht = ht

range_field-IsField : (v : Value) → IsField (range_field v)
unfolding range_field format_range
range_field-IsField v =
    either-IsField v.has_value (join b',' (map (format_span two_digits) (get_ranges v))) (codes "*")
      (join-IsField (map (format_span two_digits) (get_ranges v))
        (map-IsField (format_span two_digits) (get_ranges v) format_span-IsField))
      ((refl, refl), tt)

week_day_field-IsField : (v : Value) → IsField (week_day_field v)
unfolding week_day_field format_list format_week_day
week_day_field-IsField v =
    either-IsField v.has_value (join b',' (map format_week_day (get_range_values v))) (codes "*")
      (join-IsField (map format_week_day (get_range_values v)) (
        map-IsField format_week_day (get_range_values v) (λ n.
          digits-IsField (format_week_day n)
            ((digits-Numeral (if leb 7 n then n - 7 else n)).all_digits))))
      ((refl, refl), tt)

abbrev pub fields : Event → Text
fields e =
    range_field e.minutes
    ++ (b' ' ∷ range_field e.hours
        ++ (b' ' ∷ range_field e.days
            ++ (b' ' ∷ range_field e.months
                ++ (b' ' ∷ week_day_field e.week_days ++ (b'\t' ∷ [])))))

abbrev pub directory : Entry → Text
directory e = if text_eq e.work_dir [] then [] else codes "cd " ++ (e.work_dir ++ codes " && ")

-- Five fields and what follows them.
in_front :
    (a b c d e t : Text)
    → a ++ (b' ' ∷ b ++ (b' ' ∷ c ++ (b' ' ∷ d ++ (b' ' ∷ e ++ (b'\t' ∷ t)))))
      ≡ (a ++ (b' ' ∷ b ++ (b' ' ∷ c ++ (b' ' ∷ d ++ (b' ' ∷ e ++ (b'\t' ∷ [])))))) ++ t
in_front a b c d e t = simp append_assoc

blank-IsField : (s t : Text) → IsField s → IsField t → IsField (s ++ (b' ' ∷ t))
blank-IsField s t hs ht = append-IsField s (b' ' ∷ t) hs ((refl, refl), ht)

blank_longer : (s t : Text) → length (s ++ (b' ' ∷ t)) ≡ length s + suc (length t)
blank_longer s t = length-append s (b' ' ∷ t)

pub entry_string-fields :
    (e : Entry)
    → entry_string e ≡ fields e.event ++ (directory e ++ (e.command_line ++ (b'\n' ∷ [])))
unfolding entry_string
entry_string-fields e =
    in_front (range_field e.event.minutes) (range_field e.event.hours) (range_field e.event.days)
      (range_field e.event.months) (week_day_field e.event.week_days)
      (directory e ++ (e.command_line ++ (b'\n' ∷ [])))

pub fields-IsField : (e : Event) → IsField (fields e)
fields-IsField e =
    let week_days = week_day_field e.week_days ++ (b'\t' ∷ []) in
    let months = range_field e.months ++ (b' ' ∷ week_days) in
    let days = range_field e.days ++ (b' ' ∷ months) in
    let hours = range_field e.hours ++ (b' ' ∷ days) in
    let last : IsField week_days =
      append-IsField (week_day_field e.week_days) (b'\t' ∷ []) (week_day_field-IsField e.week_days)
        ((refl, refl), tt) in
    blank-IsField (range_field e.minutes) hours (range_field-IsField e.minutes) (
      blank-IsField (range_field e.hours) days (range_field-IsField e.hours) (
        blank-IsField (range_field e.days) months (range_field-IsField e.days)
          (blank-IsField (range_field e.months) week_days (range_field-IsField e.months) last)))

pub fields_long : (e : Event) → 2 ≤ length (fields e)
fields_long e =
    let week_days = week_day_field e.week_days ++ (b'\t' ∷ []) in
    let days = range_field e.days ++ (b' ' ∷ range_field e.months ++ (b' ' ∷ week_days)) in
    omega (
      arith,
      blank_longer (range_field e.minutes) (range_field e.hours ++ (b' ' ∷ days)),
      blank_longer (range_field e.hours) days,
    )
