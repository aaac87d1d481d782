-- ===== src/Calendar/Event/Rules/Fields.antt =====
-- What it is for the fields of an event to be valid, and the keywords that change one field of it.
use resticprofile.Base.{Act, Keeps}
use resticprofile.Calendar.Value.{Value, ValueError, TypeValue}
use resticprofile.Calendar.Value.Bounds.{IsValid, new_value_from_type-IsValid}
use resticprofile.Calendar.Event.{Event, new_event}
use resticprofile.Calendar.Event.Keywords.{
  on_week_days, on_years, on_months, on_days, on_hours, on_minutes, on_seconds,
}

pub record IsValidEvent (e : Event) : Type 0 where
  pub week_days_valid : IsValid e.week_days
  pub years_valid : IsValid e.years
  pub months_valid : IsValid e.months
  pub days_valid : IsValid e.days
  pub hours_valid : IsValid e.hours
  pub minutes_valid : IsValid e.minutes
  pub seconds_valid : IsValid e.seconds

pub new_event-IsValidEvent : IsValidEvent new_event
new_event-IsValidEvent = record {
  week_days_valid = new_value_from_type-IsValid TypeValue.week_day;
  years_valid = new_value_from_type-IsValid TypeValue.year;
  months_valid = new_value_from_type-IsValid TypeValue.month;
  days_valid = new_value_from_type-IsValid TypeValue.day;
  hours_valid = new_value_from_type-IsValid TypeValue.hour;
  minutes_valid = new_value_from_type-IsValid TypeValue.minute;
  seconds_valid = new_value_from_type-IsValid TypeValue.second;
}

module _ (m : Act ValueError Value) (k : Keeps IsValid m) where
  pub on_week_days-IsValidEvent : Keeps IsValidEvent (on_week_days m)
  on_week_days-IsValidEvent e h = record {
    week_days_valid = k e.week_days h.week_days_valid;
    years_valid = h.years_valid;
    months_valid = h.months_valid;
    days_valid = h.days_valid;
    hours_valid = h.hours_valid;
    minutes_valid = h.minutes_valid;
    seconds_valid = h.seconds_valid;
  }

  pub on_years-IsValidEvent : Keeps IsValidEvent (on_years m)
  on_years-IsValidEvent e h = record {
    week_days_valid = h.week_days_valid;
    years_valid = k e.years h.years_valid;
    months_valid = h.months_valid;
    days_valid = h.days_valid;
    hours_valid = h.hours_valid;
    minutes_valid = h.minutes_valid;
    seconds_valid = h.seconds_valid;
  }

  pub on_months-IsValidEvent : Keeps IsValidEvent (on_months m)
  on_months-IsValidEvent e h = record {
    week_days_valid = h.week_days_valid;
    years_valid = h.years_valid;
    months_valid = k e.months h.months_valid;
    days_valid = h.days_valid;
    hours_valid = h.hours_valid;
    minutes_valid = h.minutes_valid;
    seconds_valid = h.seconds_valid;
  }

  pub on_days-IsValidEvent : Keeps IsValidEvent (on_days m)
  on_days-IsValidEvent e h = record {
    week_days_valid = h.week_days_valid;
    years_valid = h.years_valid;
    months_valid = h.months_valid;
    days_valid = k e.days h.days_valid;
    hours_valid = h.hours_valid;
    minutes_valid = h.minutes_valid;
    seconds_valid = h.seconds_valid;
  }

  pub on_hours-IsValidEvent : Keeps IsValidEvent (on_hours m)
  on_hours-IsValidEvent e h = record {
    week_days_valid = h.week_days_valid;
    years_valid = h.years_valid;
    months_valid = h.months_valid;
    days_valid = h.days_valid;
    hours_valid = k e.hours h.hours_valid;
    minutes_valid = h.minutes_valid;
    seconds_valid = h.seconds_valid;
  }

  pub on_minutes-IsValidEvent : Keeps IsValidEvent (on_minutes m)
  on_minutes-IsValidEvent e h = record {
    week_days_valid = h.week_days_valid;
    years_valid = h.years_valid;
    months_valid = h.months_valid;
    days_valid = h.days_valid;
    hours_valid = h.hours_valid;
    minutes_valid = k e.minutes h.minutes_valid;
    seconds_valid = h.seconds_valid;
  }

  pub on_seconds-IsValidEvent : Keeps IsValidEvent (on_seconds m)
  on_seconds-IsValidEvent e h = record {
    week_days_valid = h.week_days_valid;
    years_valid = h.years_valid;
    months_valid = h.months_valid;
    days_valid = h.days_valid;
    hours_valid = h.hours_valid;
    minutes_valid = h.minutes_valid;
    seconds_valid = k e.seconds h.seconds_valid;
  }
