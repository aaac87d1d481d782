-- ===== src/Calendar/Value/Adding.antt =====
-- Actions that succeed and add a given set of numbers: the rules to build them.
use resticprofile.Base.{
  ℕ, zero, suc, ◌+◌, ◌-◌, ◌≤◌, ◌≡◌, ◌≢◌, ◌⊎◌, refl, ◌∙◌, Bool, false, ◌||◌, ◌&&◌, Option, none,
  List, [], ◌∷◌, arith, ltb, leb, ◌==◌, All, Act, Keeps, Keeps->>, ◌>>◌, skip, each, >>-ok,
  Bool-cases, inl, inr,
}
use resticprofile.Calendar.Value.{Value, ValueError, add_value, add_values, add_range, is_in_range}
use resticprofile.Calendar.Value.Bounds.{IsValid, InBounds, add_range-IsValid, insert_value-IsValid}
use resticprofile.Calendar.Value.Members.{is_in_range-insert_value}
use resticprofile.Calendar.Value.Spans.{
  within, add_range_adds, InBounds-dec, add_value_stops, add_value_runs, insert_value_bounds,
}

-- A valid Value between the bounds `lo` and `hi`.
pub record Ready (lo hi : ℕ) (v : Value) : Type 0 where
  pub is_valid : IsValid v
  pub low : v.min_range ≡ lo
  pub high : v.max_range ≡ hi

pub record Added (lo hi : ℕ) (p : ℕ → Bool) (v : Value) (r : Value × Option ValueError)
    : Type 0 where
  pub succeeds : r.1 ≡ none
  pub stays : Ready lo hi r.0
  pub members : (y : ℕ) → is_in_range y r.0 ≡ (p y || is_in_range y v)

abbrev pub Adds : ℕ → ℕ → (ℕ → Bool) → Act ValueError Value → Type 0
Adds lo hi p m = (v : Value) → Ready lo hi v → Added lo hi p v (m v)

abbrev pub any_of {ℓ} : {A : Type ℓ} → (A → ℕ → Bool) → List A → ℕ → Bool
any_of f [] y = false
any_of f (x ∷ xs) y = f x y || any_of f xs y

module _ (lo hi : ℕ) where
  pub skip-Adds : Adds lo hi (λ y. false) skip
  skip-Adds v h = record { succeeds = refl; stays = h; members = λ y. refl }

  after-Added :
      (m : Value × Option ValueError) (f : Act ValueError Value) (p q : ℕ → Bool) (v : Value)
      → Added lo hi p v m
      → Added lo hi q m.0 (f m.0)
      → Added lo hi (λ y. p y || q y) v (f m.0)
  after-Added m f p q v a b = record {
    succeeds = b.succeeds;
    stays = b.stays;
    members = λ y. ground (arith, a.members y, b.members y);
  }

  pub >>-Adds :
      (m f : Act ValueError Value) (p q : ℕ → Bool)
      → Adds lo hi p m
      → Adds lo hi q f
      → Adds lo hi (λ y. p y || q y) (m >> f)
  >>-Adds m f p q hm hf v h =
      let a = hm v h in
      let e : (m >> f) v ≡ f (m v).0 = >>-ok m f (λ i. ((m v).0, a.succeeds i)) in
      rw e (after-Added (m v) f p q v a (hf (m v).0 a.stays))

  pub each-Adds {ℓ} :
      {A : Type ℓ} (f : A → Act ValueError Value) (p : A → ℕ → Bool) (Good : A → Type 0)
      (xs : List A)
      → ((x : A) → Good x → Adds lo hi (p x) (f x))
      → All Good xs
      → Adds lo hi (any_of p xs) (each f xs)
  unfolding each
  each-Adds f p Good [] k g = skip-Adds
  each-Adds f p Good (x ∷ xs) k g =
      >>-Adds (f x) (each f xs) (p x) (any_of p xs) (k x g.0) (each-Adds f p Good xs k g.1)

  pub add_value-Adds : (n : ℕ) → lo ≤ n → n ≤ hi → Adds lo hi (λ y. n == y) (add_value n)
  add_value-Adds n a b v h =
      let ok : InBounds n v = (omega (arith, h.low), omega (arith, h.high)) in
      let same = insert_value_bounds v n in
      rw (add_value_runs v n ok) (record {
        succeeds = refl;
        stays = record {
          is_valid = insert_value-IsValid n h.is_valid ok;
          low = same.0 ∙ h.low;
          high = same.1 ∙ h.high;
        };
        members = λ y. is_in_range-insert_value v n y h.is_valid ok;
      })

abbrev HasBounds : ℕ → ℕ → Value → Type 0
HasBounds lo hi v = (v.min_range ≡ lo) × (v.max_range ≡ hi)

module _ (lo hi : ℕ) where
  add_value-HasBounds : (n : ℕ) → Keeps (HasBounds lo hi) (add_value n)
  add_value-HasBounds n v h = elim (InBounds-dec n v) [
    | inl b ↦
        let same = insert_value_bounds v n in rw (add_value_runs v n b) (same.0 ∙ h.0, same.1 ∙ h.1)
    | inr o ↦ let (x, e) = add_value_stops v n o in rw e h
  ]

  add_values-HasBounds : (rounds i : ℕ) → Keeps (HasBounds lo hi) (add_values rounds i)
  unfolding add_values
  add_values-HasBounds zero i v h = h
  add_values-HasBounds (suc rounds) i v h =
      Keeps->> (HasBounds lo hi) (add_value i) (add_values rounds (i + 1)) (add_value-HasBounds i)
        (add_values-HasBounds rounds (i + 1)) v h

  add_range-HasBounds : (start end : ℕ) → Keeps (HasBounds lo hi) (add_range start end)
  unfolding add_range
  add_range-HasBounds start end v h = elim (Bool-cases (ltb end start)) [
    | inl e ↦ rw e (add_values-HasBounds (start + 1 - end) end v h)
    | inr e ↦ rw e (add_values-HasBounds (end + 1 - start) start v h)
  ]

  pub add_range-Adds :
      (start end : ℕ)
      → lo ≤ start
      → start ≤ end
      → end ≤ hi
      → Adds lo hi (λ y. leb start y && leb y end) (add_range start end)
  add_range-Adds start end a o b v h =
      let r = exact (add_range_adds v start end h.is_valid) in
      let same = add_range-HasBounds start end v (h.low, h.high) in
      record {
        succeeds = r.0;
        stays = record {
          is_valid = add_range-IsValid start end v h.is_valid;
          low = same.0;
          high = same.1;
        };
        members = λ y. ground (arith, r.1 y);
      }
    where
      exact :
          (InBounds start v
              × InBounds end v
              × ((add_range start end v).1 ≡ none)
              × ((y : ℕ)
                  → is_in_range y (add_range start end v).0
                    ≡ (within start end y || is_in_range y v)))
            ⊎ (¬ (InBounds start v × InBounds end v) × ((add_range start end v).1 ≢ none))
          → ((add_range start end v).1 ≡ none)
            × ((y : ℕ)
                → is_in_range y (add_range start end v).0 ≡ (within start end y || is_in_range y v))
      exact (inl (_, _, succeeds, adds)) = (succeeds, adds)
      exact (inr (out, _)) = absurd (
          out (
            (omega (arith, h.low), omega (arith, h.high)),
            (omega (arith, h.low), omega (arith, h.high)),
          ))
