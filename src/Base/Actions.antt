-- ===== src/Base/Actions.antt =====
-- An action on a mutable object that may return an error: the object as the action leaves it, and
-- the error if there is one. What was written before an error stays written.
use mathlib.Core.Path.{◌≡◌, refl}
use mathlib.Core.Option.{Option, none, some}
use mathlib.Core.List.{List, [], ◌∷◌, map}
use mathlib.Core.Bool.{Bool, true, false}
use resticprofile.Base.Tests.{if◌then◌else◌}
use resticprofile.Base.Lists.{All}

abbrev pub Act {ℓ} : Type ℓ → Type ℓ → Type ℓ
Act E S = S → S × Option E

module _ {ℓ} {E S : Type ℓ} where
  -- `if err != nil { return err }` between two statements.
  infixl 5 ◌>>◌
  abbrev after : S × Option E → Act E S → S × Option E
  after (s, none) f = f s
  after (s, some e) f = (s, some e)

  abbrev pub ◌>>◌ : Act E S → Act E S → Act E S
  ◌>>◌ m f s = after (m s) f

  abbrev pub skip : Act E S
  skip s = (s, none)

  abbrev pub fail : E → Act E S
  fail e s = (s, some e)

  -- A loop that stops at the first error.
  unfoldable pub each {κ} : {A : Type κ} → (A → Act E S) → List A → Act E S
  each f [] = skip
  each f (x ∷ xs) = f x >> each f xs

-- The action keeps `P`, whether it succeeds or not.
abbrev pub Keeps {ℓ κ} : {E S : Type ℓ} → (S → Type κ) → Act E S → Type (ℓ ⊔ κ)
Keeps {S = S} P m = (s : S) → P s → P (m s).0

module _ {ℓ κ} {E S : Type ℓ} (P : S → Type κ) where
  Keeps-after : (r : S × Option E) (f : Act E S) → P r.0 → Keeps P f → P (after r f).0
  Keeps-after (s, none) f h k = k s h
  Keeps-after (s, some e) f h k = h

  pub Keeps->> : (m f : Act E S) → Keeps P m → Keeps P f → Keeps P (m >> f)
  Keeps->> m f km kf s h = Keeps-after (m s) f (km s h) kf

  pub Keeps-if : (b : Bool) (m n : Act E S) → Keeps P m → Keeps P n → Keeps P (if b then m else n)
  Keeps-if true m n km kn = km
  Keeps-if false m n km kn = kn

  pub Keeps-each {μ} :
      {A : Type μ} (f : A → Act E S) (xs : List A) → ((a : A) → Keeps P (f a)) → Keeps P (each f xs)
  unfolding each
  Keeps-each f [] k s h = h
  Keeps-each f (x ∷ xs) k s h = Keeps->> (f x) (each f xs) (k x) (Keeps-each f xs k) s h

  pub Keeps-each-All {μ} :
      {A : Type μ} (f : A → Act E S) (xs : List A)
      → All (λ a. Keeps P (f a)) xs
      → Keeps P (each f xs)
  unfolding each
  Keeps-each-All f [] k s h = h
  Keeps-each-All f (x ∷ xs) k s h = Keeps->> (f x) (each f xs) k.0 (Keeps-each-All f xs k.1) s h

module _ {ℓ} {E S : Type ℓ} where
  -- A first action that succeeds, and the state that it leaves, decide the rest.
  pub >>-ok : (m f : Act E S) {s t : S} → m s ≡ (t, none) → (m >> f) s ≡ f t
  >>-ok m f e = rw e

  -- The error of the first action is the error of both.
  pub >>-err : (m f : Act E S) {s t : S} {x : E} → m s ≡ (t, some x) → (m >> f) s ≡ (t, some x)
  >>-err m f e = rw e

  after-same : (r : S × Option E) (f g : Act E S) → ((t : S) → f t ≡ g t) → after r f ≡ after r g
  after-same (t, none) f g h = h t
  after-same (t, some e) f g h = refl

  pub each-map {κ μ} :
      {A : Type κ} {B : Type μ} (f : B → Act E S) (g : A → B) (xs : List A) (s : S)
      → each f (map g xs) s ≡ each (λ x. f (g x)) xs s
  unfolding each
  each-map f g [] s = refl
  each-map f g (x ∷ xs) s =
      after-same (f (g x) s) (each f (map g xs)) (each (λ x. f (g x)) xs) (each-map f g xs)
