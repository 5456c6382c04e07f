-- ===== src/Common/Result.antt =====
-- A value or an exception, and actions on a state that return one.
use mathlib.Core.Path.{◌≡◌, refl}
use mathlib.Core.Option.{Option, none, some}

pub data Result {ℓ κ} (E : Type ℓ) (A : Type κ) : Type (ℓ ⊔ κ) where
  ok : A → Result E A
  err : E → Result E A

-- What a method that may throw does to its object: the object is changed also when it throws.
abbrev pub Action : Type 0 → Type 0 → Type 0 → Type 0
Action S E A = S → Result E A × S

abbrev pub run_next : {S E A B : Type 0} → Result E A × S → (A → Action S E B) → Result E B × S
run_next (ok a, s) f = f a s
run_next (err e, s) f = (err e, s)

infixl 5 ◌>>=◌ ◌>>◌
abbrev pub ◌>>=◌ : {S E A B : Type 0} → Action S E A → (A → Action S E B) → Action S E B
◌>>=◌ m f s = run_next (m s) f

abbrev pub ◌>>◌ : {S E B : Type 0} → Action S E (Unit {0}) → Action S E B → Action S E B
◌>>◌ m k s = run_next (m s) (λ _. k)

abbrev pub pure : {S E A : Type 0} → A → Action S E A
pure a s = (ok a, s)

abbrev pub throw : {S E A : Type 0} → E → Action S E A
throw e s = (err e, s)

-- An action that may also not return, where the answers of its environment end before it does.
abbrev pub Run : Type 0 → Type 0 → Type 0 → Type 0
Run S E A = S → Option (Result E A × S)

abbrev pub run_on :
    {S E A B : Type 0} → Option (Result E A × S) → (A → Run S E B) → Option (Result E B × S)
run_on none f = none
run_on (some (ok a, s)) f = f a s
run_on (some (err e, s)) f = some (err e, s)

abbrev pub lift : {S E A : Type 0} → Result E A → Run S E A
lift r s = some (r, s)

pub run_on-ok :
    {S E A B : Type 0} (m : Option (Result E A × S)) (f : A → Run S E B) (b : B) (t : S)
    → run_on m f ≡ some (ok b, t)
    → (a : A) × (s : S) × (m ≡ some (ok a, s)) × (f a s ≡ some (ok b, t))
run_on-ok none f b t h = absurd (cc)
run_on-ok (some (ok a, s)) f b t h = (a, s, refl, h)
run_on-ok (some (err e, s)) f b t h = absurd (cc)

pub returned :
    {S E A : Type 0} (a b : A) (s t : S)
    → ◌≡◌ {A = Option (Result E A × S)} (some (ok a, s)) (some (ok b, t))
    → (a ≡ b) × (s ≡ t)
returned a b s t h = (cc, cc)
