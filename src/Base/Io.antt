-- ===== src/Base/Io.antt =====
-- Go calls that change a state and return `(T, error)`, or panic: the state is kept on every end.
use spinnaker_operator.Base.Result.{Result, ok, err, panic}
use mathlib.Core.Path.{◌≡◌, refl}
use native.Mathlib.Omega.{arith}

abbrev pub Io {ℓ κ ι} : Type ι → Type κ → Type ℓ → Type (ℓ ⊔ κ ⊔ ι)
Io S E A = S → S × Result E A

module _ {ℓ κ ι} {S : Type ι} {E : Type κ} where
  abbrev pub returned : {A : Type ℓ} → Result E A → Io S E A
  returned r s = (s, r)

  abbrev pub go_on : {A B : Type ℓ} → (A → Io S E B) → S × Result E A → S × Result E B
  go_on f (s, ok a) = f a s
  go_on f (s, err e) = (s, err e)
  go_on f (s, panic) = (s, panic)

  infixl 5 ◌>>=◌
  abbrev pub ◌>>=◌ : {A B : Type ℓ} → Io S E A → (A → Io S E B) → Io S E B
  ◌>>=◌ m f s = go_on f (m s)

  abbrev pub mapped : {F : Type κ} {A : Type ℓ} → (F → E) → S × Result F A → S × Result E A
  mapped f (s, ok a) = (s, ok a)
  mapped f (s, err e) = (s, err (f e))
  mapped f (s, panic) = (s, panic)

  -- The error of a call, wrapped.
  abbrev pub wrapped : {F : Type κ} {A : Type ℓ} → (F → E) → Io S F A → Io S E A
  wrapped f m s = mapped f (m s)

  -- What a chain of calls that succeeds is made of.
  pub go_on-eq_ok :
      {A B : Type ℓ} (f : A → Io S E B) (r : S × Result E A) {t : S} {b : B}
      → go_on f r ≡ (t, ok b)
      → (a : A) × (s : S) × (r ≡ (s, ok a)) × (f a s ≡ (t, ok b))
  go_on-eq_ok f (s, ok a) h = (a, s, refl, h)
  go_on-eq_ok f (s, err e) h = ground arith
  go_on-eq_ok f (s, panic) h = ground arith

  pub mapped-eq_ok :
      {F : Type κ} {A : Type ℓ} (f : F → E) (r : S × Result F A) {t : S} {a : A}
      → mapped f r ≡ (t, ok a)
      → r ≡ (t, ok a)
  mapped-eq_ok f (s, ok a) h = ground arith
  mapped-eq_ok f (s, err e) h = ground arith
  mapped-eq_ok f (s, panic) h = ground arith
