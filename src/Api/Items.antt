-- ===== src/Api/Items.antt =====
-- pkg/apis/spinnaker/v1alpha2: `GetItems` of the two list types. Each pass of the loop takes the
-- address of the loop's variable, which is one variable for all passes (the module is built for a Go
-- before 1.22).
use mathlib.Core.List.{append-nil, append_assoc}
use spinnaker_operator.Base.{
  sym, ℕ, zero, suc, ◌≡◌, refl, ◌∙◌, ap, List, [], ◌∷◌, ◌++◌, map, length, replicate,
}

-- The loop: the variable's content, and one more pointer to it. There is a single cell, so a
-- pointer carries nothing.
unfoldable pub collect {ℓ} : {A : Type ℓ} → List A → A → List (Unit {0}) → A × List (Unit {0})
collect [] cell result = (cell, result)
collect (i ∷ items) cell result = collect items i (result ++ tt ∷ [])

-- What a caller reads through the pointers that it is given.
abbrev read {ℓ} : {A : Type ℓ} → A × List (Unit {0}) → List A
read (cell, result) = map (λ p. cell) result

-- `blank` is the variable's content before the first pass.
unfoldable pub get_items {ℓ} : {A : Type ℓ} → A → List A → List A
unfolding collect
get_items blank items = read (collect items blank [])

abbrev pub last_or {ℓ} : {A : Type ℓ} → A → List A → A
last_or a [] = a
last_or a (x ∷ xs) = last_or x xs

module _ {ℓ} {A : Type ℓ} where
  cell-collect :
      (items : List A) (cell : A) (result : List (Unit {0}))
      → (collect items cell result).0 ≡ last_or cell items
  unfolding collect
  cell-collect [] cell result = refl
  cell-collect (i ∷ items) cell result = cell-collect items i (result ++ tt ∷ [])

  pointers-collect :
      (items : List A) (cell : A) (result : List (Unit {0}))
      → (collect items cell result).1 ≡ result ++ replicate (length items) tt
  unfolding collect
  pointers-collect [] cell result = sym (append-nil result)
  pointers-collect (i ∷ items) cell result =
      pointers-collect items i (result ++ tt ∷ [])
      ∙ append_assoc result (tt ∷ []) (replicate (length items) tt)

  map-replicate : (a : A) (n : ℕ) → map (λ (p : Unit {0}). a) (replicate n tt) ≡ replicate n a
  map-replicate a zero = refl
  map-replicate a (suc n) = ap (λ xs. a ∷ xs) (map-replicate a n)

  -- However many resources are listed, what is returned is as many copies of the last one.
  get_items-last :
      (blank : A) (items : List A)
      → get_items blank items ≡ replicate (length items) (last_or blank items)
  unfolding get_items
  get_items-last blank items =
      rw (cell-collect items blank [], pointers-collect items blank [])
        (map-replicate (last_or blank items) (length items))
