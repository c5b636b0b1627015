-- ===== src/Inspect/Merge/Lookup.antt =====
-- `Merge` read key by key.
use spinnaker_operator.Base.{
  String, ◌≡◌, refl, Option, none, some, Option-cases, inl, inr, arith, ◌∙◌, ap,
}
use spinnaker_operator.Base.{=ₛ→≡}
use spinnaker_operator.Inspect.Value.{
  Value, slice, map, Fields, empty, field, get_field, put_field, append_items, NodupFields,
}
use spinnaker_operator.Inspect.Fields.{get_field-put_field}
use spinnaker_operator.Inspect.Merge.{merge, merge_keys, merge_rest, merge_slice}

-- What a key of the merged map holds, from what it holds in the two maps.
abbrev pub merged : Option Value → Option Value → Option Value
merged none b = b
merged (some (map am)) (some (map bm)) = some (map (merge am bm))
merged (some (slice xs)) (some (slice ys)) = some (slice (append_items xs ys))
merged (some (slice xs)) none = none
merged (some av) (some bv) = some bv
merged (some av) none = some av

-- The same for the first loop, where `r` is what the result held before.
abbrev kept : Option Value → Option Value → Option Value → Option Value
kept none b r = r
kept (some (slice xs)) none r = r
kept (some av) b r = merged (some av) b

abbrev rest : Option Value → Option Value → Option Value → Option Value
rest none (some bv) r = some bv
rest _ _ r = r

get_field-merge_rest :
    (a b r : Fields) (j : String)
    → NodupFields b
    → get_field j (merge_rest a b r) ≡ rest (get_field j a) (get_field j b) (get_field j r)
unfolding merge_rest get_field
get_field-merge_rest a empty r j u = ground arith
get_field-merge_rest a (field k bv bs) r j (fresh, u) = elim (Option-cases (get_field k a)) [
  | inl gone ↦ rw gone (
      ground (
        arith,
        get_field-merge_rest a bs (put_field k bv r) j u,
        get_field-put_field k j bv r,
        =ₛ→≡ k j,
      ))
  | inr (av, there) ↦ rw there (ground (arith, get_field-merge_rest a bs r j u, =ₛ→≡ k j))
]

get_field-merge_keys :
    (a b r : Fields) (j : String)
    → NodupFields a
    → get_field j (merge_keys a b r) ≡ kept (get_field j a) (get_field j b) (get_field j r)
unfolding merge_keys get_field merge
get_field-merge_keys empty b r j u = refl
get_field-merge_keys (field k (map am) more) b r j (fresh, u) =
    at (get_field k b) refl (λ r'. get_field-merge_keys more b r' j u)
  where
    at :
        (g : Option Value)
        → get_field k b ≡ g
        → ((r' : Fields)
            → get_field j (merge_keys more b r')
              ≡ kept (get_field j more) (get_field j b) (get_field j r'))
        → get_field j (merge_keys (field k (map am) more) b r)
          ≡ kept (get_field j (field k (map am) more)) (get_field j b) (get_field j r)
    at none e ih =
        ground (arith, e, ih (put_field k (map am) r), get_field-put_field k j (map am) r, =ₛ→≡ k j)
    at (some (map bm)) e ih = ground (
      arith,
      e,
      ih (put_field k (map (merge am bm)) r),
      get_field-put_field k j (map (merge am bm)) r,
      =ₛ→≡ k j,
    )
    at (some bv) e ih =
        ground (arith, e, ih (put_field k bv r), get_field-put_field k j bv r, =ₛ→≡ k j)
get_field-merge_keys (field k (slice xs) more) b r j (fresh, u) =
    at (get_field k b) refl (get_field-merge_keys more b (merge_slice k xs (get_field k b) r) j u)
  where
    at :
        (g : Option Value)
        → get_field k b ≡ g
        → get_field j (merge_keys more b (merge_slice k xs (get_field k b) r))
          ≡ kept
              (get_field j more)
              (get_field j b)
              (get_field j (merge_slice k xs (get_field k b) r))
        → get_field j (merge_keys more b (merge_slice k xs (get_field k b) r))
          ≡ kept (get_field j (field k (slice xs) more)) (get_field j b) (get_field j r)
    at none e ih = ground (arith, e, ih, =ₛ→≡ k j)
    at (some (slice ys)) e ih =
        ground (arith, e, ih, get_field-put_field k j (slice (append_items xs ys)) r, =ₛ→≡ k j)
    at (some bv) e ih = ground (arith, e, ih, get_field-put_field k j bv r, =ₛ→≡ k j)
get_field-merge_keys (field k av more) b r j (fresh, u) = elim (Option-cases (get_field k b)) [
  | inl none_there ↦ ground (
    arith,
    none_there,
    get_field-merge_keys more b (put_field k av r) j u,
    get_field-put_field k j av r,
    =ₛ→≡ k j,
  )
  | inr (bv, there) ↦ ground (
    arith,
    there,
    get_field-merge_keys more b (put_field k bv r) j u,
    get_field-put_field k j bv r,
    =ₛ→≡ k j,
  )
]

both_loops : (x y : Option Value) → rest x y (kept x y none) ≡ merged x y
both_loops none none = refl
both_loops none (some bv) = refl
both_loops (some (map am)) none = refl
both_loops (some (slice xs)) none = refl
both_loops (some (slice xs)) (some bv) = ground arith
both_loops (some av) none = refl
both_loops (some av) (some bv) = ground arith

-- Key by key, `Merge` of two maps holds: what the only map that has the key holds, except for a
-- slice of the first map, which is lost; the merged map of two maps; the slices joined, the first
-- map's items first; and otherwise what the second map holds.
pub get_field-merge :
    (a b : Fields) (k : String)
    → NodupFields a
    → NodupFields b
    → get_field k (merge a b) ≡ merged (get_field k a) (get_field k b)
unfolding merge get_field
get_field-merge a b k ua ub =
    get_field-merge_rest a b (merge_keys a b empty) k ub
    ∙ ap (rest (get_field k a) (get_field k b)) (get_field-merge_keys a b empty k ua)
    ∙ both_loops (get_field k a) (get_field k b)
