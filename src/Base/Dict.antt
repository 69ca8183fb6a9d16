-- ===== src/Base/Dict.antt =====
-- Maps and sets keyed by strings, as association lists. `insert` leaves an entry that is there, as
-- `insert` of the C++ and protobuf maps does; `assign` is `m[k] = v`.
use mathlib.Core.Path.{◌≡◌, refl}
use mathlib.Core.Bool.{true}
use mathlib.Core.Option.{Option, none, some}
use mathlib.Core.List.{List, [], ◌∷◌}
use native.Mathlib.Omega.{arith}
use cpp_microservice_im.Base.Tests.{if◌then◌else◌}
use cpp_microservice_im.Base.Text.{Str, ◌==◌}

abbrev pub Dict {ℓ} : Type ℓ → Type ℓ
Dict V = List (Str × V)

module _ {ℓ} {V : Type ℓ} where
  unfoldable pub lookup : Str → Dict V → Option V
  lookup k [] = none
  lookup k ((j, v) ∷ d) = if k == j then some v else lookup k d

  unfoldable pub assign : Str → V → Dict V → Dict V
  assign k v [] = (k, v) ∷ []
  assign k v ((j, w) ∷ d) = if k == j then (k, v) ∷ d else (j, w) ∷ assign k v d

  unfoldable pub insert : Str → V → Dict V → Dict V
  unfolding assign lookup
  insert k v d = elim (lookup k d) [ none ↦ assign k v d | some _ ↦ d ]

  unfoldable pub erase : Str → Dict V → Dict V
  erase k [] = []
  erase k ((j, w) ∷ d) = let rest = erase k d in if k == j then rest else (j, w) ∷ rest

  pub lookup-nil : (k : Str) → lookup k [] ≡ none
  unfolding lookup
  lookup-nil k = refl

  pub lookup-assign :
      (j k : Str) (v : V) (d : Dict V)
      → lookup j (assign k v d) ≡ (if j == k then some v else lookup j d)
  unfolding lookup assign
  lookup-assign j k v [] = refl
  lookup-assign j k v (_ ∷ d) = ground (arith, lookup-assign j k v d)

  -- An assignment is the last word on its key.
  pub assign_twice : (k : Str) (v w : V) (d : Dict V) → assign k v (assign k w d) ≡ assign k v d
  unfolding assign
  assign_twice k v w [] = ground arith
  assign_twice k v w (_ ∷ d) = ground (arith, assign_twice k v w d)

  pub lookup-insert :
      (j k : Str) (v : V) (d : Dict V)
      → lookup k d ≡ none
      → lookup j (insert k v d) ≡ (if j == k then some v else lookup j d)
  unfolding insert
  lookup-insert j k v d h = ground (arith, lookup-assign j k v d)

  pub insert_present : (k : Str) (v w : V) (d : Dict V) → lookup k d ≡ some w → insert k v d ≡ d
  unfolding insert
  insert_present k v w d h = ground arith

  pub lookup-erase :
      (j k : Str) (d : Dict V) → lookup j (erase k d) ≡ (if j == k then none else lookup j d)
  unfolding lookup erase
  lookup-erase j k [] = ground arith
  lookup-erase j k (_ ∷ d) = ground (arith, lookup-erase j k d)

eq_self : (s : Str) → (s == s) ≡ true
eq_self s = ground arith
