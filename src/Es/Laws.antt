-- ===== src/Es/Laws.antt =====
-- What the search engine's client relies on of JsonCpp.
use cpp_microservice_im.Base.{ℕ, suc, ◌<◌, ◌≡◌, Str, Bool, false, some, if◌then◌else◌, ◌==◌}
use cpp_microservice_im.Es.{Json}

-- A member that was set is there, and the others stay. What was appended is the last element, and the
-- others stay; an array with an element is not empty, and null has none and is no array; nor is a truth value.
pub record IsLawful (J : Json) : Type 0 where
  pub at-set :
      (j k : Str) (x v : J.Value) → J.at j (J.set k x v) ≡ (if j == k then some x else J.at j v)
  pub size_null : J.size J.null ≡ 0
  pub size-append : (v x : J.Value) → J.size (J.append v x) ≡ suc (J.size v)
  pub elem_last : (v x : J.Value) → J.elem (J.size v) (J.append v x) ≡ some x
  pub elem-append : (i : ℕ) (v x : J.Value) → i < J.size v → J.elem i (J.append v x) ≡ J.elem i v
  pub empty-append : (v x : J.Value) → J.empty (J.append v x) ≡ false
  pub null_array : J.is_array J.null ≡ false
  pub bool_array : (b : Bool) → J.is_array (J.bool b) ≡ false
