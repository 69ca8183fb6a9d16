-- ===== src/Mysql/Sql.antt =====
-- The condition of `select_multi_users`.
use cpp_microservice_im.Base.{ℕ, ◌≡◌, refl, sym, ap, ◌∙◌, Str, List, [], ◌∷◌, ◌++◌, utf8}
use cpp_microservice_im.Mysql.{quoted, pop_back, condition}
use mathlib.Core.List.{append_assoc}

-- The identifiers in quotes, with commas between them.
pub listed : Str → List Str → Str
listed id [] = b'\'' ∷ (id ++ (b'\'' ∷ []))
listed id (id' ∷ ids) = b'\'' ∷ (id ++ (b'\'' ∷ b',' ∷ listed id' ids))

pop_back-snoc : (s : Str) (c : ℕ) → pop_back (s ++ (c ∷ [])) ≡ s
unfolding pop_back
pop_back-snoc [] c = refl
pop_back-snoc (a ∷ []) c = refl
pop_back-snoc (a ∷ b ∷ s) c = ap (◌∷◌ a) (pop_back-snoc (b ∷ s) c)

quoted_lem : (id : Str) (ids : List Str) → quoted (id ∷ ids) ≡ listed id ids ++ (b',' ∷ [])
unfolding quoted listed
quoted_lem id [] = simp append_assoc
quoted_lem id (id' ∷ ids) = simp append_assoc (rw (← quoted_lem id' ids) refl)

-- A list that is not empty gives `user_id in (…)` with its identifiers in quotes and commas between
-- them. The empty list gives `user_id in )`, which is no condition.
pub condition_lem :
    (id : Str) (ids : List Str)
    → (condition (id ∷ ids) ≡ utf8 "user_id in (" ++ (listed id ids ++ (b')' ∷ [])))
      × (condition [] ≡ utf8 "user_id in )")
unfolding condition utf8
condition_lem id ids = (
  ap (λ q. pop_back (front ++ q) ++ (b')' ∷ [])) (quoted_lem id ids)
      ∙ ap (λ t. pop_back t ++ (b')' ∷ [])) (sym (append_assoc front (listed id ids) (b',' ∷ [])))
      ∙ ap (λ t. t ++ (b')' ∷ [])) (pop_back-snoc (front ++ listed id ids) b',')
      ∙ append_assoc front (listed id ids) (b')' ∷ []),
  refl,
)
  where
    front : Str
    front = utf8 "user_id in ("
