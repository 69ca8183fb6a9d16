-- ===== src/EsUser/Document.antt =====
-- The document that `appendData` sends, and when it reports success.
use cpp_microservice_im.Base.{
  ℕ, ◌≤◌, ◌<◌, ◌≡◌, refl, Str, true, some, arith, utf8, Option-cases, inl, inr, ◌∙◌, Str-discrete,
  ℕ_discrete,
}
use cpp_microservice_im.Es.{Json, Client, insert_insert, insert_append, es_insert}
use cpp_microservice_im.Es.Laws.{IsLawful}
use cpp_microservice_im.Es.Query.{set_here, set_there}
use cpp_microservice_im.EsUser.{
  user_insert, append_data, user_key, nickname_key, phone_key, description_key, avatar_key,
}

module _ (J : Json) (C : Client) (L : IsLawful J) where
  -- The five texts of the document stand under their names.
  user_insert_lem :
      (uid nickname phone description avatar_id : Str)
      → let item = (user_insert J C uid nickname phone description avatar_id).item in
        (J.at user_key item ≡ some (J.string uid))
        × (J.at nickname_key item ≡ some (J.string nickname))
        × (J.at phone_key item ≡ some (J.string phone))
        × (J.at description_key item ≡ some (J.string description))
        × (J.at avatar_key item ≡ some (J.string avatar_id))
  unfolding user_insert insert_append utf8 Str-discrete ℕ_discrete
  user_insert_lem uid nickname phone description avatar_id = (
    set_there J C L user_key avatar_key _ _ refl
        ∙ (set_there J C L user_key description_key _ _ refl
            ∙ (set_there J C L user_key phone_key _ _ refl
                ∙ (set_there J C L user_key nickname_key _ _ refl ∙ set_here J C L user_key _ _))),
    set_there J C L nickname_key avatar_key _ _ refl
        ∙ (set_there J C L nickname_key description_key _ _ refl
            ∙ (set_there J C L nickname_key phone_key _ _ refl ∙ set_here J C L nickname_key _ _)),
    set_there J C L phone_key avatar_key _ _ refl
        ∙ (set_there J C L phone_key description_key _ _ refl ∙ set_here J C L phone_key _ _),
    set_there J C L description_key avatar_key _ _ refl ∙ set_here J C L description_key _ _,
    set_here J C L avatar_key _ _,
  )

  -- With JSON objects that keep their members, success means that a document with the five texts
  -- under their names was written, that it was sent under the user's identifier to the index of
  -- the users, and that the engine's status was a 2xx.
  pub append_data_success :
      (uid nickname phone description avatar_id : Str) (s : C.State)
      → (append_data J C uid nickname phone description avatar_id s).0 ≡ true
      → (item : J.Value) × (body : Str) × (status : ℕ) × (J.at (utf8 "user_id") item
          ≡ some (J.string uid))
        × (J.at (utf8 "nickname") item ≡ some (J.string nickname))
        × (J.at (utf8 "phone") item ≡ some (J.string phone))
        × (J.at (utf8 "description") item ≡ some (J.string description))
        × (J.at (utf8 "avatar_id") item ≡ some (J.string avatar_id))
        × (J.write item ≡ some body)
        × ((C.index (utf8 "user") (utf8 "_doc") uid body s).0 ≡ some status)
        × (200 ≤ status)
        × (status < 300)
  unfolding append_data insert_insert user_insert insert_append es_insert
  append_data_success uid nickname phone description avatar_id s h =
      let i = user_insert J C uid nickname phone description avatar_id in
      let (a, b, c, d, e) = user_insert_lem uid nickname phone description avatar_id in
      elim (Option-cases (J.write i.item)) [
        | inl f ↦ absurd (ground arith)
        | inr (body, f) ↦ elim (Option-cases (C.index i.name i.type uid body s).0) [
          | inl g ↦ absurd (ground arith)
          | inr (status, g) ↦
              (i.item, body, status, a, b, c, d, e, f, g, ground arith, ground arith)
        ]
      ]
