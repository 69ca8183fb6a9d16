-- ===== src/EsUser.antt =====
-- code/server/common/data_es.hpp: `ESUser`.
pub mod Document
pub mod Find
pub mod Users
use cpp_microservice_im.Base.{
  ℕ, suc, zero, ◌+◌, ◌≡◌, ◌≢◌, Str, String, Bool, true, false, not, ◌&&◌, ◌||◌, Option, none, some,
  List, [], ◌∷◌, ◌++◌, ltb, leb, eqb, if◌then◌else◌, ◌==◌, utf8,
}
use cpp_microservice_im.Base.Outcome.{Outcome, done, crash, Fault, exception}
use cpp_microservice_im.Mysql.{User}
use cpp_microservice_im.Es.{
  Json, Client, Insert, Search, es_index, index_append, index_create, es_insert, insert_append,
  insert_insert, es_search, append_must_not_terms, append_should_match, search,
}

abbrev pub user_key : Str
user_key = utf8 "user_id"

abbrev pub nickname_key : Str
nickname_key = utf8 "nickname"

abbrev pub phone_key : Str
phone_key = utf8 "phone"

abbrev pub description_key : Str
description_key = utf8 "description"

abbrev pub avatar_key : Str
avatar_key = utf8 "avatar_id"

-- A step that may throw.
infixl 5 ◌>>=◌
abbrev ◌>>=◌ : {A B : Type 0} → Option A → (A → Option B) → Option B
none >>= f = none
some a >>= f = f a

-- `ESUser`
module _ (J : Json) (C : Client) where
  unfoldable pub create_index : C.State → Bool × C.State
  unfolding es_index index_append index_create
  create_index = index_create J C (utf8 "default_index") (
      index_append J C avatar_key (utf8 "keyword") (utf8 "standard") false (
        index_append J C description_key (utf8 "keyword") (utf8 "standard") false (
          index_append J C phone_key (utf8 "keyword") (utf8 "standard") true (
            index_append J C nickname_key (utf8 "text") (utf8 "ik_max_word") true (
              index_append J C user_key (utf8 "keyword") (utf8 "standard") true
                (es_index J C (utf8 "user") (utf8 "_doc")))))))

  -- The document that `appendData` builds.
  pub user_insert : Str → Str → Str → Str → Str → Insert J C
  unfolding es_insert insert_append
  user_insert uid nickname phone description avatar_id = insert_append J C avatar_key avatar_id (
      insert_append J C description_key description (
        insert_append J C phone_key phone (
          insert_append J C nickname_key nickname
            (insert_append J C user_key uid (es_insert J C (utf8 "user") (utf8 "_doc"))))))

  unfoldable pub append_data : Str → Str → Str → Str → Str → C.State → Bool × C.State
  unfolding user_insert insert_insert
  append_data uid nickname phone description avatar_id =
      insert_insert J C uid (user_insert uid nickname phone description avatar_id)

  -- `json_user[i]["_source"][key].asString()`
  unfoldable pub source_field : J.Value → ℕ → Str → Option Str
  source_field json_user i key = elim (J.elem i json_user) [
    | none ↦ none
    | some hit ↦ elim (J.at (utf8 "_source") hit) [
      | none ↦ none
      | some source ↦ elim (J.at key source) [ none ↦ none | some v ↦ J.as_string v ]
    ]
  ]

  -- One round of the loop: a user with each field of the hit, or the exception.
  unfoldable pub hit_user : J.Value → ℕ → Option User
  unfolding source_field
  hit_user json_user i = do
    uid ← source_field json_user i user_key
    nickname ← source_field json_user i nickname_key
    phone ← source_field json_user i phone_key
    description ← source_field json_user i description_key
    avatar_id ← source_field json_user i avatar_key
    some (record {
      user_id = uid;
      nickname = some nickname;
      description = some description;
      password = none;
      phone = some phone;
      avatar_id = some avatar_id;
    })

  -- The rounds that are left, from round `i` on.
  unfoldable pub hit_users : J.Value → ℕ → ℕ → Option (List User)
  unfolding hit_user
  hit_users json_user zero i = some []
  hit_users json_user (suc left) i =
      let rest = hit_users json_user left (suc i) in
      do user ← hit_user json_user i; users ← rest; some (user ∷ users)

  abbrev pub or_throw : Option (List User) → Outcome (List User)
  or_throw none = crash exception
  or_throw (some users) = done users

  -- The query that `search` builds.
  pub user_search : Str → List Str → Search J C
  unfolding append_must_not_terms append_should_match es_search
  user_search key uid_list = append_must_not_terms J C (user_key ++ utf8 ".keyword") uid_list (
      append_should_match J C nickname_key key (
        append_should_match J C (user_key ++ utf8 ".keyword") key (
          append_should_match J C (phone_key ++ utf8 ".keyword") key
            (es_search J C (utf8 "user") (utf8 "_doc")))))

  unfoldable pub search_users : Str → List Str → C.State → Outcome (List User) × C.State
  unfolding hit_users search user_search
  search_users key uid_list s =
      let (found, s') = search J C (user_search key uid_list) s in
      elim found [
        | crash e ↦ (crash e, s')
        | done json_user ↦ (
          (if J.is_array json_user
              then or_throw (hit_users json_user (J.size json_user) 0)
              else done []),
          s',
        )
      ]
