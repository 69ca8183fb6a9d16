-- ===== src/Tests/Searches.antt =====
-- A search for users, and an answer with one hit.
use cpp_microservice_im.Base.{
  ℕ, ◌≤◌, ◌<◌, ◌≡◌, refl, Str, true, none, some, [], ◌∷◌, length, get_elem?, arith, utf8,
  Str-discrete, ℕ_discrete,
}
use cpp_microservice_im.Base.Outcome.{done}
use cpp_microservice_im.Es.{Json, query_of, hits, search}
use cpp_microservice_im.EsUser.{user_search, search_users, source_field, hit_user, hit_users}
use cpp_microservice_im.EsUser.Find.{Asks, user_search_lem}
use cpp_microservice_im.EsUser.Users.{Describes, search_users_success}
use cpp_microservice_im.Mysql.{User}
use cpp_microservice_im.Tests.Concrete.{
  Doc, null, text, field, item, member, items, nth, documents, documents_with, documents-IsLawful,
  engine,
}

abbrev word : Str
word = b'w' ∷ []

abbrev uid : Str
uid = b'u' ∷ []

user_search_lem_example :
    Asks documents word uid
      (word ∷ [])
      (query_of documents engine (user_search documents engine word (uid ∷ word ∷ [])))
user_search_lem_example =
    user_search_lem documents engine (documents-IsLawful null) word uid (word ∷ [])

abbrev hit : Doc
hit =
    field (utf8 "_source")
      (field (utf8 "user_id") (text uid) (
        field (utf8 "nickname") (text word) (
          field (utf8 "phone") (text [])
            (field (utf8 "description") (text []) (field (utf8 "avatar_id") (text []) null)))))
      null

abbrev listed : Doc
listed = item null hit

abbrev answering : Json
answering = documents_with (field (utf8 "hits") (field (utf8 "hits") listed null) null)

abbrev user : User
user = record {
  user_id = uid;
  nickname = some word;
  description = some [];
  password = none;
  phone = some [];
  avatar_id = some [];
}

found_one : (search_users answering engine word (uid ∷ []) 0).0 ≡ done (user ∷ [])
unfolding search_users search query_of hits hit_users hit_user source_field member items nth utf8
    Str-discrete ℕ_discrete
found_one = refl

search_users_success_example :
    (body : Str) × (status : ℕ) × (answer : Str) × (found : Doc) × (answering.write
        (query_of answering engine (user_search answering engine word (uid ∷ [])))
      ≡ some body)
    × ((engine.search (utf8 "user") (utf8 "_doc") body 0).0 ≡ some (status, answer))
    × (200 ≤ status)
    × (status < 300)
    × (hits answering engine (answering.parse answer).1 ≡ done found)
    × (answering.is_array found ≡ true)
    × (length (user ∷ []) ≡ items found)
    × ((i : ℕ) (x : User) → get_elem? (user ∷ []) i ≡ some x → Describes answering engine found i x)
search_users_success_example =
    search_users_success answering engine
      (documents-IsLawful (field (utf8 "hits") (field (utf8 "hits") listed null) null)) word
      (uid ∷ []) 0 (user ∷ []) found_one (λ e. absurd (ground arith))
