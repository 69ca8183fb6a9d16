-- ===== src/Tests/Setters.antt =====
-- Changes of an account.
use cpp_microservice_im.Base.{
  ◌≡◌, refl, Str, true, none, some, List, [], ◌∷◌, Str-discrete, ℕ_discrete,
}
use cpp_microservice_im.Base.Dict
use cpp_microservice_im.Base.Dict.{Dict}
use cpp_microservice_im.Base.Outcome.{done}
use cpp_microservice_im.EsUser.{append_data}
use cpp_microservice_im.Mysql
use cpp_microservice_im.Mysql.{
  User, select_by_nickname, select_by_phone, select_by_id, user_by_nickname, user_by_phone, insert,
  transact, read_with,
}
use cpp_microservice_im.Redis.{codes_code, get_value}
use cpp_microservice_im.Tests.Concrete.{
  environment, world, table, store, store-IsLawful, first_user,
}
use cpp_microservice_im.User.Check.{nickname_check, phone_check, phone_digits, char_at}
use cpp_microservice_im.User.Check.Accepted.{looks_like_phone}
use cpp_microservice_im.User.Env.{World}
use cpp_microservice_im.User.Profile.{store_user, with_user, set_user_phone_number}
use cpp_microservice_im.User.Profile.Defects.{set_user_phone_number_by_mark}
use cpp_microservice_im.User.Profile.Update.{Changed}
use cpp_microservice_im.User.Profile.Setters.{set_user_phone_number_success, rename_user, move_user}
use cpp_microservice_im.User.Register.{Answer}
use cpp_microservice_im.Tests.Accounts.{rid, anna, number, code, full, registered, login, right}
use cpp_microservice_im.Tests.Sessions.{users, opened, logged_in, found_anna, afterwards}

abbrev success : Answer
success = record { request_id = rid; success = true; errmsg = []; payload = tt }

abbrev bea : Str
bea = b'b' ∷ []

abbrev users_with_code : World environment
users_with_code = world (full ∷ []) ((anna, code) ∷ [])

moved :
    (set_user_phone_number environment rid (b'u' ∷ []) number code anna users_with_code).0
    ≡ done success
unfolding set_user_phone_number with_user store_user Mysql.update select_by_id append_data
    phone_check phone_digits char_at codes_code get_value read_with transact first_user Dict.lookup
    Dict.assign Dict.erase Str-discrete ℕ_discrete
moved = refl

set_user_phone_number_success_example :
    (looks_like_phone number ≡ true)
    × (store.get anna users_with_code.redis ≡ some (some code))
    × Changed environment
        (b'u' ∷ [])
        (λ user. record user { phone = some number })
        users_with_code
        (set_user_phone_number environment rid (b'u' ∷ []) number code anna users_with_code).1
set_user_phone_number_success_example =
    set_user_phone_number_success environment rid (b'u' ∷ []) number code anna users_with_code
      success moved refl

abbrev fresh_user : World environment
fresh_user = world (registered ∷ []) []

found_registered : (select_by_id table (b'u' ∷ []) (registered ∷ [])).0 ≡ some registered
unfolding select_by_id user_by_nickname read_with transact first_user Dict.lookup Dict.assign
    Dict.erase Str-discrete ℕ_discrete
found_registered = refl

no_phone : (rename_user bea registered).phone ≡ none
unfolding user_by_nickname
no_phone = refl

bea_short : nickname_check bea ≡ true
unfolding nickname_check
bea_short = refl

abbrev renamed_users : List User
renamed_users = rename_user bea registered ∷ registered ∷ []

stored :
    Mysql.update table
      (rename_user bea registered)
      (select_by_id table (b'u' ∷ []) (registered ∷ [])).1
    ≡ (true, renamed_users)
unfolding Mysql.update select_by_id read_with transact first_user Dict.lookup Dict.assign Dict.erase
    Str-discrete ℕ_discrete
stored = refl

set_user_phone_number_by_mark_example :
    set_user_phone_number environment rid (b'u' ∷ []) number [] (b'u' ∷ []) afterwards
    ≡ with_user environment rid
        (b'u' ∷ [])
        (λ u. store_user environment rid "更新数据库用户手机号失败!" "更新搜索引擎用户手机号失败!" (move_user number u))
        afterwards
set_user_phone_number_by_mark_example =
    set_user_phone_number_by_mark environment store-IsLawful login rid number users opened full
      (Dict.lookup (b'u' ∷ []) afterwards.redis) logged_in refl found_anna refl right
