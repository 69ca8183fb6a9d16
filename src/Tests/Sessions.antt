-- ===== src/Tests/Sessions.antt =====
-- A login, and a second one of the same user.
use cpp_microservice_im.Base.{
  ◌≡◌, refl, Str, true, false, none, some, [], ◌∷◌, if◌then◌else◌, ◌==◌, Str-discrete, ℕ_discrete,
  utf8,
}
use cpp_microservice_im.Base.Dict
use cpp_microservice_im.Base.Dict.{Dict}
use cpp_microservice_im.Base.Outcome.{done}
use cpp_microservice_im.Mysql.{User, select_by_nickname, transact, read_with}
use cpp_microservice_im.Proto.{Reply}
use cpp_microservice_im.Redis.{status_exists, session_append, status_append, get_value, command}
use cpp_microservice_im.Tests.Concrete.{environment, world, table, store-IsLawful, first_user}
use cpp_microservice_im.User.Env.{World}
use cpp_microservice_im.User.Login.{user_login, open_session}
use cpp_microservice_im.User.Login.Exclusive.{user_login_success}
use cpp_microservice_im.Uuid.{uuid, random_bytes, hex, hex_digit}
use cpp_microservice_im.Tests.Accounts.{rid, anna, secret, full, login}
use cpp_microservice_im.Base.{◌≢◌, ap, length, arith}
use cpp_microservice_im.Proto.{success_response}
use cpp_microservice_im.User.Login.Race.{session_check, session_enter, both_log_in}
use cpp_microservice_im.Uuid.{Generator}
use cpp_microservice_im.Uuid.Distinct.{uuid_shape}

abbrev pub users : World environment
users = world (full ∷ []) []

abbrev session : Str
session = (uuid environment.distribution users.ids).0

abbrev pub opened : Reply Str
opened = record { request_id = rid; success = true; errmsg = []; payload = session }

pub logged_in : (user_login environment login users).0 ≡ done opened
unfolding user_login open_session select_by_nickname status_exists session_append status_append
    command get_value read_with transact first_user Dict.lookup Dict.assign Dict.erase Str-discrete
    ℕ_discrete
logged_in = refl

user_login_success_example :
    let w' = (user_login environment login users).1 in
    (user : User) × ((select_by_nickname table anna users.mysql).0 ≡ some user)
    × (user.password ≡ some secret)
    × (Dict.lookup user.user_id users.redis ≡ none)
    × (Dict.lookup session w'.redis
        ≡ (if session == user.user_id then some [] else some user.user_id))
    × (Dict.lookup user.user_id w'.redis ≡ some [])
unfolding store-IsLawful
user_login_success_example =
    user_login_success environment store-IsLawful login users opened logged_in refl

pub found_anna : (select_by_nickname table anna users.mysql).0 ≡ some full
unfolding select_by_nickname read_with transact first_user Dict.lookup Dict.assign Dict.erase
    Str-discrete ℕ_discrete
found_anna = refl

abbrev pub afterwards : World environment
afterwards = (user_login environment login users).1

abbrev already : Reply Str
already = record { request_id = rid; success = false; errmsg = utf8 "用户已在其他地方登录! "; payload = [] }

logged_in_already : (user_login environment login afterwards).0 ≡ done already
unfolding user_login open_session select_by_nickname status_exists session_append status_append
    command get_value uuid random_bytes hex hex_digit read_with transact first_user Dict.lookup
    Dict.assign Dict.erase Str-discrete ℕ_discrete
logged_in_already = refl

found_again : (select_by_nickname table anna afterwards.mysql).0 ≡ some full
unfolding user_login open_session select_by_nickname status_exists session_append status_append
    command get_value read_with transact first_user Dict.lookup Dict.assign Dict.erase Str-discrete
    ℕ_discrete
found_again = refl

abbrev checked : World environment
checked = (session_check environment full (session_check environment full users).1).1

abbrev entered : World environment
entered = (session_enter environment rid full checked).1

abbrev first_answer : Reply Str
first_answer = success_response rid (uuid environment.distribution checked.ids).0

abbrev second_answer : Reply Str
second_answer = success_response rid (uuid environment.distribution entered.ids).0

unmarked : (session_check environment full users).0 ≡ done false
unfolding session_check status_exists get_value Dict.lookup
unmarked = refl

first_in : (session_enter environment rid full checked).0 ≡ done first_answer
unfolding session_check session_enter session_append status_append command
first_in = refl

second_in : (session_enter environment rid full entered).0 ≡ done second_answer
unfolding session_check session_enter session_append status_append command
second_in = refl

-- A session's identifier is longer than this user's.
longer : (g : Generator) → (uuid environment.distribution g).0 ≢ full.user_id
longer g e = absurd (ground (arith, (uuid_shape environment.distribution g).0, ap length e))

both_log_in_example :
    let w₄ = (session_enter environment rid full entered).1 in
    ((session_check environment full (session_check environment full users).1).0 ≡ done false)
    × (true ≡ true)
    × (true ≡ true)
    × (Dict.lookup first_answer.payload w₄.redis ≡ some full.user_id)
    × (Dict.lookup second_answer.payload w₄.redis ≡ some full.user_id)
unfolding store-IsLawful
both_log_in_example =
    both_log_in environment store-IsLawful rid rid full users first_answer second_answer unmarked
      first_in second_in (longer checked.ids) (longer entered.ids)
