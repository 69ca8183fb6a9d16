-- ===== src/Tests/Overlaps.antt =====
-- A call that breaks off, and two setters at once.
use cpp_microservice_im.Base.{◌≡◌, refl, Str, true, none, some, [], ◌∷◌, Str-discrete, ℕ_discrete}
use cpp_microservice_im.Base.Dict
use cpp_microservice_im.Base.Dict.{Dict}
use cpp_microservice_im.Base.Outcome.{done, crash, null_value}
use cpp_microservice_im.EsUser.{append_data}
use cpp_microservice_im.Mysql
use cpp_microservice_im.Mysql.{
  User, user_id_is, select_by_id, select_by_nickname, transact, read_with,
}
use cpp_microservice_im.Tests.Accounts.{rid, full, login}
use cpp_microservice_im.Tests.Concrete.{environment, world, table-IsLawful, first_user}
use cpp_microservice_im.Tests.Sessions.{users}
use cpp_microservice_im.User.Calls.{logging_in, handler}
use cpp_microservice_im.User.Calls.Faults.{breaks_off, handler_faults}
use cpp_microservice_im.User.Env.{World}
use cpp_microservice_im.User.Login.{user_login}
use cpp_microservice_im.User.Profile.{store_user}
use cpp_microservice_im.User.Profile.Lost.{
  user_read, nickname_write, description_write, nickname_lost,
}
use cpp_microservice_im.User.Register.{Answer}

-- A user without a password logs in by nickname.
abbrev no_password : World environment
no_password = world (record full { password = none } ∷ []) []

broke_off : (handler environment (logging_in login) no_password).0 ≡ crash null_value
unfolding handler user_login select_by_nickname read_with transact first_user Str-discrete
    ℕ_discrete
broke_off = refl

handler_faults_example : breaks_off (logging_in login) null_value ≡ true
handler_faults_example =
    handler_faults environment (logging_in login) no_password null_value broke_off

abbrev success : Answer
success = record { request_id = rid; success = true; errmsg = []; payload = tt }

abbrev berta : Str
berta = b'b' ∷ []

abbrev motto : Str
motto = b'm' ∷ []

abbrev uid : Str
uid = b'u' ∷ []

abbrev both_read : World environment
both_read = (user_read environment uid (user_read environment uid users).1).1

abbrev renamed : World environment
renamed = (nickname_write environment rid berta full both_read).1

read_once : (user_read environment uid users).0 ≡ done (some full)
unfolding user_read select_by_id read_with transact first_user Str-discrete ℕ_discrete
read_once = refl

read_twice : (user_read environment uid (user_read environment uid users).1).0 ≡ done (some full)
unfolding user_read select_by_id read_with transact first_user Str-discrete ℕ_discrete
read_twice = refl

first_done : (nickname_write environment rid berta full both_read).0 ≡ done success
unfolding user_read select_by_id nickname_write store_user Mysql.update append_data read_with
    transact first_user Dict.lookup Str-discrete ℕ_discrete
first_done = refl

second_done : (description_write environment rid motto full renamed).0 ≡ done success
unfolding user_read select_by_id nickname_write description_write store_user Mysql.update
    append_data read_with transact first_user Dict.lookup Str-discrete ℕ_discrete
second_done = refl

nickname_lost_example :
    (table-IsLawful.find (user_id_is uid) renamed.mysql
      ≡ some (record full { nickname = some berta }))
    × (table-IsLawful.find
          (user_id_is uid)
          (description_write environment rid motto full renamed).1.mysql
        ≡ some (record full { description = some motto }))
nickname_lost_example =
    nickname_lost environment table-IsLawful rid rid uid berta motto users full success success
      read_once read_twice first_done refl second_done refl
