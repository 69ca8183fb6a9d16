-- ===== src/Tests/Profiles.antt =====
-- Profiles, with a file service that answers.
use cpp_microservice_im.Base.{
  ◌≡◌, ◌≢◌, refl, Str, true, none, some, List, [], ◌∷◌, length, Str-discrete, ℕ_discrete,
}
use cpp_microservice_im.Base.Dict
use cpp_microservice_im.Base.Dict.{Dict}
use cpp_microservice_im.Base.Outcome.{done}
use cpp_microservice_im.Channel.{Channel, choose, choose_service}
use cpp_microservice_im.Dms.{send, verify_code_of}
use cpp_microservice_im.File.{FileDownloadData}
use cpp_microservice_im.Mysql.{User, select_multi_users, read_with}
use cpp_microservice_im.Proto.{success_response}
use cpp_microservice_im.Redis.{codes_append, command}
use cpp_microservice_im.Tests.Concrete.{environment, world, store-IsLawful, table, stub, platform}
use cpp_microservice_im.User.Check.{phone_check, phone_digits, char_at}
use cpp_microservice_im.User.Check.Accepted.{looks_like_phone}
use cpp_microservice_im.User.Env.{World}
use cpp_microservice_im.User.Profile.{
  UserInfo, info_of, payload_of, avatar_ids, users_info, get_multi_user_info,
}
use cpp_microservice_im.User.Profile.Info.{avatars, last_info, get_multi_user_info_success}
use cpp_microservice_im.User.Register.{PhoneVerifyCodeReq, get_phone_verify_code}
use cpp_microservice_im.User.Register.Codes.{get_phone_verify_code_success}
use cpp_microservice_im.Uuid.{uuid}

abbrev rid : Str
rid = []

abbrev pub uid : Str
uid = b'u' ∷ []

abbrev number : Str
number = b'1' ∷ b'3' ∷ b'0' ∷ b'1' ∷ b'2' ∷ b'3' ∷ b'4' ∷ b'5' ∷ b'6' ∷ b'7' ∷ b'8' ∷ []

abbrev pub user : User
user = record {
  user_id = uid;
  nickname = some [];
  description = some [];
  password = none;
  phone = some number;
  avatar_id = some [];
}

abbrev pub users : World environment
users = world (user ∷ []) []

abbrev request : PhoneVerifyCodeReq
request = record { request_id = rid; phone_number = number }

abbrev code_id : Str
code_id = (uuid environment.distribution users.ids).0

sent : (get_phone_verify_code environment request users).0 ≡ done (success_response rid code_id)
unfolding get_phone_verify_code phone_check phone_digits char_at send verify_code_of codes_append
    command Str-discrete
sent = refl

get_phone_verify_code_success_example :
    let w' = (get_phone_verify_code environment request users).1 in
    let code = (send platform number tt).0 in
    (looks_like_phone number ≡ true)
    × (code_id ≡ code_id)
    × (code ≢ [])
    × (Dict.lookup code_id w'.redis ≡ some code)
unfolding store-IsLawful
get_phone_verify_code_success_example =
    get_phone_verify_code_success environment store-IsLawful request users
      (success_response rid code_id) sent refl

abbrev info : UserInfo
info = record (info_of user) { avatar = b'x' ∷ [] }

abbrev infos : Dict UserInfo
infos = (uid, info) ∷ []

all_informed :
    (get_multi_user_info environment rid (uid ∷ []) users).0 ≡ done (success_response rid infos)
unfolding get_multi_user_info avatar_ids users_info select_multi_users read_with choose_service
    choose Dict.lookup Dict.assign Str-discrete ℕ_discrete
all_informed = refl

get_multi_user_info_success_example :
    let found = (select_multi_users table (uid ∷ []) users.mysql).0 in
    (length found ≡ 1)
    × (c : Channel) × (avatar_list : List Str) × (file_map : Dict FileDownloadData)
    × ((choose_service [] users.mm_channels).0 ≡ some c)
    × (avatars found ≡ some avatar_list)
    × (payload_of (stub.get_multi_file c rid avatar_list tt).0 ≡ some file_map)
    × ((x : Str) → Dict.lookup x infos ≡ last_info file_map x found)
get_multi_user_info_success_example =
    get_multi_user_info_success environment rid (uid ∷ []) users (success_response rid infos)
      all_informed refl

abbrev pub picture : Str
picture = b'p' ∷ []
