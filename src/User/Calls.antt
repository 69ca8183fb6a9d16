-- ===== src/User/Calls.antt =====
-- The eleven calls as requests, and the threads that serve them.
pub mod Parts
pub mod Closed
pub mod Within
pub mod Faults
pub mod Operations
pub mod Handlers
pub mod Process
pub mod Sessions
pub mod Channels
pub mod Avatars
use cpp_microservice_im.Base.{Str, Option, List}
use cpp_microservice_im.Base.Dict.{Dict}
use cpp_microservice_im.Base.Outcome.{M}
use cpp_microservice_im.Proto.{Reply}
use cpp_microservice_im.User.Env.{Env, World}
use cpp_microservice_im.User.Login.{UserLoginReq, PhoneLoginReq, user_login, phone_login}
use cpp_microservice_im.User.Profile.{
  UserInfo, get_user_info, get_multi_user_info, set_user_avatar, set_user_nickname,
  set_user_description, set_user_phone_number,
}
use cpp_microservice_im.User.Register.{
  Answer, UserRegisterReq, PhoneRegisterReq, PhoneVerifyCodeReq, user_register, phone_register,
  get_phone_verify_code,
}

-- A request with the fields that its handler reads.
pub data Call : Type 0 where
  registering : UserRegisterReq → Call
  logging_in : UserLoginReq → Call
  asking_code : PhoneVerifyCodeReq → Call
  phone_registering : PhoneRegisterReq → Call
  phone_logging_in : PhoneLoginReq → Call
  user_info : Str → Str → Call
  multi_user_info : Str → List Str → Call
  avatar nickname description : Str → Str → Str → Call
  phone_number : Str → Str → Str → Str → Str → Call

-- What the handler of a request answers.
abbrev pub Answers : Call → Type 0
Answers (registering r) = Answer
Answers (logging_in r) = Reply Str
Answers (asking_code r) = Reply Str
Answers (phone_registering r) = Answer
Answers (phone_logging_in r) = Reply Str
Answers (user_info rid uid) = Reply (Option UserInfo)
Answers (multi_user_info rid uids) = Reply (Dict UserInfo)
Answers (avatar rid uid content) = Answer
Answers (nickname rid uid name) = Answer
Answers (description rid uid text) = Answer
Answers (phone_number rid uid phone code code_id) = Answer

module _ (E : Env) where
  unfoldable pub handler : (c : Call) → M (World E) (Answers c)
  handler (registering r) = user_register E r
  handler (logging_in r) = user_login E r
  handler (asking_code r) = get_phone_verify_code E r
  handler (phone_registering r) = phone_register E r
  handler (phone_logging_in r) = phone_login E r
  handler (user_info rid uid) = get_user_info E rid uid
  handler (multi_user_info rid uids) = get_multi_user_info E rid uids
  handler (avatar rid uid content) = set_user_avatar E rid uid content
  handler (nickname rid uid name) = set_user_nickname E rid uid name
  handler (description rid uid text) = set_user_description E rid uid text
  handler (phone_number rid uid phone code code_id) =
      set_user_phone_number E rid uid phone code code_id
