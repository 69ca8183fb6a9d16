-- ===== src/Tests/Accounts.antt =====
-- Registration, and logins that fail, on small databases.
use cpp_microservice_im.Base.{
  ◌≤◌, ◌≡◌, ◌↔◌, refl, Str, true, false, none, some, [], ◌∷◌, length, All, Str-discrete, ℕ_discrete,
  utf8,
}
use cpp_microservice_im.Base.Dict
use cpp_microservice_im.Base.Dict.{Dict}
use cpp_microservice_im.Base.Outcome.{done}
use cpp_microservice_im.Mysql.{
  User, select_by_nickname, select_by_phone, user_by_nickname, user_by_phone, insert, transact,
  read_with,
}
use cpp_microservice_im.Redis.{codes_code, get_value}
use cpp_microservice_im.Tests.Concrete.{environment, world, table, first_user}
use cpp_microservice_im.User.Check.{
  nickname_check, password_check, password_chars, phone_check, phone_digits, char_at,
}
use cpp_microservice_im.User.Check.Accepted.{
  is_inner, leading_digits, looks_like_phone, password_check_iff, phone_check_lem,
}
use cpp_microservice_im.User.Env.{World}
use cpp_microservice_im.User.Login.{UserLoginReq, PhoneLoginReq, phone_login, phone_session}
use cpp_microservice_im.User.Register.{
  user_error, UserRegisterReq, PhoneRegisterReq, phone_register, phone_register_new,
}

abbrev pub rid : Str
rid = []

abbrev pub anna : Str
anna = b'a' ∷ []

abbrev pub number : Str
number = b'1' ∷ b'3' ∷ b'0' ∷ b'1' ∷ b'2' ∷ b'3' ∷ b'4' ∷ b'5' ∷ b'6' ∷ b'7' ∷ b'8' ∷ []

abbrev pub secret : Str
secret = b's' ∷ b'e' ∷ b'c' ∷ b'r' ∷ b'e' ∷ b't' ∷ []

abbrev pub code : Str
code = b'4' ∷ b'2' ∷ []

abbrev pub full : User
full = record {
  user_id = b'u' ∷ [];
  nickname = some anna;
  description = some [];
  password = some secret;
  phone = some number;
  avatar_id = some [];
}

abbrev pub registered : User
registered = user_by_nickname (b'u' ∷ []) anna secret

password_check_iff_example :
    (password_check secret ≡ true)
    ↔ ((6 ≤ length secret) × (length secret ≤ 15) × All (λ c. is_inner c ≡ true) secret)
password_check_iff_example = password_check_iff secret

phone_check_lem_example : phone_check number ≡ done (looks_like_phone number)
phone_check_lem_example = phone_check_lem number

pub right : looks_like_phone number ≡ true
unfolding leading_digits
right = refl

abbrev pub registration : UserRegisterReq
registration = record { request_id = rid; nickname = anna; password = secret }

abbrev pub nobody : World environment
nobody = world [] []

pub short : nickname_check anna ≡ true
unfolding nickname_check
short = refl

pub strong : password_check secret ≡ true
unfolding password_check password_chars
strong = refl

pub unknown : select_by_nickname table anna [] ≡ (none, [])
unfolding select_by_nickname read_with first_user
unknown = refl

abbrev phone_registration : PhoneRegisterReq
phone_registration = record {
  request_id = rid;
  phone_number = number;
  verify_code_id = anna;
  verify_code = code;
}

abbrev with_code : World environment
with_code = world [] ((anna, code) ∷ [])

phone_registered :
    (phone_register environment phone_registration with_code).0
    ≡ done (user_error rid "向数据库添加用户信息失败! ")
unfolding phone_register phone_register_new insert select_by_phone user_by_phone phone_check
    phone_digits char_at codes_code get_value read_with transact first_user Dict.lookup Dict.assign
    Dict.erase Str-discrete ℕ_discrete
phone_registered = refl

abbrev pub login : UserLoginReq
login = record { request_id = rid; nickname = anna; password = secret }

abbrev phone_request : PhoneLoginReq
phone_request = record {
  request_id = rid;
  phone_number = number;
  verify_code_id = anna;
  verify_code = code;
}

refused :
    (phone_login environment phone_request (world [] [])).0
    ≡ done (record { request_id = rid; success = false; errmsg = utf8 "验证码错误! "; payload = [] })
unfolding phone_login phone_session select_by_phone phone_check phone_digits char_at codes_code
    get_value read_with transact first_user Dict.lookup Dict.assign Dict.erase Str-discrete
    ℕ_discrete
refused = refl
