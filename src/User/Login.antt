-- ===== src/User/Login.antt =====
-- `UserLogin` and `PhoneLogin`.
pub mod Exclusive
pub mod Race
pub mod Again
use cpp_microservice_im.Base.{
  ℕ, Str, String, Bool, true, false, not, Option, none, some, [], if◌then◌else◌, ◌==◌, utf8,
}
use cpp_microservice_im.Base.Outcome.{Outcome, done, crash, M, pure, ◌>>=◌, ◌>>◌}
use cpp_microservice_im.Mysql.{User, select_by_nickname, select_by_phone}
use cpp_microservice_im.Proto.{Reply, err_response, success_response}
use cpp_microservice_im.Redis.{
  session_append, status_append, status_exists, codes_code, codes_remove,
}
use cpp_microservice_im.User.Check.{phone_check}
use cpp_microservice_im.User.Env.{Env, World, on_mysql, on_redis, fresh_uuid, value_of, pointee}
use cpp_microservice_im.User.Register.{differs, is_valid_pointer}

pub record UserLoginReq : Type 0 where
  pub request_id : Str
  pub nickname : Str
  pub password : Str

pub record PhoneLoginReq : Type 0 where
  pub request_id : Str
  pub phone_number : Str
  pub verify_code_id : Str
  pub verify_code : Str

-- The answer's payload is `login_session_id`.
abbrev pub login_error : Str → String → Reply Str
login_error rid message = err_response rid message []

module _ (E : Env) where
  -- From the test of the login mark on.
  unfoldable pub open_session : Str → User → M (World E) (Reply Str)
  open_session rid user = do
    ret ← on_redis E (status_exists E.redis user.user_id)
    if ret then pure (login_error rid "用户已在其他地方登录! ") else do
      ssid ← fresh_uuid E
      on_redis E (session_append E.redis ssid user.user_id)
      on_redis E (status_append E.redis user.user_id)
      pure (success_response rid ssid)

  unfoldable pub user_login : UserLoginReq → M (World E) (Reply Str)
  unfolding open_session
  user_login request = do
    found ← on_mysql E (select_by_nickname E.mysql request.nickname)
    elim found [
      | none ↦ pure (login_error request.request_id "用户名或密码错误! ")
      | some user ↦ do
        password ← value_of user.password
        if not (request.password == password)
            then pure (login_error request.request_id "用户名或密码错误! ")
            else open_session request.request_id user
    ]

  -- From the check of the code on. `user` is the pointer of the lookup. No login mark is set.
  unfoldable pub phone_session : PhoneLoginReq → Option User → M (World E) (Reply Str)
  phone_session request found = do
    vcode ← on_redis E (codes_code E.redis request.verify_code_id)
    if differs vcode request.verify_code
        then pure (login_error request.request_id "验证码错误! ")
        else do
          on_redis E (codes_remove E.redis request.verify_code_id)
          user ← pointee found
          ret ← on_redis E (status_exists E.redis user.user_id)
          if ret then pure (login_error request.request_id "用户已在其他地方登录! ") else do
            ssid ← fresh_uuid E
            on_redis E (session_append E.redis ssid user.user_id)
            pure (success_response request.request_id ssid)

  unfoldable pub phone_login : PhoneLoginReq → M (World E) (Reply Str)
  unfolding phone_session
  phone_login request = do
    ret ← λ w. (phone_check request.phone_number, w)
    if not ret then pure (login_error request.request_id "手机号码格式错误! ") else do
      user ← on_mysql E (select_by_phone E.mysql request.phone_number)
      if is_valid_pointer user
          then pure (login_error request.request_id "该手机号未注册过用户! ")
          else phone_session request user
