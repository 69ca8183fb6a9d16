-- ===== src/User/Register.antt =====
-- `UserRegister`, `PhoneRegister` and `GetPhoneVerifyCode`.
pub mod Codes
pub mod Failure
use cpp_microservice_im.Base.{
  ℕ, Str, String, Bool, true, false, not, ◌||◌, Option, none, some, [], if◌then◌else◌, ◌==◌, utf8,
}
use cpp_microservice_im.Base.Outcome.{Outcome, done, crash, M, pure, ◌>>=◌, ◌>>◌}
use cpp_microservice_im.Dms.{send}
use cpp_microservice_im.EsUser.{append_data}
use cpp_microservice_im.Mysql.{
  User, user_by_nickname, user_by_phone, insert, select_by_nickname, select_by_phone,
}
use cpp_microservice_im.Proto.{Reply, err_response, success_response}
use cpp_microservice_im.Redis.{codes_append, codes_code}
use cpp_microservice_im.User.Check.{nickname_check, password_check, phone_check}
use cpp_microservice_im.User.Env.{Env, World, on_mysql, on_es, on_redis, on_sms, fresh_uuid}

-- `vcode != code`, for the optional text of redis.
abbrev pub differs : Option Str → Str → Bool
differs none code = true
differs (some vcode) code = not (vcode == code)

abbrev pub is_valid_pointer : Option User → Bool
is_valid_pointer none = false
is_valid_pointer (some user) = true

abbrev pub Answer : Type 0
Answer = Reply (Unit {0})

abbrev pub user_error : Str → String → Answer
user_error rid message = err_response rid message tt

pub record UserRegisterReq : Type 0 where
  pub request_id : Str
  pub nickname : Str
  pub password : Str

pub record PhoneRegisterReq : Type 0 where
  pub request_id : Str
  pub phone_number : Str
  pub verify_code_id : Str
  pub verify_code : Str

pub record PhoneVerifyCodeReq : Type 0 where
  pub request_id : Str
  pub phone_number : Str

module _ (E : Env) where
  -- After the lookup found nobody: `user` is the new object from here on, and both tests read it
  -- and not `ret`.
  unfoldable pub register_new : UserRegisterReq → M (World E) Answer
  register_new request = do
    uid ← fresh_uuid E
    let user = some (user_by_nickname uid request.nickname request.password)
    ret ← on_mysql E (insert E.mysql (user_by_nickname uid request.nickname request.password))
    if is_valid_pointer user then pure (user_error request.request_id "MySQL数据库新增数据失败! ") else do
      ret' ← on_es E (append_data E.json E.es uid request.nickname [] [] [])
      if is_valid_pointer user
          then pure (user_error request.request_id "ES搜索引擎新增数据失败! ")
          else pure (success_response request.request_id tt)

  unfoldable pub user_register : UserRegisterReq → M (World E) Answer
  unfolding register_new
  user_register request =
      if not (nickname_check request.nickname)
      then pure (user_error request.request_id "用户名长度不合法! ")
      else if not (password_check request.password)
      then pure (user_error request.request_id "密码格式不合法! ")
      else do
        user ← on_mysql E (select_by_nickname E.mysql request.nickname)
        if is_valid_pointer user
            then pure (user_error request.request_id "用户名被占用! ")
            else register_new request

  unfoldable pub get_phone_verify_code : PhoneVerifyCodeReq → M (World E) (Reply Str)
  get_phone_verify_code request = do
    ret ← λ w. (phone_check request.phone_number, w)
    if not ret then pure (err_response request.request_id "手机号码格式错误! " []) else do
      code_id ← fresh_uuid E
      code ← on_sms E (send E.sms request.phone_number)
      if code == [] then pure (err_response request.request_id "短信验证码发送失败! " []) else do
        on_redis E (codes_append E.redis code_id code)
        pure (success_response request.request_id code_id)

  unfoldable pub phone_register_new : PhoneRegisterReq → M (World E) Answer
  phone_register_new request = do
    uid ← fresh_uuid E
    let user = some (user_by_phone uid request.phone_number)
    ret ← on_mysql E (insert E.mysql (user_by_phone uid request.phone_number))
    if is_valid_pointer user then pure (user_error request.request_id "向数据库添加用户信息失败! ") else do
      ret' ← on_es E (append_data E.json E.es uid uid request.phone_number [] [])
      if is_valid_pointer user
          then pure (user_error request.request_id "ES搜索引擎新增数据失败! ")
          else pure (success_response request.request_id tt)

  unfoldable pub phone_register : PhoneRegisterReq → M (World E) Answer
  unfolding phone_register_new
  phone_register request = do
    ret ← λ w. (phone_check request.phone_number, w)
    if not ret then pure (user_error request.request_id "手机号码格式错误! ") else do
      vcode ← on_redis E (codes_code E.redis request.verify_code_id)
      if differs vcode request.verify_code
          then pure (user_error request.request_id "验证码错误! ")
          else do
            user ← on_mysql E (select_by_phone E.mysql request.phone_number)
            if is_valid_pointer user
                then pure (user_error request.request_id "该手机号已注册过用户! ")
                else phone_register_new request
