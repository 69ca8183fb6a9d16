-- ===== src/User/Flows/Code.antt =====
-- A code that was sent, and a registration with it, sooner or later.
use cpp_microservice_im.Base.{
  ℕ, ltb, if◌then◌else◌, refl, Bool-cases, inl, inr, ◌≡◌, ap, ◌∙◌, Str, true, Option, none, some,
  arith,
}
use cpp_microservice_im.Base.Outcome.{done}
use cpp_microservice_im.Dms.{send}
use cpp_microservice_im.Mysql.{insert, select_by_phone, user_by_phone}
use cpp_microservice_im.Proto.{Reply}
use cpp_microservice_im.Redis.Clock.{HasClock}
use cpp_microservice_im.Redis.{IsLawful, codes_code, get_value}
use cpp_microservice_im.User.Check.Accepted.{looks_like_phone, phone_check_lem}
use cpp_microservice_im.User.Env.{Env, World}
use cpp_microservice_im.User.Register.{
  PhoneVerifyCodeReq, PhoneRegisterReq, get_phone_verify_code, phone_register, phone_register_new,
  user_error,
}
use cpp_microservice_im.User.Register.Codes.{get_phone_verify_code_later}
use cpp_microservice_im.Uuid.{uuid}

module _ (E : Env) where
  -- A registration with the code that is stored, by a number that nobody has.
  phone_register_stores :
      (request : PhoneRegisterReq) (v : World E) (s : E.mysql.State)
      → looks_like_phone request.phone_number ≡ true
      → E.redis.get request.verify_code_id v.redis ≡ some (some request.verify_code)
      → select_by_phone E.mysql request.phone_number v.mysql ≡ (none, s)
      → let (id, g) = uuid E.distribution v.ids in
        phone_register E request v ≡ (
          done (user_error request.request_id "向数据库添加用户信息失败! "),
          record v {
            mysql = (insert E.mysql (user_by_phone id request.phone_number) s).1;
            ids = g;
          },
        )
  unfolding phone_register phone_register_new codes_code get_value
  phone_register_stores request v s right code free =
      ground (arith, phone_check_lem request.phone_number)

  -- A registration with a code that redis does not have.
  phone_register_refused :
      (request : PhoneRegisterReq) (v : World E)
      → looks_like_phone request.phone_number ≡ true
      → E.redis.get request.verify_code_id v.redis ≡ some none
      → phone_register E request v ≡ (done (user_error request.request_id "验证码错误! "), v)
  unfolding phone_register codes_code get_value
  phone_register_refused request v right gone = ground (arith, phone_check_lem request.phone_number)

  -- On a lawful redis that answers, after a code was sent to one number, and if nothing but time went by
  -- in redis: for less than a minute a registration with that code inserts a user under any number that
  -- looks right and that nobody has, be it the one the code was sent to or not; the code stays in redis,
  -- and the answer says that the insertion failed. From a minute on the code is refused.
  pub phone_register-get_phone_verify_code :
      (L : IsLawful E.redis) (T : HasClock E.redis L) (n : ℕ) (request : PhoneVerifyCodeReq)
      (w v : World E) (rsp : Reply Str) (rid number : Str) (s : E.mysql.State) (r : Option Str)
      → (get_phone_verify_code E request w).0 ≡ done rsp
      → rsp.success ≡ true
      → v.redis ≡ T.pass n (get_phone_verify_code E request w).1.redis
      → E.redis.get rsp.payload v.redis ≡ some r
      → looks_like_phone number ≡ true
      → select_by_phone E.mysql number v.mysql ≡ (none, s)
      → let (id, g) = uuid E.distribution v.ids in
        phone_register E
          (record {
            request_id = rid;
            phone_number = number;
            verify_code_id = rsp.payload;
            verify_code = (send E.sms request.phone_number w.sms).0;
          })
          v
        ≡ (if ltb n 60000
            then (
              done (user_error rid "向数据库添加用户信息失败! "),
              record v { mysql = (insert E.mysql (user_by_phone id number) s).1; ids = g },
            )
            else (done (user_error rid "验证码错误! "), v))
  phone_register-get_phone_verify_code L T n request w v rsp rid number s r sent good kept answers
        right free =
      let code = (send E.sms request.phone_number w.sms).0 in
      let registration : PhoneRegisterReq = record {
        request_id = rid;
        phone_number = number;
        verify_code_id = rsp.payload;
        verify_code = code;
      } in
      let there : r ≡ (if ltb n 60000 then some code else none) =
        L.get-content rsp.payload v.redis r answers
        ∙ ap (λ x. L.content x rsp.payload) kept
        ∙ get_phone_verify_code_later E L T request w rsp n sent good in
      elim (Bool-cases (ltb n 60000)) [
        | inl soon ↦ rw soon (
            phone_register_stores registration v s right (answers ∙ ap some (there ∙ rw soon refl))
              free)
        | inr late ↦
            rw late (
              phone_register_refused registration v right
                (answers ∙ ap some (there ∙ rw late refl)))
      ]
