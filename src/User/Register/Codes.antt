-- ===== src/User/Register/Codes.antt =====
-- The code that `GetPhoneVerifyCode` leaves in redis.
use cpp_microservice_im.Base.{
  ℕ, ltb, none, if◌then◌else◌, ◌≡◌, ◌≢◌, refl, Str, true, false, some, [], arith, Option-cases, inl,
  inr,
}
use cpp_microservice_im.Base.Outcome.{done}
use cpp_microservice_im.Dms.{send}
use cpp_microservice_im.Proto.{Reply, err_response}
use cpp_microservice_im.Redis.Clock.{HasClock}
use cpp_microservice_im.Redis.{IsLawful, codes_append, code_ttl, command}
use cpp_microservice_im.User.Check.Accepted.{looks_like_phone, phone_check_lem}
use cpp_microservice_im.User.Env.{Env, World}
use cpp_microservice_im.User.Register.{PhoneVerifyCodeReq, get_phone_verify_code}
use cpp_microservice_im.Uuid.{uuid}

module _ (E : Env) (L : IsLawful E.redis) where
  -- On a lawful redis, a successful call was for a number that looks right, and redis then has the
  -- code that the SMS platform sent, which is not empty, under the identifier that is returned, a
  -- fresh one.
  pub get_phone_verify_code_success :
      (request : PhoneVerifyCodeReq) (w : World E) (rsp : Reply Str)
      → (get_phone_verify_code E request w).0 ≡ done rsp
      → rsp.success ≡ true
      → let w' = (get_phone_verify_code E request w).1 in
        let code = (send E.sms request.phone_number w.sms).0 in
        (looks_like_phone request.phone_number ≡ true)
        × (rsp.payload ≡ (uuid E.distribution w.ids).0)
        × (code ≢ [])
        × (L.content w'.redis rsp.payload ≡ some code)
  unfolding get_phone_verify_code codes_append command
  get_phone_verify_code_success request w rsp h good =
      let id = (uuid E.distribution w.ids).0 in
      let code = (send E.sms request.phone_number w.sms).0 in
      elim (Option-cases (E.redis.set_for id code (code_ttl E.redis) w.redis)) [
        | inl e ↦ absurd (ground (arith, phone_check_lem request.phone_number))
        | inr (t, e) ↦ ground (
          arith,
          phone_check_lem request.phone_number,
          L.content-set_for id id code (code_ttl E.redis) w.redis t e,
        )
      ]

module _ (E : Env) (L : IsLawful E.redis) (T : HasClock E.redis L) where
  -- So much later the code is there, or it is gone.
  pub get_phone_verify_code_later :
      (request : PhoneVerifyCodeReq) (w : World E) (rsp : Reply Str) (n : ℕ)
      → (get_phone_verify_code E request w).0 ≡ done rsp
      → rsp.success ≡ true
      → L.content (T.pass n (get_phone_verify_code E request w).1.redis) rsp.payload
        ≡ (if ltb n 60000 then some (send E.sms request.phone_number w.sms).0 else none)
  unfolding get_phone_verify_code codes_append command
  get_phone_verify_code_later request w rsp n h good =
      let id = (uuid E.distribution w.ids).0 in
      let code = (send E.sms request.phone_number w.sms).0 in
      let (_, _, _, stored) = get_phone_verify_code_success E L request w rsp h good in
      elim (Option-cases (E.redis.set_for id code (code_ttl E.redis) w.redis)) [
        | inl e ↦ absurd (ground (arith, phone_check_lem request.phone_number))
        | inr (t, e) ↦ ground (
          arith,
          phone_check_lem request.phone_number,
          stored,
          T.lives-set_for rsp.payload id code (code_ttl E.redis) w.redis t e,
          T.content-pass rsp.payload n (get_phone_verify_code E request w).1.redis,
        )
      ]

module _ (E : Env) where
  -- A number that does not look right is refused, and nothing is sent or stored.
  pub get_phone_verify_code_refused :
      (request : PhoneVerifyCodeReq) (w : World E)
      → looks_like_phone request.phone_number ≡ false
      → (rsp : Reply Str) × (rsp.success ≡ false)
        × (get_phone_verify_code E request w ≡ (done rsp, w))
  unfolding get_phone_verify_code
  get_phone_verify_code_refused request w wrong = (
    err_response request.request_id "手机号码格式错误! " [],
    refl,
    rw (phone_check_lem request.phone_number) (rw wrong refl),
  )
