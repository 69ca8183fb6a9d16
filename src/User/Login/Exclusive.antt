-- ===== src/User/Login/Exclusive.antt =====
-- The answers of `UserLogin` and `PhoneLogin`, and what a login leaves in redis.

use cpp_microservice_im.Base.{
  ◌≡◌, sym, ap, ◌∙◌, Str, Str-discrete, if◌then◌else◌, true, false, none, some, [], ◌==◌, arith,
  Option-cases, inl, inr,
}
use cpp_microservice_im.Base.Outcome.{done, crash, null_value, null_pointer}
use cpp_microservice_im.Mysql.{User, select_by_nickname, select_by_phone}
use cpp_microservice_im.Proto.{Reply}
use cpp_microservice_im.Redis.{
  Redis, IsLawful, session_append, status_append, status_exists, codes_remove, codes_code,
}
use cpp_microservice_im.Uuid.{uuid}
use cpp_microservice_im.User.Check.Accepted.{looks_like_phone, phone_check_lem}
use cpp_microservice_im.User.Env.{Env, World}
use cpp_microservice_im.User.Login.{
  UserLoginReq, PhoneLoginReq, open_session, user_login, phone_login,
}

module _ (E : Env) where
  -- What `open_session` did to redis, where it succeeded.
  open_session_success :
      (rid : Str) (user : User) (w : World E) (rsp : Reply Str)
      → (open_session E rid user w).0 ≡ done rsp
      → rsp.success ≡ true
      → (t u : E.redis.State) × (E.redis.get user.user_id w.redis ≡ some none)
        × (E.redis.set (uuid E.distribution w.ids).0 user.user_id w.redis ≡ some t)
        × (E.redis.set user.user_id [] t ≡ some u)
        × ((open_session E rid user w).1.redis ≡ u)
        × (rsp.payload ≡ (uuid E.distribution w.ids).0)
  unfolding open_session status_exists session_append status_append
  open_session_success rid user w rsp h good =
      elim (Option-cases (E.redis.get user.user_id w.redis)) [
        | inl e ↦ absurd (ground arith)
        | inr (some v, e) ↦ absurd (ground arith)
        | inr (none, e) ↦
            elim (Option-cases (E.redis.set (uuid E.distribution w.ids).0 user.user_id w.redis)) [
              | inl p ↦ absurd (ground arith)
              | inr (t, p) ↦ elim (Option-cases (E.redis.set user.user_id [] t)) [
                | inl q ↦ absurd (ground arith)
                | inr (u, q) ↦ (t, u, e, p, q, ground arith, ground arith)
              ]
            ]
      ]

  -- A successful login comes down to `open_session` on the user found, whose password was sent.
  login_open :
      (request : UserLoginReq) (w : World E) (rsp : Reply Str)
      → (user_login E request w).0 ≡ done rsp
      → rsp.success ≡ true
      → (user : User) × ((select_by_nickname E.mysql request.nickname w.mysql).0 ≡ some user)
        × (user.password ≡ some request.password)
        × (user_login E request w
            ≡ open_session E request.request_id user
                (record w { mysql = (select_by_nickname E.mysql request.nickname w.mysql).1 }))
  unfolding user_login
  login_open request w rsp h good =
      elim (Option-cases (select_by_nickname E.mysql request.nickname w.mysql).0) [
        | inl e ↦ absurd (ground arith)
        | inr (user, e) ↦ elim (Option-cases user.password) [
          | inl n ↦ absurd (ground arith)
          | inr (p, q) ↦ elim (Str-discrete request.password p) [
            | yes same ↦ (user, e, ground arith, ground arith)
            | no other ↦ absurd (ground arith)
          ]
        ]
      ]

  -- A user without a password, such as one who registered by phone, makes a login under that
  -- user's nickname follow a null value, whatever password was sent.
  pub user_login_null :
      (request : UserLoginReq) (w : World E) (user : User)
      → (select_by_nickname E.mysql request.nickname w.mysql).0 ≡ some user
      → user.password ≡ none
      → (user_login E request w).0 ≡ crash null_value
  unfolding user_login
  user_login_null request w user found nul = ground arith

  -- No answer of `PhoneLogin` is one of success.
  pub phone_login_fails :
      (request : PhoneLoginReq) (w : World E) {rsp : Reply Str}
      → (phone_login E request w).0 ≡ done rsp
      → rsp.success ≡ false
  unfolding phone_login
  phone_login_fails request w {rsp} h = ground arith

  -- With a number that looks right, that nobody registered, and the code that redis has, the call
  -- removes the code, and then follows the null pointer of the user that it did not find.
  pub phone_login_null :
      (request : PhoneLoginReq) (w : World E) (t : E.redis.State)
      → looks_like_phone request.phone_number ≡ true
      → (select_by_phone E.mysql request.phone_number w.mysql).0 ≡ none
      → E.redis.get request.verify_code_id w.redis ≡ some (some request.verify_code)
      → E.redis.del request.verify_code_id w.redis ≡ some t
      → ((phone_login E request w).0 ≡ crash null_pointer) × ((phone_login E request w).1.redis ≡ t)
  unfolding phone_login codes_code codes_remove
  phone_login_null request w t p nobody code gone =
      ground (arith, phone_check_lem request.phone_number)

-- The content of redis after the two keys of a login were set.
session_content :
    (R : Redis) (L : IsLawful R) (ssid uid : Str) (s t u : R.State)
    → R.get uid s ≡ some none
    → R.set ssid uid s ≡ some t
    → R.set uid [] t ≡ some u
    → (L.content s uid ≡ none)
      × (L.content u ssid ≡ (if ssid == uid then some [] else some uid))
      × (L.content u uid ≡ some [])
session_content R L ssid uid s t u g p q = ground (
  arith,
  L.get-content uid s none g,
  L.content-set ssid ssid uid s t p,
  L.content-set ssid uid [] t u q,
  L.content-set uid uid [] t u q,
)

module _ (E : Env) (L : IsLawful E.redis) where
  -- On a lawful redis, a successful login found a user of that nickname and password who had no
  -- login mark. Redis then has the user's identifier under the session that is returned, if the
  -- two keys differ, and the user's mark.
  pub user_login_success :
      (request : UserLoginReq) (w : World E) (rsp : Reply Str)
      → (user_login E request w).0 ≡ done rsp
      → rsp.success ≡ true
      → let w' = (user_login E request w).1 in
        (user : User) × ((select_by_nickname E.mysql request.nickname w.mysql).0 ≡ some user)
        × (user.password ≡ some request.password)
        × (L.content w.redis user.user_id ≡ none)
        × (L.content w'.redis rsp.payload
            ≡ (if rsp.payload == user.user_id then some [] else some user.user_id))
        × (L.content w'.redis user.user_id ≡ some [])
  user_login_success request w rsp h good =
      let (user, found, secret, same) = login_open E request w rsp h good in
      let before = record w { mysql = (select_by_nickname E.mysql request.nickname w.mysql).1 } in
      let (t, u, g, p, q, r, n) =
        open_session_success E request.request_id user before rsp (ap (λ x. x.0) (sym same) ∙ h)
          good in
      let (a, b, c) =
        session_content E.redis L (uuid E.distribution w.ids).0 user.user_id w.redis t u g p q in
      let last : (user_login E request w).1.redis ≡ u = ap (λ x. x.1.redis) same ∙ r in
      (user, found, secret, a, rw (last, n) b, rw last c)
