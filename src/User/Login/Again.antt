-- ===== src/User/Login/Again.antt =====
-- A login mark is taken for a code, and the user logs in a second time.
use cpp_microservice_im.Base.{
  ◌≡◌, ◌≢◌, sym, ap, subst, ◌∙◌, Str, true, none, some, [], arith, Option-cases, inl, inr,
}
use cpp_microservice_im.Base.Outcome.{done, crash, null_pointer}
use cpp_microservice_im.Mysql.{User, select_by_nickname, select_by_phone}
use cpp_microservice_im.Proto.{success_response}
use cpp_microservice_im.Redis.{IsLawful, status_exists, session_append, status_append}
use cpp_microservice_im.User.Check.Accepted.{looks_like_phone}
use cpp_microservice_im.User.Env.{Env, World}
use cpp_microservice_im.User.Login.{
  UserLoginReq, PhoneLoginReq, user_login, phone_login, open_session,
}
use cpp_microservice_im.User.Login.Exclusive.{phone_login_null}
use cpp_microservice_im.Uuid.{uuid}

module _ (E : Env) where
  -- The answer, and redis afterwards, where there is no mark and redis takes what it is given.
  opened :
      (rid : Str) (user : User) (w : World E) (t u : E.redis.State)
      → let ssid = (uuid E.distribution w.ids).0 in
        E.redis.get user.user_id w.redis ≡ some none
        → E.redis.set ssid user.user_id w.redis ≡ some t
        → E.redis.set user.user_id [] t ≡ some u
        → ((open_session E rid user w).0 ≡ done (success_response rid ssid))
          × ((open_session E rid user w).1.redis ≡ u)
  unfolding open_session status_exists session_append status_append
  opened rid user w t u g p q = ground arith

  -- With the right password a login comes down to `open_session`.
  accepted :
      (request : UserLoginReq) (w : World E) (user : User)
      → (select_by_nickname E.mysql request.nickname w.mysql).0 ≡ some user
      → user.password ≡ some request.password
      → user_login E request w
        ≡ open_session E request.request_id user
            (record w { mysql = (select_by_nickname E.mysql request.nickname w.mysql).1 })
  unfolding user_login
  accepted request w user found secret = ground arith

module _ (E : Env) (L : IsLawful E.redis) where
  unmarked :
      (uid : Str) (r s : E.redis.State)
      → E.redis.del uid r ≡ some s
      → E.redis.get uid s ≢ none
      → E.redis.get uid s ≡ some none
  unmarked uid r s gone up = elim (Option-cases (E.redis.get uid s)) [
    | inl e ↦ absurd (up e)
    | inr (o, e) ↦ ground (arith, L.get-content uid s o e, L.content-del uid uid r s gone)
  ]

  -- The mark of a login is the empty text under the user's identifier, where `PhoneLogin` looks for a
  -- code, which it removes. On a lawful redis that has this mark and does the commands that it is
  -- given, after a `PhoneLogin` with a number that looks right and that nobody registered, the user's
  -- identifier for that of its code, and no code, which breaks off at the null pointer of the user, a
  -- login with the user's nickname and password succeeds, and redis still has what it had under every
  -- key but the new session's and the user's.
  pub second_login :
      (attack : PhoneLoginReq) (request : UserLoginReq) (w : World E) (user : User)
      (s t u : E.redis.State)
      → looks_like_phone attack.phone_number ≡ true
      → (select_by_phone E.mysql attack.phone_number w.mysql).0 ≡ none
      → attack.verify_code_id ≡ user.user_id
      → attack.verify_code ≡ []
      → E.redis.get user.user_id w.redis ≡ some (some [])
      → E.redis.del user.user_id w.redis ≡ some s
      → let v = (phone_login E attack w).1 in
        let ssid = (uuid E.distribution v.ids).0 in
        (select_by_nickname E.mysql request.nickname v.mysql).0 ≡ some user
        → user.password ≡ some request.password
        → E.redis.get user.user_id s ≢ none
        → E.redis.set ssid user.user_id s ≡ some t
        → E.redis.set user.user_id [] t ≡ some u
        → ((phone_login E attack w).0 ≡ crash null_pointer)
          × ((user_login E request v).0 ≡ done (success_response request.request_id ssid))
          × ((k : Str)
              → k ≢ user.user_id
              → k ≢ ssid
              → L.content (user_login E request v).1.redis k ≡ L.content w.redis k)
  second_login attack request w user s t u p nobody id code there gone found secret up st st' =
      let v = (phone_login E attack w).1 in
      let null =
        phone_login_null E attack w s p nobody
          (subst (λ k. E.redis.get k w.redis ≡ some (some attack.verify_code)) (sym id)
            (there ∙ ap (λ c. some (some c)) (sym code)))
          (subst (λ k. E.redis.del k w.redis ≡ some s) (sym id) gone) in
      let same = accepted E request v user found secret in
      let (ok, last) =
        opened E request.request_id user
          (record v { mysql = (select_by_nickname E.mysql request.nickname v.mysql).1 }) t u
          (ap (E.redis.get user.user_id) null.1 ∙ unmarked user.user_id w.redis s gone up)
          (ap (E.redis.set _ user.user_id) null.1 ∙ st) st' in
      (
        null.0,
        ap (λ x. x.0) same ∙ ok,
        λ k n n'.
            ap (λ x. L.content x.1.redis k) same
            ∙ ap (λ r. L.content r k) last
            ∙ ground (
              arith,
              L.content-set k user.user_id [] t u st',
              L.content-set k (uuid E.distribution v.ids).0 user.user_id s t st,
              L.content-del k user.user_id w.redis s gone,
            ),
      )
