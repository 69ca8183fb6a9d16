-- ===== src/User/Flows/Registration.antt =====
-- A registration, and a login afterwards.
use cpp_microservice_im.Base.{◌≡◌, refl, ap, subst, ◌∙◌, Str, true, none, some, [], arith}
use cpp_microservice_im.Base.Outcome.{done}
use cpp_microservice_im.Mysql.{User, insert, user_by_nickname, select_by_nickname, nickname_is}
use cpp_microservice_im.Mysql.Laws
use cpp_microservice_im.Mysql.Laws.{find-insert, find-select_by_nickname}
use cpp_microservice_im.Proto.{success_response}
use cpp_microservice_im.Redis.{status_exists, session_append, status_append, command, get_value}
use cpp_microservice_im.User.Check.{nickname_check, password_check}
use cpp_microservice_im.User.Env.{Env, World}
use cpp_microservice_im.User.Login.{UserLoginReq, user_login, open_session}
use cpp_microservice_im.User.Register.{UserRegisterReq, user_register, user_error}
use cpp_microservice_im.User.Register.Failure.{user_register_stores}
use cpp_microservice_im.Uuid.{uuid}

module _ (E : Env) (L : Laws.IsLawful E.mysql) where
  -- Redis answers what a login asks of it: there is no mark of the user, and the session and then the
  -- mark can be stored.
  pub record Ready (uid ssid : Str) (redis : E.redis.State) : Type 0 where
    pub opened : E.redis.State
    pub marked : E.redis.State
    pub unmarked : E.redis.get uid redis ≡ some none
    pub stores_session : E.redis.set ssid uid redis ≡ some opened
    pub stores_mark : E.redis.set uid [] opened ≡ some marked

  open_session-Ready :
      (rid : Str) (user : User) (w : World E)
      → Ready user.user_id (uuid E.distribution w.ids).0 w.redis
      → (open_session E rid user w).0 ≡ done (success_response rid (uuid E.distribution w.ids).0)
  unfolding open_session status_exists session_append status_append command get_value
  open_session-Ready rid user w r = ground (arith, r.unmarked, r.stores_session, r.stores_mark)

  user_login-Ready :
      (request : UserLoginReq) (w : World E) (user : User)
      → (select_by_nickname E.mysql request.nickname w.mysql).0 ≡ some user
      → user.password ≡ some request.password
      → Ready user.user_id (uuid E.distribution w.ids).0 w.redis
      → (user_login E request w).0
        ≡ done (success_response request.request_id (uuid E.distribution w.ids).0)
  unfolding user_login
  user_login-Ready request w user found known r =
      let looked_up = record w {
        mysql = (select_by_nickname E.mysql request.nickname w.mysql).1;
      } in
      ground (arith, open_session-Ready request.request_id user looked_up r)

  -- The user whom the database finds is the one who was inserted.
  found_inserted :
      (uid nickname password : Str) (s t : E.mysql.State) (found : User)
      → insert E.mysql (user_by_nickname uid nickname password) s ≡ (true, t)
      → (select_by_nickname E.mysql nickname t).0 ≡ some found
      → found ≡ user_by_nickname uid nickname password
  unfolding user_by_nickname
  found_inserted uid nickname password s t found made answers =
      let new = user_by_nickname uid nickname password in
      let stored = find-insert E.mysql L (nickname_is nickname) new s (ap (λ x. x.0) made) in
      let seen = find-select_by_nickname E.mysql L nickname t found answers in ground (arith, made)

  -- On a lawful database, a user who registers with an acceptable name and password and a name that
  -- nobody has is told that it failed. Yet where the insertion was made, a login with that name and
  -- password succeeds as long as the table stays as it is, the database answers, and redis has no
  -- mark of the user and stores what it is given.
  pub user_register-user_login :
      (request : UserRegisterReq) (w v : World E) (s t : E.mysql.State) (rid : Str) (found : User)
      → nickname_check request.nickname ≡ true
      → password_check request.password ≡ true
      → select_by_nickname E.mysql request.nickname w.mysql ≡ (none, s)
      → insert E.mysql
          (user_by_nickname (uuid E.distribution w.ids).0 request.nickname request.password)
          s
        ≡ (true, t)
      → v.mysql ≡ (user_register E request w).1.mysql
      → (select_by_nickname E.mysql request.nickname v.mysql).0 ≡ some found
      → Ready (uuid E.distribution w.ids).0 (uuid E.distribution v.ids).0 v.redis
      → ((user_register E request w).0 ≡ done (user_error request.request_id "MySQL数据库新增数据失败! "))
        × ((user_login E
              (record {
                request_id = rid;
                nickname = request.nickname;
                password = request.password;
              })
              v).0
            ≡ done (success_response rid (uuid E.distribution v.ids).0))
  unfolding user_by_nickname
  user_register-user_login request w v s t rid found n p free made kept answers r =
      let uid = (uuid E.distribution w.ids).0 in
      let new = user_by_nickname uid request.nickname request.password in
      let stored = user_register_stores E request w s n p free in
      let same : v.mysql ≡ t = kept ∙ ap (λ x. x.1.mysql) stored ∙ ap (λ x. x.1) made in
      let who = found_inserted uid request.nickname request.password s t found made (
        subst (λ d. (select_by_nickname E.mysql request.nickname d).0 ≡ some found) same answers) in
      (
        ap (λ x. x.0) stored,
        user_login-Ready
            (record { request_id = rid; nickname = request.nickname; password = request.password })
            v new (answers ∙ ap some who) refl r,
      )
