-- ===== src/User/Register/Failure.antt =====
-- The answers of `UserRegister` and `PhoneRegister`.
use cpp_microservice_im.Base.{◌≡◌, refl, true, false, none, arith}
use cpp_microservice_im.Base.Outcome.{Outcome, done, crash}
use cpp_microservice_im.Mysql.{select_by_nickname, insert, user_by_nickname}
use cpp_microservice_im.Uuid.{uuid}
use cpp_microservice_im.User.Check.{nickname_check, password_check}
use cpp_microservice_im.User.Env.{Env, World}
use cpp_microservice_im.User.Register.{
  Answer, UserRegisterReq, PhoneRegisterReq, user_register, register_new, phone_register,
  user_error,
}

-- The call answers, and not with success.
abbrev pub Refused : Outcome Answer → Type 0
Refused (done rsp) = rsp.success ≡ false
Refused (crash e) = ⊥

module _ (E : Env) where
  register_new_lem :
      (request : UserRegisterReq) (w : World E)
      → let (id, g) = uuid E.distribution w.ids in
        let (ret, s) =
          insert E.mysql (user_by_nickname id request.nickname request.password) w.mysql in
        register_new E request w
        ≡ (done (user_error request.request_id "MySQL数据库新增数据失败! "), record w { mysql = s; ids = g })
  unfolding register_new
  register_new_lem request w = refl

  -- `UserRegister` always answers, never with success, and never reaches the search engine.
  pub user_register_fails :
      (request : UserRegisterReq) (w : World E)
      → Refused (user_register E request w).0 × ((user_register E request w).1.es ≡ w.es)
  unfolding user_register
  user_register_fails request w = ground arith

  -- With an acceptable name and password and a name that nobody has, the new user is inserted, and the
  -- answer is that the insertion failed, also where it did not.
  pub user_register_stores :
      (request : UserRegisterReq) (w : World E) (s : E.mysql.State)
      → nickname_check request.nickname ≡ true
      → password_check request.password ≡ true
      → select_by_nickname E.mysql request.nickname w.mysql ≡ (none, s)
      → let (id, g) = uuid E.distribution w.ids in
        let (ret, t) = insert E.mysql (user_by_nickname id request.nickname request.password) s in
        user_register E request w
        ≡ (done (user_error request.request_id "MySQL数据库新增数据失败! "), record w { mysql = t; ids = g })
  unfolding user_register
  user_register_stores request w s n p free =
      ground (arith, register_new_lem request (record w { mysql = s }))

  -- An answer of `PhoneRegister` is never one of success, and the search engine is never reached.
  pub phone_register_fails :
      (request : PhoneRegisterReq) (w : World E) {rsp : Answer}
      → (phone_register E request w).0 ≡ done rsp
      → (rsp.success ≡ false) × ((phone_register E request w).1.es ≡ w.es)
  unfolding phone_register
  phone_register_fails request w h = ground arith
