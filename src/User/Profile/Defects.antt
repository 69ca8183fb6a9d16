-- ===== src/User/Profile/Defects.antt =====
-- Setters of users who lack a text, and of the phone number after a login.
use cpp_microservice_im.Base.{◌≡◌, sym, ap, ◌∙◌, Str, true, Option, some, [], arith}
use cpp_microservice_im.Base.Outcome.{Outcome, done, crash, null_value}
use cpp_microservice_im.Mysql
use cpp_microservice_im.Mysql.{User, select_by_id, select_by_nickname}
use cpp_microservice_im.Proto.{Reply}
use cpp_microservice_im.Redis.{IsLawful}
use cpp_microservice_im.User.Check.{nickname_check}
use cpp_microservice_im.User.Check.Accepted.{looks_like_phone}
use cpp_microservice_im.User.Env.{Env, World}
use cpp_microservice_im.User.Login.{UserLoginReq, user_login}
use cpp_microservice_im.User.Login.Exclusive.{user_login_success}
use cpp_microservice_im.User.Profile.{
  store_user, with_user, set_user_nickname, set_user_phone_number,
}
use cpp_microservice_im.User.Profile.Update.{Incomplete, store_user_null}
use cpp_microservice_im.User.Profile.Setters.{
  set_user_nickname_lem, set_user_phone_number_lem, rename_user, move_user,
}
use mathlib.Core.Option.{some-injective}

module _ (E : Env) where
  with_user_found :
      (rid uid : Str) (f : User → World E → Outcome (Reply (Unit {0})) × World E) (w : World E)
      (user : User)
      → (select_by_id E.mysql uid w.mysql).0 ≡ some user
      → with_user E rid uid f w ≡ f user (record w { mysql = (select_by_id E.mysql uid w.mysql).1 })
  unfolding with_user
  with_user_found rid uid f w user found = ground arith

  -- A user who lacks one of the texts, as every user does after registration, is stored under a
  -- new nickname that is short enough, and where that succeeds the call then follows a null value
  -- instead of answering.
  pub set_user_nickname_null :
      (rid uid new_nickname : Str) (w : World E) (user : User) (s : E.mysql.State)
      → nickname_check new_nickname ≡ true
      → (select_by_id E.mysql uid w.mysql).0 ≡ some user
      → Incomplete (rename_user new_nickname user)
      → Mysql.update E.mysql (rename_user new_nickname user) (select_by_id E.mysql uid w.mysql).1
        ≡ (true, s)
      → ((set_user_nickname E rid uid new_nickname w).0 ≡ crash null_value)
        × ((set_user_nickname E rid uid new_nickname w).1.mysql ≡ s)
  set_user_nickname_null rid uid new_nickname w user s short found missing stored =
      let same =
        set_user_nickname_lem E rid uid new_nickname w short
        ∙ with_user_found rid uid _ w user found in
      let (a, b) = store_user_null E rid _ _ (rename_user new_nickname user) _ s stored missing in
      (ap (λ x. x.0) same ∙ a, ap (λ x. x.1.mysql) same ∙ b)

  -- The mark that a login leaves passes for a verification code: after a successful login on a lawful
  -- redis that answers, a change of that user's phone number to one that looks right passes the check of
  -- the code with the user's own identifier for the code's and an empty code, and goes on to the change.
  pub set_user_phone_number_by_mark :
      (L : IsLawful E.redis) (request : UserLoginReq) (rid new_phone : Str) (w : World E)
      (rsp : Reply Str) (user : User) (r : Option Str)
      → (user_login E request w).0 ≡ done rsp
      → rsp.success ≡ true
      → (select_by_nickname E.mysql request.nickname w.mysql).0 ≡ some user
      → E.redis.get user.user_id (user_login E request w).1.redis ≡ some r
      → looks_like_phone new_phone ≡ true
      → let w' = (user_login E request w).1 in
        set_user_phone_number E rid user.user_id new_phone [] user.user_id w'
        ≡ with_user E rid user.user_id
            (λ u. store_user E rid "更新数据库用户手机号失败!" "更新搜索引擎用户手机号失败!" (move_user new_phone u))
            w'
  set_user_phone_number_by_mark L request rid new_phone w rsp user r h good found answers right =
      let (x, fx, _, _, _, marked) = user_login_success E L request w rsp h good in
      let same : user ≡ x = some-injective user x (sym found ∙ fx) in
      let mark : r ≡ some [] = L.get-content user.user_id _ r answers ∙ rw same marked in
      set_user_phone_number_lem E rid user.user_id new_phone [] user.user_id
        (user_login E request w).1 right (answers ∙ ap some mark)
