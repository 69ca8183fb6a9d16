-- ===== src/User/Profile/Setters.antt =====
-- What the setters of the nickname, the description and the phone number store.
use cpp_microservice_im.Base.{
  if◌then◌else◌, ◌≡◌, subst, sym, ap, ◌∙◌, Str, true, none, some, arith, Bool-cases, length, ◌<◌,
  Option-cases, inl, inr,
}
use cpp_microservice_im.Base.Outcome.{done, M, pure, bind_done}
use cpp_microservice_im.Mysql.{User}
use cpp_microservice_im.Redis.{codes_code, codes_code_known}
use cpp_microservice_im.User.Check.Accepted.{nickname_check-lt, looks_like_phone, phone_check_lem}
use cpp_microservice_im.User.Check.{nickname_check}
use cpp_microservice_im.User.Env.{Env, World, on_redis}
use cpp_microservice_im.User.Register.{Answer, differs, user_error}
use cpp_microservice_im.User.Profile.{
  store_user, with_user, set_user_nickname, set_user_description, set_user_phone_number,
}
use cpp_microservice_im.User.Profile.Update.{Changed, with_user-store_user}

abbrev pub rename_user : Str → User → User
rename_user new_nickname user = record user { nickname = some new_nickname }

abbrev pub move_user : Str → User → User
move_user new_phone user = record user { phone = some new_phone }

module _ (E : Env) where
  pub set_user_nickname_lem :
      (rid uid new_nickname : Str) (w : World E)
      → nickname_check new_nickname ≡ true
      → set_user_nickname E rid uid new_nickname w
        ≡ with_user E rid uid
            (λ user.
              store_user E rid "更新数据库用户昵称失败!" "更新搜索引擎用户昵称失败!" (rename_user new_nickname user))
            w
  unfolding set_user_nickname
  set_user_nickname_lem rid uid new_nickname w short = rw short

  same_code :
      (code : Str) (f g : M (World E) Answer) (w : World E)
      → (if differs (some code) code then f else g) w ≡ g w
  same_code code f g w = ground arith

  pub set_user_phone_number_lem :
      (rid uid new_phone code code_id : Str) (w : World E)
      → looks_like_phone new_phone ≡ true
      → E.redis.get code_id w.redis ≡ some (some code)
      → set_user_phone_number E rid uid new_phone code code_id w
        ≡ with_user E rid uid
            (λ user. store_user E rid "更新数据库用户手机号失败!" "更新搜索引擎用户手机号失败!" (move_user new_phone user))
            w
  unfolding set_user_phone_number
  set_user_phone_number_lem rid uid new_phone code code_id w right known =
      let save =
        with_user E rid uid
          λ user. store_user E rid "更新数据库用户手机号失败!" "更新搜索引擎用户手机号失败!" (move_user new_phone user) in
      let wrong : M (World E) Answer = pure (user_error rid "验证码错误! ") in
      rw (phone_check_lem new_phone) (
        rw right (
          bind_done (on_redis E (codes_code E.redis code_id))
            (λ vcode. if differs vcode code then wrong else save) (some code) w w
            (ap (λ x. (x.0, record w { redis = x.1 }))
              (codes_code_known E.redis code_id w.redis (some code) known))
          ∙ same_code code wrong save w))

  set_user_phone_number_guard :
      (rid uid new_phone code code_id : Str) (w : World E) (rsp : Answer)
      → (set_user_phone_number E rid uid new_phone code code_id w).0 ≡ done rsp
      → rsp.success ≡ true
      → (looks_like_phone new_phone ≡ true) × (E.redis.get code_id w.redis ≡ some (some code))
  unfolding set_user_phone_number codes_code
  set_user_phone_number_guard rid uid new_phone code code_id w rsp h good =
      elim (Option-cases (E.redis.get code_id w.redis)) [
        | inl n ↦ absurd (ground (arith, phone_check_lem new_phone))
        | inr (none, e) ↦ absurd (ground (arith, phone_check_lem new_phone))
        | inr (some v, e) ↦ ground (arith, phone_check_lem new_phone)
      ]

  -- A successful change of the nickname had a nickname of fewer than 22 bytes, and saved the user
  -- of that identifier with that nickname and the other fields as they were.
  pub set_user_nickname_success :
      (rid uid new_nickname : Str) (w : World E) (rsp : Answer)
      → (set_user_nickname E rid uid new_nickname w).0 ≡ done rsp
      → rsp.success ≡ true
      → (length new_nickname < 22)
        × Changed E uid
            (λ user. record user { nickname = some new_nickname })
            w
            (set_user_nickname E rid uid new_nickname w).1
  unfolding set_user_nickname
  set_user_nickname_success rid uid new_nickname w rsp h good =
      elim (Bool-cases (nickname_check new_nickname)) [
        | inr long ↦ absurd (ground arith)
        | inl short ↦
            let same = set_user_nickname_lem rid uid new_nickname w short in
            (
              nickname_check-lt new_nickname short,
              subst (λ x. Changed E uid (rename_user new_nickname) w x.1) (sym same)
                  (with_user-store_user E rid uid _ _ (rename_user new_nickname) w rsp
                    (ap (λ x. x.0) (sym same) ∙ h) good),
            )
      ]

  -- A successful change of the description saved the user of that identifier with that description
  -- and the other fields as they were.
  pub set_user_description_success :
      (rid uid new_description : Str) (w : World E) (rsp : Answer)
      → (set_user_description E rid uid new_description w).0 ≡ done rsp
      → rsp.success ≡ true
      → Changed E uid
          (λ user. record user { description = some new_description })
          w
          (set_user_description E rid uid new_description w).1
  unfolding set_user_description
  set_user_description_success rid uid new_description w rsp h good =
      with_user-store_user E rid uid _ _
        (λ user. record user { description = some new_description }) w rsp h good

  -- A successful change of the phone number had a number that looks right and the code that redis
  -- has under the identifier of the code, and saved the user of the user identifier with that
  -- number and the other fields as they were.
  pub set_user_phone_number_success :
      (rid uid new_phone code code_id : Str) (w : World E) (rsp : Answer)
      → (set_user_phone_number E rid uid new_phone code code_id w).0 ≡ done rsp
      → rsp.success ≡ true
      → (looks_like_phone new_phone ≡ true)
        × (E.redis.get code_id w.redis ≡ some (some code))
        × Changed E uid
            (λ user. record user { phone = some new_phone })
            w
            (set_user_phone_number E rid uid new_phone code code_id w).1
  unfolding set_user_phone_number codes_code
  set_user_phone_number_success rid uid new_phone code code_id w rsp h good =
      let (right, known) =
        set_user_phone_number_guard rid uid new_phone code code_id w rsp h good in
      let same = set_user_phone_number_lem rid uid new_phone code code_id w right known in
      (
        right,
        known,
        subst (λ x. Changed E uid (move_user new_phone) w x.1) (sym same)
            (with_user-store_user E rid uid _ _ (move_user new_phone) w rsp
              (ap (λ x. x.0) (sym same) ∙ h) good),
      )
