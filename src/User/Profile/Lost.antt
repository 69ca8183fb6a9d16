-- ===== src/User/Profile/Lost.antt =====
-- Two setters of one user at once: each reads the whole user, changes one field and writes the whole
-- user back, and another call may run in between.
use cpp_microservice_im.Base.{
  ◌≡◌, refl, sym, ap, subst, ◌∙◌, Str, String, true, none, some, not, if◌then◌else◌, arith, Option,
}
use cpp_microservice_im.Base.Outcome.{done, M, pure, ◌>>=◌}
use cpp_microservice_im.Mysql.{User, user_id_is, select_by_id}
use cpp_microservice_im.Mysql.Laws.{IsLawful, find-updated, find-select_by_id}
use cpp_microservice_im.User.Check.{nickname_check}
use cpp_microservice_im.User.Env.{Env, World, on_mysql}
use cpp_microservice_im.User.Profile.{
  store_user, with_user, set_user_nickname, set_user_description,
}
use cpp_microservice_im.User.Profile.Setters.{rename_user}
use cpp_microservice_im.User.Profile.Update.{store_user_success}
use cpp_microservice_im.User.Register.{Answer, user_error}

abbrev pub describe_user : Str → User → User
describe_user text user = record user { description = some text }

module _ (E : Env) where
  -- The lookup of either setter, and what follows where it finds the user.
  unfoldable pub user_read : Str → M (World E) (Option User)
  user_read uid = on_mysql E (select_by_id E.mysql uid)

  unfoldable pub nickname_write : Str → Str → User → M (World E) Answer
  nickname_write rid new_nickname user =
      store_user E rid "更新数据库用户昵称失败!" "更新搜索引擎用户昵称失败!" (rename_user new_nickname user)

  unfoldable pub description_write : Str → Str → User → M (World E) Answer
  description_write rid new_description user =
      store_user E rid "更新数据库用户签名失败!" "更新搜索引擎用户签名失败!" (describe_user new_description user)

  -- One right after the other, they are the setters.
  pub nickname_parts :
      (rid uid new_nickname : Str) (w : World E)
      → set_user_nickname E rid uid new_nickname w
        ≡ (if not (nickname_check new_nickname)
              then pure (user_error rid "用户名长度不合法! ")
              else (user_read uid >>= λ found. elim found [
                | none ↦ pure (user_error rid "未找到用户信息! ")
                | some user ↦ nickname_write rid new_nickname user
              ]))
            w
  unfolding set_user_nickname with_user user_read nickname_write
  nickname_parts rid uid new_nickname w = refl

  pub description_parts :
      (rid uid new_description : Str) (w : World E)
      → set_user_description E rid uid new_description w
        ≡ (user_read uid >>= λ found. elim found [
          | none ↦ pure (user_error rid "未找到用户信息! ")
          | some user ↦ description_write rid new_description user
        ])
            w
  unfolding set_user_description with_user user_read description_write
  description_parts rid uid new_description w = refl

  module _ (L : IsLawful E.mysql) where
    -- What is written is what the database then has.
    written :
        (rid uid : Str) (e e' : String) (user : User) (w : World E) (rsp : Answer)
        → user.user_id ≡ uid
        → (store_user E rid e e' user w).0 ≡ done rsp
        → rsp.success ≡ true
        → L.find (user_id_is uid) (store_user E rid e e' user w).1.mysql ≡ some user
    written rid uid e e' user w rsp same h good =
        let saved = store_user_success E rid e e' user w rsp h good in
        let there = find-updated E.mysql L user w.mysql (ap (λ x. x.0) saved.updated) in
        subst (λ k. L.find (user_id_is k) (store_user E rid e e' user w).1.mysql ≡ some user) same
          (ap (λ x. L.find (user_id_is user.user_id) x.1) (sym saved.updated) ∙ there)

    read_id :
        (uid : Str) (w : World E) (user : User)
        → (user_read uid w).0 ≡ done (some user)
        → user.user_id ≡ uid
    unfolding user_read
    read_id uid w user h =
        let found = find-select_by_id E.mysql L uid w.mysql user (ground arith) in
        let right = L.find-answers (user_id_is uid) w.mysql user found in ground (arith, right)

    -- On a lawful database, a SetUserNickname and a SetUserDescription that read the same user before
    -- either of them writes, and that both answer with success, the description after the nickname: after
    -- the first the user has the new nickname, and after the second the old one and the new description.
    pub nickname_lost :
        (rid rid' uid new_nickname new_description : Str) (w : World E) (user : User)
        (rsp rsp' : Answer)
        → (user_read uid w).0 ≡ done (some user)
        → let w₁ = (user_read uid w).1 in
          let w₂ = (user_read uid w₁).1 in
          let w₃ = (nickname_write rid new_nickname user w₂).1 in
          let w₄ = (description_write rid' new_description user w₃).1 in
          (user_read uid w₁).0 ≡ done (some user)
          → (nickname_write rid new_nickname user w₂).0 ≡ done rsp
          → rsp.success ≡ true
          → (description_write rid' new_description user w₃).0 ≡ done rsp'
          → rsp'.success ≡ true
          → (L.find (user_id_is uid) w₃.mysql ≡ some (record user { nickname = some new_nickname }))
            × (L.find (user_id_is uid) w₄.mysql
                ≡ some (record user { description = some new_description }))
    unfolding nickname_write description_write
    nickname_lost rid rid' uid new_nickname new_description w user rsp rsp' found found' h good h'
          good' =
        let same = read_id uid w user found in
        (
          written rid uid _ _ (rename_user new_nickname user) _ rsp same h good,
          written rid' uid _ _ (describe_user new_description user) _ rsp' same h' good',
        )
