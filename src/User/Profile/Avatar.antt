-- ===== src/User/Profile/Avatar.antt =====
-- What `SetUserAvatar` stores.
use cpp_microservice_im.Base.{
  String, ◌≡◌, Str, true, Option, some, [], arith, length, Option-cases, inl, inr, ◌∙◌, ap, sym,
}
use cpp_microservice_im.Base.Outcome.{done}
use cpp_microservice_im.Channel.{Channel, choose_service}
use cpp_microservice_im.File.{FileUploadData, FileMessageInfo}
use cpp_microservice_im.Mysql
use cpp_microservice_im.Mysql.{User, Database, user_id_is, select_by_id}
use cpp_microservice_im.Mysql.Laws.{IsLawful as IsLawfulDatabase, find-updated, find-select_by_id}
use cpp_microservice_im.User.Env.{Env, World}
use cpp_microservice_im.User.Profile.{
  payload_of, file_id_of, store_user, with_user, set_user_avatar,
}
use cpp_microservice_im.User.Profile.Update.{Saved, with_user_success, store_user_success}
use cpp_microservice_im.User.Register.{Answer}

-- The user that is found after an update is the one that was stored, under the identifier of the query.
pub same_user :
    (M : Database) (D : IsLawfulDatabase M) (uid : Str) (user changed later : User)
    (s s₀ t : M.State)
    → changed.user_id ≡ user.user_id
    → (select_by_id M uid s₀).0 ≡ some user
    → Mysql.update M changed s ≡ (true, t)
    → (select_by_id M uid t).0 ≡ some later
    → (later ≡ changed) × (changed.user_id ≡ uid)
same_user M D uid user changed later s s₀ t kept found updated again =
    let asked = D.find-answers (user_id_is uid) s₀ user (find-select_by_id M D uid s₀ user found) in
    let here : changed.user_id ≡ uid = ground arith in
    let stored = find-updated M D changed s (ap (λ x. x.0) updated) in
    let seen = find-select_by_id M D uid t later again in (ground (arith, updated), here)

abbrev pub avatar_file : Str → FileUploadData
avatar_file avatar = record { file_name = []; file_size = length avatar; file_content = avatar }

module _ (E : Env) where
  -- The state after the upload, before the user is stored.
  abbrev uploaded : Str → Str → Str → Channel → World E → World E
  uploaded rid uid avatar c w = record w {
    mysql = (select_by_id E.mysql uid w.mysql).1;
    mm_channels = (choose_service E.file_service_name w.mm_channels).1;
    files = (E.file.put_single_file c rid (avatar_file avatar) w.files).1;
  }

  pub set_user_avatar_lem :
      (rid uid avatar : Str) (w : World E) (user : User) (c : Channel)
      (info : Option FileMessageInfo)
      → (select_by_id E.mysql uid w.mysql).0 ≡ some user
      → (choose_service E.file_service_name w.mm_channels).0 ≡ some c
      → payload_of (E.file.put_single_file c rid (avatar_file avatar) w.files).0 ≡ some info
      → set_user_avatar E rid uid avatar w
        ≡ store_user E rid "更新数据库用户头像ID失败!" "更新搜索引擎用户头像ID失败!"
            (record user { avatar_id = some (file_id_of info) })
            (uploaded rid uid avatar c w)
  unfolding set_user_avatar with_user
  set_user_avatar_lem rid uid avatar w user c info found e f = ground arith

  store_user_files :
      (rid : Str) (e e' : String) (user : User) (w : World E)
      → (store_user E rid e e' user w).1.files ≡ w.files
  unfolding store_user
  store_user_files rid e e' user w = ground arith

  -- The file service is as the upload left it.
  pub set_user_avatar_files :
      (rid uid avatar : Str) (w : World E) (user : User) (c : Channel)
      (info : Option FileMessageInfo)
      → (select_by_id E.mysql uid w.mysql).0 ≡ some user
      → (choose_service E.file_service_name w.mm_channels).0 ≡ some c
      → payload_of (E.file.put_single_file c rid (avatar_file avatar) w.files).0 ≡ some info
      → (set_user_avatar E rid uid avatar w).1.files
        ≡ (E.file.put_single_file c rid (avatar_file avatar) w.files).1
  set_user_avatar_files rid uid avatar w user c info found e f =
      ap (λ x. x.1.files) (set_user_avatar_lem rid uid avatar w user c info found e f)
      ∙ store_user_files rid _ _ _ (uploaded rid uid avatar c w)

  saved_lem :
      (rid uid avatar : Str) (w : World E) (rsp : Answer) (user : User) (c : Channel)
      (info : Option FileMessageInfo)
      → (set_user_avatar E rid uid avatar w).0 ≡ done rsp
      → rsp.success ≡ true
      → (select_by_id E.mysql uid w.mysql).0 ≡ some user
      → (choose_service E.file_service_name w.mm_channels).0 ≡ some c
      → payload_of (E.file.put_single_file c rid (avatar_file avatar) w.files).0 ≡ some info
      → Saved E
          (record user { avatar_id = some (file_id_of info) })
          (select_by_id E.mysql uid w.mysql).1
          w
          (set_user_avatar E rid uid avatar w).1
  saved_lem rid uid avatar w rsp user c info h good found e f =
      let same = set_user_avatar_lem rid uid avatar w user c info found e f in
      let saved =
        store_user_success E rid _ _ (record user { avatar_id = some (file_id_of info) })
          (uploaded rid uid avatar c w) rsp (ap (λ x. x.0) (sym same) ∙ h) good in
      record {
        nickname = saved.nickname;
        phone = saved.phone;
        description = saved.description;
        avatar_id = saved.avatar_id;
        has_nickname = saved.has_nickname;
        has_phone = saved.has_phone;
        has_description = saved.has_description;
        has_avatar_id = saved.has_avatar_id;
        updated = saved.updated ∙ ap (λ x. (true, x.1.mysql)) (sym same);
        indexed = saved.indexed ∙ ap (λ x. (true, x.1.es)) (sym same);
        redis_kept = ap (λ x. x.1.redis) same ∙ saved.redis_kept;
      }

  -- A successful change of the avatar uploaded it over a channel of the file service, and saved
  -- the user of that identifier with the file identifier that was returned and the other fields as
  -- they were.
  pub set_user_avatar_success :
      (rid uid avatar : Str) (w : World E) (rsp : Answer)
      → (set_user_avatar E rid uid avatar w).0 ≡ done rsp
      → rsp.success ≡ true
      → (user : User) × (c : Channel) × (info : Option FileMessageInfo) × ((select_by_id E.mysql uid
            w.mysql).0
          ≡ some user)
        × ((choose_service E.file_service_name w.mm_channels).0 ≡ some c)
        × (payload_of (E.file.put_single_file c rid (avatar_file avatar) w.files).0 ≡ some info)
        × Saved E
            (record user { avatar_id = some (file_id_of info) })
            (select_by_id E.mysql uid w.mysql).1
            w
            (set_user_avatar E rid uid avatar w).1
  unfolding set_user_avatar
  set_user_avatar_success rid uid avatar w rsp h good =
      let (user, found, same) = with_user_success E rid uid _ w rsp h good in
      let answered = ap (λ x. x.0) (sym same) ∙ h in
      elim (Option-cases (choose_service E.file_service_name w.mm_channels).0) [
        | inl e ↦ absurd (ground arith)
        | inr (c, e) ↦
            elim (Option-cases
              (payload_of (E.file.put_single_file c rid (avatar_file avatar) w.files).0)) [
                | inl f ↦ absurd (ground arith)
                | inr (info, f) ↦ (
                  user,
                  c,
                  info,
                  found,
                  e,
                  f,
                  saved_lem rid uid avatar w rsp user c info h good found e f,
                )
              ]
      ]
