-- ===== src/User/Profile.antt =====
-- `GetUserInfo`, `GetMultiUserInfo`, `SetUserAvatar`, `SetUserNickname`, `SetUserDescription` and
-- `SetUserPhoneNumber`.
pub mod Update
pub mod Setters
pub mod Info
pub mod Avatar
pub mod Defects
pub mod Lost
use cpp_microservice_im.Base.{
  ℕ, Str, String, Bool, true, false, not, ◌||◌, Option, none, some, List, [], ◌∷◌, length, eqb,
  if◌then◌else◌, ◌==◌, utf8,
}
use cpp_microservice_im.Base.Dict
use cpp_microservice_im.Base.Dict.{Dict}
use cpp_microservice_im.Base.Outcome.{Outcome, done, crash, M, pure, ◌>>=◌, ◌>>◌}
use cpp_microservice_im.Channel.{Channel}
use cpp_microservice_im.EsUser.{append_data}
use cpp_microservice_im.File.{FileDownloadData, FileUploadData, FileMessageInfo}
use cpp_microservice_im.Mysql
use cpp_microservice_im.Mysql.{User, select_by_id, select_multi_users}
use cpp_microservice_im.Proto.{Reply, err_response, success_response}
use cpp_microservice_im.Redis.{codes_code}
use cpp_microservice_im.User.Check.{nickname_check, phone_check}
use cpp_microservice_im.User.Env.{
  Env, World, on_mysql, on_es, on_redis, on_files, choose_file_channel, value_of,
}
use cpp_microservice_im.User.Register.{Answer, user_error, differs}

-- base.proto: `UserInfo`. A text that is not set is empty.
pub record UserInfo : Type 0 where
  pub user_id : Str
  pub nickname : Str
  pub description : Str
  pub phone : Str
  pub avatar : Str

abbrev pub or_empty : Option Str → Str
or_empty none = []
or_empty (some s) = s

-- The fields but the avatar.
abbrev pub info_of : User → UserInfo
info_of user = record {
  user_id = user.user_id;
  nickname = or_empty user.nickname;
  description = or_empty user.description;
  phone = or_empty user.phone;
  avatar = [];
}

-- What the stub's caller reads: `cntl.Failed() == true || rsp.success() == false` gives `none`.
abbrev pub payload_of : {A : Type 0} → Option (Reply A) → Option A
payload_of none = none
payload_of (some rsp) = if rsp.success then some rsp.payload else none

-- A message field that is not set reads as its empty default.
abbrev pub content_of : Option FileDownloadData → Str
content_of none = []
content_of (some file_data) = file_data.file_content

abbrev pub file_id_of : Option FileMessageInfo → Str
file_id_of none = []
file_id_of (some info) = info.file_id

-- `(*file_map)[id].file_content()`; the entry that `[]` makes is empty.
abbrev pub avatar_in : Dict FileDownloadData → Option Str → Str
avatar_in file_map none = []
avatar_in file_map (some avatar_id) = content_of (Dict.lookup avatar_id file_map)

-- The loop that fills `users_info`.
unfoldable pub users_info : Dict FileDownloadData → List User → Dict UserInfo → Dict UserInfo
users_info file_map [] user_map = user_map
users_info file_map (user ∷ users) user_map = users_info file_map users (
    Dict.assign user.user_id (record (info_of user) { avatar = avatar_in file_map user.avatar_id })
      user_map)

module _ (E : Env) where
  -- The payload is `user_info`, which an error after the lookup leaves filled in part.
  unfoldable pub get_user_info : Str → Str → M (World E) (Reply (Option UserInfo))
  get_user_info request_id uid = do
    found ← on_mysql E (select_by_id E.mysql uid)
    elim found [
      | none ↦ pure (err_response request_id "未找到用户信息! " none)
      | some user ↦ elim user.avatar_id [
        | none ↦ pure (success_response request_id (some (info_of user)))
        | some avatar_id ↦ do
          channel ← choose_file_channel E
          elim channel [
            | none ↦ pure (err_response request_id "未找到文件管理子服务节点! " (some (info_of user)))
            | some c ↦ do
              answer ← on_files E (E.file.get_single_file c request_id avatar_id)
              elim (payload_of answer) [
                | none ↦ pure (err_response request_id "文件子服务调用失败!" (some (info_of user)))
                | some file_data ↦ pure (
                    success_response request_id
                      (some (record (info_of user) { avatar = content_of file_data })))
              ]
          ]
      ]
    ]

  -- The loop that collects `*user.avatar_id()`.
  unfoldable pub avatar_ids : List User → M (World E) (List Str)
  avatar_ids [] = pure []
  avatar_ids (user ∷ users) = do
    avatar_id ← value_of user.avatar_id
    rest ← avatar_ids users
    pure (avatar_id ∷ rest)

  unfoldable pub get_multi_user_info : Str → List Str → M (World E) (Reply (Dict UserInfo))
  unfolding avatar_ids users_info
  get_multi_user_info request_id users_id = do
    users ← on_mysql E (select_multi_users E.mysql users_id)
    if not (eqb (length users) (length users_id))
        then pure (err_response request_id "从数据库中查找出来的用户信息数量不一致!" [])
        else do
          channel ← choose_file_channel E
          elim channel [
            | none ↦ pure (err_response request_id "未找到文件管理子服务节点! " [])
            | some c ↦ do
              ids ← avatar_ids users
              answer ← on_files E (E.file.get_multi_file c request_id ids)
              elim (payload_of answer) [
                | none ↦ pure (err_response request_id "文件子服务调用失败!" [])
                | some file_map ↦ pure (success_response request_id (users_info file_map users []))
              ]
          ]

  -- `_mysql_user->update(user)` and `_es_user->appendData` of its fields, the last steps of each
  -- setter, with the error texts of the setter.
  unfoldable pub store_user : Str → String → String → User → M (World E) Answer
  store_user rid mysql_error es_error user = do
    ret ← on_mysql E (Mysql.update E.mysql user)
    if not ret then pure (user_error rid mysql_error) else do
      nickname ← value_of user.nickname
      phone ← value_of user.phone
      description ← value_of user.description
      avatar_id ← value_of user.avatar_id
      ret' ← on_es E (append_data E.json E.es user.user_id nickname phone description avatar_id)
      if not ret' then pure (user_error rid es_error) else pure (success_response rid tt)

  -- The lookup of the user in each setter, and what is done with the user.
  unfoldable pub with_user : Str → Str → (User → M (World E) Answer) → M (World E) Answer
  with_user rid uid f = do
    found ← on_mysql E (select_by_id E.mysql uid)
    elim found [ none ↦ pure (user_error rid "未找到用户信息! ") | some user ↦ f user ]

  unfoldable pub set_user_avatar : Str → Str → Str → M (World E) Answer
  set_user_avatar request_id uid avatar = with_user request_id uid λ user. do
    channel ← choose_file_channel E
    elim channel [
      | none ↦ pure (user_error request_id "未找到文件管理子服务节点! ")
      | some c ↦ do
        answer ← on_files E (
            E.file.put_single_file c request_id
              (record { file_name = []; file_size = length avatar; file_content = avatar }))
        elim (payload_of answer) [
          | none ↦ pure (user_error request_id "文件子服务调用失败!")
          | some info ↦
              store_user request_id "更新数据库用户头像ID失败!" "更新搜索引擎用户头像ID失败!"
                (record user { avatar_id = some (file_id_of info) })
        ]
    ]

  unfoldable pub set_user_nickname : Str → Str → Str → M (World E) Answer
  set_user_nickname request_id uid new_nickname =
      if not (nickname_check new_nickname)
      then pure (user_error request_id "用户名长度不合法! ")
      else with_user request_id uid λ user.
        store_user request_id "更新数据库用户昵称失败!" "更新搜索引擎用户昵称失败!"
          (record user { nickname = some new_nickname })

  unfoldable pub set_user_description : Str → Str → Str → M (World E) Answer
  set_user_description request_id uid new_description = with_user request_id uid λ user.
      store_user request_id "更新数据库用户签名失败!" "更新搜索引擎用户签名失败!"
        (record user { description = some new_description })

  unfoldable pub set_user_phone_number : Str → Str → Str → Str → Str → M (World E) Answer
  set_user_phone_number request_id uid new_phone code code_id = do
    ret ← λ w. (phone_check new_phone, w)
    if not ret then pure (user_error request_id "手机号长度不合法! ") else do
      vcode ← on_redis E (codes_code E.redis code_id)
      if differs vcode code
          then pure (user_error request_id "验证码错误! ")
          else with_user request_id uid λ user.
            store_user request_id "更新数据库用户手机号失败!" "更新搜索引擎用户手机号失败!"
              (record user { phone = some new_phone })
