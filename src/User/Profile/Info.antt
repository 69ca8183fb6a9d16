-- ===== src/User/Profile/Info.antt =====
-- What `GetUserInfo` and `GetMultiUserInfo` return.
use cpp_microservice_im.Base.{
  ◌≡◌, refl, Str, true, Option, none, some, List, [], ◌∷◌, arith, length, if◌then◌else◌, ◌==◌,
  Option-cases, inl, inr, ◌⊎◌, ◌∙◌, ap,
}
use cpp_microservice_im.Base.Dict
use cpp_microservice_im.Base.Dict.{Dict}
use cpp_microservice_im.Base.Outcome.{done, crash, null_value}
use cpp_microservice_im.Channel.{Channel, choose_service}
use cpp_microservice_im.File.{FileDownloadData}
use cpp_microservice_im.Mysql.{User, select_by_id, select_multi_users}
use cpp_microservice_im.Proto.{Reply}
use cpp_microservice_im.User.Env.{Env, World}
use cpp_microservice_im.User.Profile.{
  UserInfo, info_of, payload_of, content_of, avatar_in, avatar_ids, users_info, get_user_info,
  get_multi_user_info,
}

-- The information on the last user of the list with that identifier.
pub last_info : Dict FileDownloadData → Str → List User → Option UserInfo
last_info file_map uid [] = none
last_info file_map uid (user ∷ users) = elim (last_info file_map uid users) [
  | some info ↦ some info
  | none ↦
      if uid == user.user_id
      then some (record (info_of user) { avatar = avatar_in file_map user.avatar_id })
      else none
]

abbrev or_else : {A : Type 0} → Option A → Option A → Option A
or_else none b = b
or_else (some a) b = some a

or_else-none : {A : Type 0} (a : Option A) → or_else a none ≡ a
or_else-none none = refl
or_else-none (some a) = refl

users_info_lem :
    (file_map : Dict FileDownloadData) (uid : Str) (users : List User) (d : Dict UserInfo)
    → Dict.lookup uid (users_info file_map users d)
      ≡ or_else (last_info file_map uid users) (Dict.lookup uid d)
unfolding users_info last_info
users_info_lem file_map uid [] d = refl
users_info_lem file_map uid (user ∷ users) d =
    let info : UserInfo = record (info_of user) { avatar = avatar_in file_map user.avatar_id } in
    users_info_lem file_map uid users (Dict.assign user.user_id info d)
    ∙ ground (arith, Dict.lookup-assign uid user.user_id info d)

module _ (E : Env) where
  -- A successful answer is about the user of that identifier. Without an avatar the avatar is empty;
  -- with one, it is the content that the file service returned for it.
  pub get_user_info_success :
      (rid uid : Str) (w : World E) (rsp : Reply (Option UserInfo))
      → (get_user_info E rid uid w).0 ≡ done rsp
      → rsp.success ≡ true
      → (user : User) × ((select_by_id E.mysql uid w.mysql).0 ≡ some user)
        × (((user.avatar_id ≡ none) × (rsp.payload ≡ some (info_of user)))
            ⊎ ((avatar_id : Str) × (c : Channel) × (file_data : Option FileDownloadData)
                × (user.avatar_id ≡ some avatar_id)
                × ((choose_service E.file_service_name w.mm_channels).0 ≡ some c)
                × (payload_of (E.file.get_single_file c rid avatar_id w.files).0 ≡ some file_data)
                × (rsp.payload ≡ some (record (info_of user) { avatar = content_of file_data }))))
  unfolding get_user_info
  get_user_info_success rid uid w rsp h good =
      elim (Option-cases (select_by_id E.mysql uid w.mysql).0) [
        | inl e ↦ absurd (ground arith)
        | inr (user, e) ↦ elim (Option-cases user.avatar_id) [
          | inl f ↦ (user, e, inl (f, ground arith))
          | inr (avatar_id, f) ↦
              elim (Option-cases (choose_service E.file_service_name w.mm_channels).0) [
                | inl g ↦ absurd (ground arith)
                | inr (c, g) ↦
                    elim (Option-cases
                      (payload_of (E.file.get_single_file c rid avatar_id w.files).0)) [
                        | inl k ↦ absurd (ground arith)
                        | inr (file_data, k) ↦
                            (user, e, inr (avatar_id, c, file_data, f, g, k, ground arith))
                      ]
              ]
        ]
      ]

-- The avatars of the users, if each of them has one.
pub avatars : List User → Option (List Str)
avatars [] = some []
avatars (user ∷ users) = elim user.avatar_id [
  | none ↦ none
  | some avatar_id ↦ elim (avatars users) [ none ↦ none | some rest ↦ some (avatar_id ∷ rest) ]
]

module _ (E : Env) where
  avatar_ids_lem :
      (users : List User) (w : World E)
      → avatar_ids E users w
        ≡ elim (avatars users) [ none ↦ (crash null_value, w) | some ids ↦ (done ids, w) ]
  unfolding avatar_ids avatars
  avatar_ids_lem [] w = refl
  avatar_ids_lem (user ∷ users) w = ground (arith, avatar_ids_lem users w)

  -- In a successful answer there were as many users as identifiers, each with an avatar, and what the
  -- answer has under an identifier is the information on the last user of that identifier, with the
  -- avatar from the answer of the file service to the avatars of all of them.
  pub get_multi_user_info_success :
      (rid : Str) (ids : List Str) (w : World E) (rsp : Reply (Dict UserInfo))
      → (get_multi_user_info E rid ids w).0 ≡ done rsp
      → rsp.success ≡ true
      → let users = (select_multi_users E.mysql ids w.mysql).0 in
        (length users ≡ length ids)
        × (c : Channel) × (avatar_list : List Str) × (file_map : Dict FileDownloadData)
        × ((choose_service E.file_service_name w.mm_channels).0 ≡ some c)
        × (avatars users ≡ some avatar_list)
        × (payload_of (E.file.get_multi_file c rid avatar_list w.files).0 ≡ some file_map)
        × ((uid : Str) → Dict.lookup uid rsp.payload ≡ last_info file_map uid users)
  unfolding get_multi_user_info
  get_multi_user_info_success rid ids w rsp h good =
      let (users, t) = select_multi_users E.mysql ids w.mysql in
      let collected = avatar_ids_lem users (record w {
        mysql = t;
        mm_channels = (choose_service E.file_service_name w.mm_channels).1;
      }) in
      elim (Option-cases (choose_service E.file_service_name w.mm_channels).0) [
        | inl e ↦ absurd (ground arith)
        | inr (c, e) ↦ elim (Option-cases (avatars users)) [
          | inl f ↦ absurd (ground (arith, collected))
          | inr (avatar_list, f) ↦
              elim (Option-cases (payload_of (E.file.get_multi_file c rid avatar_list w.files).0)) [
                | inl g ↦ absurd (ground (arith, collected))
                | inr (file_map, g) ↦
                    let same : rsp.payload ≡ users_info file_map users [] =
                      ground (arith, collected) in
                    (
                      ground arith,
                      c,
                      avatar_list,
                      file_map,
                      e,
                      f,
                      g,
                      λ uid.
                          ap (Dict.lookup uid) same
                          ∙ (users_info_lem file_map uid users []
                              ∙ rw Dict.lookup-nil (or_else-none _)),
                    )
              ]
        ]
      ]
