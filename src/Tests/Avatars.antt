-- ===== src/Tests/Avatars.antt =====
-- An avatar that is set and asked for, while another is uploaded.
use cpp_microservice_im.Base.{arith, ◌≡◌, refl, Str, some, [], ◌∷◌, Str-discrete, ℕ_discrete}
use cpp_microservice_im.Base.Dict
use cpp_microservice_im.Base.Outcome.{done}
use cpp_microservice_im.Channel.{choose, choose_service}
use cpp_microservice_im.Es.{insert_insert}
use cpp_microservice_im.EsUser.{append_data}
use cpp_microservice_im.File.{get_single_file, put_single_file, write_file, read_file}
use cpp_microservice_im.Mysql
use cpp_microservice_im.Mysql.{
  User, insert, select_by_id, select_by_nickname, user_by_nickname, transact, read_with,
}
use cpp_microservice_im.Proto.{success_response}
use cpp_microservice_im.Tests.Accounts.{rid}
use cpp_microservice_im.Tests.Concrete.{
  environment, table, table-IsLawful, disk, disk-IsLawful, disk-Flushes, first_user,
}
use cpp_microservice_im.Tests.Files.{directory, distribution, server}
use cpp_microservice_im.Tests.Profiles
use cpp_microservice_im.Tests.Profiles.{picture, uid, user}
use cpp_microservice_im.User.Env.{Env, World}
use cpp_microservice_im.User.Flows.{with_files}
use cpp_microservice_im.User.Profile.{
  UserInfo, info_of, get_user_info, set_user_avatar, store_user, with_user,
}
use cpp_microservice_im.Uuid.{uuid, random_bytes, hex, hex_digit}
use cpp_microservice_im.Base.{none}
use cpp_microservice_im.Mysql.{select_by_phone, user_by_phone}
use cpp_microservice_im.Base.{Option}
use cpp_microservice_im.Proto.{Reply}
use cpp_microservice_im.File.{FileUploadData, FileMessageInfo}
use cpp_microservice_im.User.Calls.Parts.{Rest, left, one, upload, advance}
use cpp_microservice_im.User.Calls.Process.{Process, Reach, start, later, proceed}
use cpp_microservice_im.User.Calls.Avatars.{avatar_stays}
use cpp_microservice_im.Channel.{Channel}
use cpp_microservice_im.Tests.Channels.{up}

abbrev connected_environment : Env
connected_environment = with_files disk directory distribution environment

abbrev before : World connected_environment
before = record {
  es = 0;
  mysql = user ∷ [];
  redis = [];
  sms = tt;
  files = server;
  mm_channels = Profiles.users.mm_channels;
  ids = Profiles.users.ids;
}

abbrev changed : World connected_environment
changed = (set_user_avatar connected_environment rid uid picture before).1

stored :
    (set_user_avatar connected_environment rid uid picture before).0
    ≡ done (success_response rid tt)
unfolding set_user_avatar with_user store_user select_by_id Mysql.update append_data insert_insert
    transact read_with first_user choose_service choose Dict.lookup Dict.assign Str-discrete
    ℕ_discrete put_single_file write_file
stored = refl

abbrev Removable : Str → Type 0
Removable k = Unit

-- SetUserAvatar of another user has its channel, and uploads the file.
abbrev other_file : FileUploadData
other_file = record { file_name = []; file_size = 0; file_content = [] }

abbrev other_channel : Channel
other_channel = record { address = 0; host = [] }

abbrev Uploaded : Type 0
Uploaded = Option (Reply (Option FileMessageInfo))

abbrev other : Rest connected_environment Removable Uploaded
other = left (one (upload other_channel rid other_file))

abbrev finished : Process connected_environment Removable
finished =
    let (rest, w) =
      advance connected_environment Removable (one (upload other_channel rid other_file)) changed in
    record { world = w; threads = (Uploaded, rest) ∷ []; handled = []; current = none }

abbrev went_on : Reach connected_environment up Removable changed ((Uploaded, other) ∷ []) finished
went_on = later start (proceed [] [] Uploaded _ (one (upload other_channel rid other_file)) refl)

abbrev avatar_id : Str
avatar_id = (uuid distribution server.ids).0

abbrev pictured : User
pictured = record user { avatar_id = some avatar_id }

abbrev info : UserInfo
info = record (info_of pictured) { avatar = picture }

found_then : (select_by_id table uid changed.mysql).0 ≡ some pictured
unfolding set_user_avatar with_user store_user select_by_id Mysql.update append_data insert_insert
    transact read_with first_user choose_service choose Dict.lookup Dict.assign Str-discrete
    ℕ_discrete put_single_file write_file uuid random_bytes
found_then = refl

found_now : (select_by_id table uid finished.world.mysql).0 ≡ some pictured
unfolding advance set_user_avatar with_user store_user select_by_id Mysql.update append_data
    insert_insert transact read_with first_user choose_service choose Dict.lookup Dict.assign
    Str-discrete ℕ_discrete put_single_file write_file uuid random_bytes
found_now = refl

informed :
    (get_user_info connected_environment rid uid finished.world).0
    ≡ done (success_response rid (some info))
unfolding get_user_info get_single_file read_file advance set_user_avatar with_user store_user
    select_by_id Mysql.update append_data insert_insert transact read_with first_user choose_service
    choose Dict.lookup Dict.assign Str-discrete ℕ_discrete put_single_file write_file uuid
    random_bytes hex hex_digit
informed = refl

avatar_stays_example : some info ≡ some (record (info_of pictured) { avatar = picture })
avatar_stays_example =
    avatar_stays disk disk-IsLawful disk-Flushes directory distribution environment Removable
      table-IsLawful up rid rid uid picture before (success_response rid tt)
      (success_response rid (some info)) pictured pictured ((Uploaded, other) ∷ []) finished
      (ground arith) stored refl went_on (ground arith) found_then found_now refl informed refl
