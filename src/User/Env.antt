-- ===== src/User/Env.antt =====
-- What a `UserServiceImpl` works with: its clients, and their states.
use cpp_microservice_im.Base.{ℕ, Str, Option, none, some, List}
use cpp_microservice_im.Base.Dict.{Dict}
use cpp_microservice_im.Base.Outcome.{done, null_value, null_pointer, M, pure, fail}
use cpp_microservice_im.Channel.{Channel, ServiceManager, choose_service}
use cpp_microservice_im.Dms.{Sms}
use cpp_microservice_im.Es.{Json, Client}
use cpp_microservice_im.File.{FileDownloadData, FileUploadData, FileMessageInfo}
use cpp_microservice_im.Mysql.{Database}
use cpp_microservice_im.Proto.{Reply}
use cpp_microservice_im.Redis.{Redis}
use cpp_microservice_im.Uuid.{Generator, uuid}

-- `FileService_Stub`: a remote call over a channel, with its request's fields; `none` is a call
-- that failed.
pub record FileStub : Type 1 where
  pub State : Type 0
  pub get_single_file :
      Channel → Str → Str → State → Option (Reply (Option FileDownloadData)) × State
  pub get_multi_file :
      Channel → Str → List Str → State → Option (Reply (Dict FileDownloadData)) × State
  pub put_single_file :
      Channel → Str → FileUploadData → State → Option (Reply (Option FileMessageInfo)) × State

pub record Env : Type 1 where
  pub json : Json
  pub es : Client
  pub mysql : Database
  pub redis : Redis
  pub sms : Sms
  pub file : FileStub
  pub distribution : ℕ → ℕ
  pub file_service_name : Str

pub record World (E : Env) : Type 0 where
  pub es : E.es.State
  pub mysql : E.mysql.State
  pub redis : E.redis.State
  pub sms : E.sms.State
  pub files : E.file.State
  pub mm_channels : ServiceManager
  pub ids : Generator

-- An operation on one part of the world.
module _ (E : Env) where
  abbrev pub on_mysql : {A : Type 0} → (E.mysql.State → A × E.mysql.State) → M (World E) A
  on_mysql f w = let (a, s) = f w.mysql in (done a, record w { mysql = s })

  abbrev pub on_es : {A : Type 0} → (E.es.State → A × E.es.State) → M (World E) A
  on_es f w = let (a, s) = f w.es in (done a, record w { es = s })

  abbrev pub on_sms : {A : Type 0} → (E.sms.State → A × E.sms.State) → M (World E) A
  on_sms f w = let (a, s) = f w.sms in (done a, record w { sms = s })

  abbrev pub on_files : {A : Type 0} → (E.file.State → A × E.file.State) → M (World E) A
  on_files f w = let (a, s) = f w.files in (done a, record w { files = s })

  abbrev pub on_redis : {A : Type 0} → M E.redis.State A → M (World E) A
  on_redis f w = let (o, s) = f w.redis in (o, record w { redis = s })

  abbrev pub fresh_uuid : M (World E) Str
  fresh_uuid w = let (id, g) = uuid E.distribution w.ids in (done id, record w { ids = g })

  abbrev pub choose_file_channel : M (World E) (Option Channel)
  choose_file_channel w =
      let (c, m) = choose_service E.file_service_name w.mm_channels in
      (done c, record w { mm_channels = m })

-- `*` on an `odb::nullable`, and `->` on a `shared_ptr`.
abbrev pub value_of : {S A : Type 0} → Option A → M S A
value_of none = fail null_value
value_of (some a) = pure a

abbrev pub pointee : {S A : Type 0} → Option A → M S A
pointee none = fail null_pointer
pointee (some a) = pure a
