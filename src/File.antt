-- ===== src/File.antt =====
-- code/server/file/source/file_server.hpp: `FileServiceImpl`, and `readFile` and `writeFile` of
-- code/server/common/utils.hpp. The file system and its streams are a parameter.
pub mod Laws
pub mod RoundTrip
pub mod Download
pub mod Calls
pub mod Kept
pub mod History
pub mod Streams
pub mod Threads
use cpp_microservice_im.Base.{
  ℕ, Str, String, Bool, true, false, Option, none, some, List, [], ◌∷◌, ◌++◌, eqb, leb,
  if◌then◌else◌, utf8,
}
use cpp_microservice_im.Base.Dict
use cpp_microservice_im.Base.Dict.{Dict}
use cpp_microservice_im.Base.Outcome.{Outcome, done, crash, exception}
use cpp_microservice_im.Proto.{Reply, reply, failed}
use cpp_microservice_im.Uuid.{Generator, uuid}

-- `std::ifstream` and `std::ofstream` on one machine. `open_in` and `open_out` are `none` where the
-- stream is not open; `size` is what `tellg` says at the end, as a `size_t`; `max_size` is the greatest
-- size of a `std::string`, above which `resize` throws; `read` is `none` where the stream is
-- not good after it; `write` and `close` say whether it is.
pub record FileSystem : Type 1 where
  pub State : Type 0
  pub Stream : Type 0
  pub mkdir : Str → State → State
  pub open_in : Str → State → Option Stream
  pub size : Stream → ℕ
  pub max_size : ℕ
  pub read : Stream → ℕ → Option Str
  pub open_out : Str → State → Option State
  pub write : Str → Str → State → Bool × State
  pub close : Str → State → Bool × State

-- base.proto and file.proto: the messages, with the fields that the handlers use.
pub record FileDownloadData : Type 0 where
  pub file_id : Str
  pub file_content : Str

pub record FileUploadData : Type 0 where
  pub file_name : Str
  pub file_size : ℕ
  pub file_content : Str

pub record FileMessageInfo : Type 0 where
  pub file_id : Str
  pub file_size : ℕ
  pub file_name : Str

module _ (F : FileSystem) where
  open F use {State, Stream}

  -- `none` is the return value false, on which no caller uses the body. The exception of `resize` is not
  -- caught: a directory, for one, can be opened, and has no size that a string could have.
  unfoldable pub read_file : Str → State → Outcome (Option Str)
  read_file filename s = elim (F.open_in filename s) [
    | none ↦ done none
    | some stream ↦
        if leb (F.size stream) F.max_size
        then done (F.read stream (F.size stream))
        else crash exception
  ]

  unfoldable pub write_file : Str → Str → State → Bool × State
  write_file filename body s = elim (F.open_out filename s) [
    | none ↦ (false, s)
    | some s' ↦
        let (good, s'') = F.write filename body s' in
        let (_, closed) = F.close filename s'' in (good, closed)
  ]

  -- The constructor: the directory with its slash. `back` of an empty path is undefined, `none`.
  pub with_slash : Str → Option Str
  with_slash [] = none
  with_slash (c ∷ []) = some (if eqb c b'/' then c ∷ [] else c ∷ b'/' ∷ [])
  with_slash (c ∷ d ∷ path) = elim (with_slash (d ∷ path)) [ none ↦ none | some p ↦ some (c ∷ p) ]

  unfoldable pub file_service : Str → State → Option Str × State
  unfolding with_slash
  file_service storage_path s = (with_slash storage_path, F.mkdir storage_path s)

  -- The object and what it works on: the directory, the file system, the identifiers.
  pub record Server : Type 0 where
    pub files : State
    pub ids : Generator

  module _ (storage_path : Str) where
    unfoldable pub get_single_file : Str → Str → Server → Outcome (Reply (Option FileDownloadData))
    get_single_file request_id fid server = elim (read_file (storage_path ++ fid) server.files) [
      | crash e ↦ crash e
      | done body ↦ done (elim body [
        | none ↦ failed "读取文件数据失败! " (reply request_id none)
        | some body ↦ record {
          request_id = request_id;
          success = true;
          errmsg = [];
          payload = some (record { file_id = fid; file_content = body });
        }
      ])
    ]

    -- The loop of `GetMultiFile`, over the identifiers that are left.
    unfoldable pub get_files :
        List Str → State → Reply (Dict FileDownloadData) → Outcome (Reply (Dict FileDownloadData))
    get_files [] s rsp = done (record rsp { success = true })
    get_files (fid ∷ fids) s rsp = elim (read_file (storage_path ++ fid) s) [
      | crash e ↦ crash e
      | done body ↦ elim body [
        | none ↦ done (failed "读取文件数据失败! " rsp)
        | some body ↦ get_files fids s (record rsp {
          payload = Dict.insert fid (record { file_id = fid; file_content = body }) rsp.payload;
        })
      ]
    ]

    unfoldable pub get_multi_file :
        Str → List Str → Server → Outcome (Reply (Dict FileDownloadData))
    get_multi_file request_id file_id_list server =
        get_files file_id_list server.files (reply request_id [])

    module _ (distribution : ℕ → ℕ) where
      unfoldable pub put_single_file :
          Str → FileUploadData → Server → Reply (Option FileMessageInfo) × Server
      put_single_file request_id file_data server =
          let (fid, ids') = uuid distribution server.ids in
          let (ret, files') =
            write_file (storage_path ++ fid) file_data.file_content server.files in
          (
            (if ret
                then record {
                  request_id = request_id;
                  success = true;
                  errmsg = [];
                  payload = some (record {
                    file_id = fid;
                    file_size = file_data.file_size;
                    file_name = file_data.file_name;
                  });
                }
                else failed "写入文件数据失败! " (reply request_id none)),
            record { files = files'; ids = ids' },
          )

      -- The loop of `PutMultiFile`, over the uploads that are left.
      unfoldable pub put_files :
          List FileUploadData
          → Reply (List FileMessageInfo)
          → Server
          → Reply (List FileMessageInfo) × Server
      put_files [] rsp server = (record rsp { success = true }, server)
      put_files (d ∷ ds) rsp server =
          let (fid, ids') = uuid distribution server.ids in
          let (ret, files') = write_file (storage_path ++ fid) d.file_content server.files in
          let info : FileMessageInfo = record {
            file_id = fid;
            file_size = d.file_size;
            file_name = d.file_name;
          } in
          let rest =
            put_files ds (record rsp { payload = rsp.payload ++ (info ∷ []) })
              (record { files = files'; ids = ids' }) in
          if ret then rest else (failed "写入文件数据失败! " rsp, record { files = files'; ids = ids' })

      unfoldable pub put_multi_file :
          Str → List FileUploadData → Server → Reply (List FileMessageInfo) × Server
      put_multi_file request_id file_data server = put_files file_data (reply request_id []) server
