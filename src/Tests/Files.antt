-- ===== src/Tests/Files.antt =====
-- A directory with uploads, and two identifiers.
use cpp_microservice_im.Base.{
  ℕ, ◌≡◌, refl, Str, true, none, some, [], ◌∷◌, ◌++◌, if◌then◌else◌, contains, Str-discrete,
  ℕ_discrete, utf8,
}
use cpp_microservice_im.Base.Dict
use cpp_microservice_im.Base.Dict.{Dict}
use cpp_microservice_im.Proto.{Reply}
use cpp_microservice_im.Base.Outcome.{done}
use cpp_microservice_im.File.{
  get_files, FileDownloadData, FileUploadData, FileMessageInfo, Server, get_single_file,
  get_multi_file, put_single_file, write_file, read_file,
}
use cpp_microservice_im.File.RoundTrip.{get-put_single_file}
use cpp_microservice_im.File.Download.{reads, get_multi_file-content}
use cpp_microservice_im.Mysql.{condition}
use cpp_microservice_im.Mysql.Sql.{listed, condition_lem}
use cpp_microservice_im.Uuid.{Generator}
use cpp_microservice_im.Tests.Concrete.{disk, disk-IsLawful, disk-Flushes}

abbrev pub directory : Str
directory = b'd' ∷ b'/' ∷ []

abbrev pub distribution : ℕ → ℕ
distribution n = n

abbrev generator : Generator
generator = record { drawn = 0; idx = 0 }

abbrev pub server : Server disk
server = record { files = []; ids = generator }

abbrev upload : FileUploadData
upload = record { file_name = b'n' ∷ []; file_size = 1; file_content = b'x' ∷ [] }

abbrev rid : Str
rid = []

put_done : (put_single_file disk directory distribution rid upload server).0.success ≡ true
unfolding put_single_file write_file
put_done = refl

get-put_single_file_example :
    let (rsp, server') = put_single_file disk directory distribution rid upload server in
    (info : FileMessageInfo) × (rsp.payload ≡ some info)
    × (info.file_name ≡ upload.file_name)
    × (info.file_size ≡ upload.file_size)
    × (get_single_file disk directory rid info.file_id server'
        ≡ done (record {
          request_id = rid;
          success = true;
          errmsg = [];
          payload = some (record { file_id = info.file_id; file_content = upload.file_content });
        }))
get-put_single_file_example =
    get-put_single_file disk disk-IsLawful disk-Flushes directory distribution rid rid upload server
      put_done

abbrev name : Str
name = b'a' ∷ []

abbrev files : disk.State
files = (directory ++ name, b'x' ∷ []) ∷ []

abbrev answer : Reply (Dict FileDownloadData)
answer = record {
  request_id = rid;
  success = true;
  errmsg = [];
  payload = (name, record { file_id = name; file_content = b'x' ∷ [] }) ∷ [];
}

all_read :
    get_multi_file disk directory rid (name ∷ name ∷ []) (record { files = files; ids = generator })
    ≡ done answer
unfolding get_multi_file get_files read_file Dict.lookup Dict.insert Str-discrete ℕ_discrete
all_read = refl

get_multi_file-content_example :
    Dict.lookup name answer.payload
    ≡ (if contains name (name ∷ name ∷ []) then reads disk directory files name else none)
get_multi_file-content_example =
    get_multi_file-content disk directory files rid (name ∷ name ∷ []) generator name answer
      all_read refl

condition_lem_example :
    (condition (name ∷ name ∷ []) ≡ utf8 "user_id in (" ++ (listed name (name ∷ []) ++ (b')' ∷ [])))
    × (condition [] ≡ utf8 "user_id in )")
condition_lem_example = condition_lem name (name ∷ [])
