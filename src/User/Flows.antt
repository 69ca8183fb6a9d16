-- ===== src/User/Flows.antt =====
-- Several calls in a row, and the user service with the file service behind its stub.
pub mod Registration
pub mod Code
use cpp_microservice_im.Base.{ℕ, Str, Option, none, some}
use cpp_microservice_im.Base.Outcome.{Outcome, done, crash}
use cpp_microservice_im.File.{FileSystem, Server, get_single_file, get_multi_file, put_single_file}
use cpp_microservice_im.User.Env.{FileStub, Env}

-- What the stub gets of an answer: none from a call that ended by an exception.
abbrev pub received : {A : Type 0} → Outcome A → Option A
received (done a) = some a
received (crash e) = none

-- A stub whose calls all arrive, and every node of which serves the one directory; where an exception
-- ends a node, the others go on.
module _ (F : FileSystem) (storage_path : Str) (distribution : ℕ → ℕ) where
  abbrev pub connected : FileStub
  connected = record {
    State = Server F;
    get_single_file = λ c rid id s. (received (get_single_file F storage_path rid id s), s);
    get_multi_file = λ c rid ids s. (received (get_multi_file F storage_path rid ids s), s);
    put_single_file = λ c rid file_data s.
        let (rsp, s') = put_single_file F storage_path distribution rid file_data s in
        (some rsp, s');
  }

  abbrev pub with_files : Env → Env
  with_files E = record E { file = connected }
