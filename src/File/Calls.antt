-- ===== src/File/Calls.antt =====
-- The four calls of the file service as requests, and runs of them.
use cpp_microservice_im.Base.{
  ℕ, ◌+◌, Str, Bool, true, false, Option, none, some, List, [], ◌∷◌, ◌++◌, length,
}
use cpp_microservice_im.File.{
  FileSystem, FileUploadData, FileMessageInfo, Server, put_single_file, put_multi_file,
}

-- A request with the fields that its handler reads.
pub data Call : Type 0 where
  get_single : Str → Str → Call
  get_multi : Str → List Str → Call
  put_single : Str → FileUploadData → Call
  put_multi : Str → List FileUploadData → Call

-- How many files a call uploads.
abbrev pub uploads : Call → ℕ
uploads (get_single rid fid) = 0
uploads (get_multi rid fids) = 0
uploads (put_single rid file_data) = 1
uploads (put_multi rid file_data) = length file_data

abbrev pub all_uploads : List Call → ℕ
all_uploads [] = 0
all_uploads (c ∷ cs) = uploads c + all_uploads cs

-- A name that an answer gave, and what was uploaded under it.
abbrev pub Entry : Type 0
Entry = Str × Str

abbrev pub paired : List FileMessageInfo → List FileUploadData → List Entry
paired [] ds = []
paired (info ∷ infos) [] = []
paired (info ∷ infos) (d ∷ ds) = (info.file_id, d.file_content) ∷ paired infos ds

abbrev pub to_list : Option FileMessageInfo → List FileMessageInfo
to_list none = []
to_list (some info) = info ∷ []

module _ (F : FileSystem) (storage_path : Str) (distribution : ℕ → ℕ) where
  -- The server after a call. A download that throws ends the process, so that no call comes after it.
  unfoldable pub serve : Call → Server F → Server F
  serve (get_single rid fid) s = s
  serve (get_multi rid fids) s = s
  serve (put_single rid d) s = (put_single_file F storage_path distribution rid d s).1
  serve (put_multi rid ds) s = (put_multi_file F storage_path distribution rid ds s).1

  -- The entries that a client knows from an answer of success.
  abbrev pub known : Bool → List Entry → List Entry
  known true es = es
  known false es = []

  unfoldable pub learned : Call → Server F → List Entry
  learned (get_single rid fid) s = []
  learned (get_multi rid fids) s = []
  learned (put_single rid d) s =
      let rsp = (put_single_file F storage_path distribution rid d s).0 in
      known rsp.success (paired (to_list rsp.payload) (d ∷ []))
  learned (put_multi rid ds) s =
      let rsp = (put_multi_file F storage_path distribution rid ds s).0 in
      known rsp.success (paired rsp.payload ds)

  -- All that the clients learned, oldest first, and the server afterwards.
  unfoldable pub history : List Call → Server F → List Entry × Server F
  history [] s = ([], s)
  history (c ∷ cs) s = let (es, t) = history cs (serve c s) in (learned c s ++ es, t)
