-- ===== src/File/Threads.antt =====
-- The uploads of the file service on the threads of its RPC server. A thread is cut at each operation of
-- the file system, and between an identifier and the file under it. `PutSingleFile` is an upload of one file.
pub mod Names
pub mod Owned
pub mod Steps
pub mod Apart
use cpp_microservice_im.Base.{
  ℕ, suc, ◌≡◌, refl, Str, Bool, true, Option, none, some, List, [], ◌∷◌, ◌++◌, eqb, if◌then◌else◌,
  Bool-cases, Option-cases, inl, inr, false,
}
use cpp_microservice_im.File.{
  FileSystem, FileUploadData, FileMessageInfo, Server, write_file, put_files,
}
use cpp_microservice_im.Proto.{Reply, reply, failed}
use cpp_microservice_im.Uuid.{uuid}

abbrev pub Answer : Type 0
Answer = Reply (List FileMessageInfo)

abbrev pub message_info : Str → FileUploadData → FileMessageInfo
message_info fid d = record { file_id = fid; file_size = d.file_size; file_name = d.file_name }

-- Where a thread of `PutMultiFile` is: before a round of the loop; in `writeFile`, before the file is
-- opened, written, and closed; or done. `closing` has whether the stream was good.
pub data Handler : Type 0 where
  naming : List FileUploadData → Answer → Handler
  writing : Str → FileUploadData → List FileUploadData → Answer → Handler
  filling : Str → FileUploadData → List FileUploadData → Answer → Handler
  closing : Str → FileUploadData → List FileUploadData → Answer → Bool → Handler
  answered : Answer → Handler

-- How many identifiers were taken after the next step, where `n` were before.
abbrev pub taken : Handler → ℕ → ℕ
taken (naming [] rsp) n = n
taken (naming (d ∷ ds) rsp) n = suc n
taken (writing fid d ds rsp) n = n
taken (filling fid d ds rsp) n = n
taken (closing fid d ds rsp good) n = n
taken (answered rsp) n = n

-- The requests that came in, by number, each with its thread.
abbrev pub Threads : Type 0
Threads = ℕ → Option (List FileUploadData × Handler)

abbrev pub put_thread : ℕ → List FileUploadData → Handler → Threads → Threads
put_thread k ds h threads j = if eqb j k then some (ds, h) else threads j

module _ (F : FileSystem) (storage_path : Str) (distribution : ℕ → ℕ) where
  -- After the file is written, or not.
  abbrev pub wrote : Str → FileUploadData → List FileUploadData → Answer → Bool → Handler
  wrote fid d ds rsp ret =
      if ret
      then naming ds (record rsp { payload = rsp.payload ++ (message_info fid d ∷ []) })
      else answered (failed "写入文件数据失败! " rsp)

  unfoldable pub put_step : Handler → Server F → Handler × Server F
  put_step (naming [] rsp) s = (answered (record rsp { success = true }), s)
  put_step (naming (d ∷ ds) rsp) s =
      let (fid, ids') = uuid distribution s.ids in (writing fid d ds rsp, record s { ids = ids' })
  put_step (writing fid d ds rsp) s = elim (F.open_out (storage_path ++ fid) s.files) [
    | none ↦ (wrote fid d ds rsp false, s)
    | some files' ↦ (filling fid d ds rsp, record s { files = files' })
  ]
  put_step (filling fid d ds rsp) s =
      let (good, files') = F.write (storage_path ++ fid) d.file_content s.files in
      (closing fid d ds rsp good, record s { files = files' })
  put_step (closing fid d ds rsp good) s =
      let (_, files') = F.close (storage_path ++ fid) s.files in
      (wrote fid d ds rsp good, record s { files = files' })
  put_step (answered rsp) s = (answered rsp, s)

  -- A thread that runs alone.
  pub data Alone : Handler → Server F → Answer × Server F → Type 0 where
    ends : (rsp : Answer) (s : Server F) → Alone (answered rsp) s (rsp, s)
    goes :
        (h : Handler) (s : Server F) (x : Answer × Server F)
        → Alone (put_step h s).0 (put_step h s).1 x
        → Alone h s x

  -- Alone, a thread comes to the end of `PutMultiFile`.
  pub put_files-Alone :
      (ds : List FileUploadData) (rsp : Answer) (s : Server F)
      → Alone (naming ds rsp) s (put_files F storage_path distribution ds rsp s)
  unfolding put_step put_files write_file
  put_files-Alone [] rsp s = goes (naming [] rsp) s _ (ends (record rsp { success = true }) s)
  put_files-Alone (d ∷ ds) rsp s =
      let (fid, ids') = uuid distribution s.ids in
      let path = storage_path ++ fid in
      goes (naming (d ∷ ds) rsp) s _ (
        goes (writing fid d ds rsp) (record s { ids = ids' }) _
          (elim (Option-cases (F.open_out path s.files)) [
            | inl shut ↦ rw (shut, put_step, write_file) (ends _ _)
            | inr (files', opened) ↦
                rw (opened, put_step, write_file)
                  (goes (filling fid d ds rsp) (record { files = files'; ids = ids' }) _
                    (goes (closing fid d ds rsp (F.write path d.file_content files').0) _ _
                      (elim (Bool-cases (F.write path d.file_content files').0) [
                        | inl good ↦ rw good (put_files-Alone ds _ _)
                        | inr bad ↦ rw bad (ends _ _)
                      ])))
          ]))

  pub record Service : Type 0 where
    pub server : Server F
    pub threads : Threads

  -- A step, after `n` identifiers, with how many it leaves.
  pub data Step (n : ℕ) (s : Service) : ℕ → Service → Type 0 where
    arrive :
        (k : ℕ) (rid : Str) (ds : List FileUploadData)
        → s.threads k ≡ none
        → Step n s n (record s { threads = put_thread k ds (naming ds (reply rid [])) s.threads })
    goes_on :
        (k : ℕ) (ds : List FileUploadData) (h : Handler)
        → s.threads k ≡ some (ds, h)
        → Step n s (taken h n) (record {
          server = (put_step h s.server).1;
          threads = put_thread k ds (put_step h s.server).0 s.threads;
        })

  pub data Reach (server : Server F) : ℕ → Service → Type 0 where
    start : Reach server 0 (record { server = server; threads = λ k. none })
    later : {n m : ℕ} {s t : Service} → Reach server n s → Step n s m t → Reach server m t
