-- ===== src/File/RoundTrip.antt =====
-- `PutSingleFile` and `PutMultiFile`, and a download afterwards.
use mathlib.Core.List.{append-nil, append_assoc}
use cpp_microservice_im.Base.{
  ℕ, ◌+◌, ◌%◌, ◌^◌, ◌≤◌, ◌<◌, ◌≡◌, refl, sym, subst, ◌∙◌, Str, true, some, List, [], ◌∷◌, ◌++◌, All,
  length, arith, Bool-cases, inl, inr,
}
use cpp_microservice_im.Uuid.{Generator, uuid}
use cpp_microservice_im.Uuid.Distinct.{uuid_shape, uuid-ne, uuid_idx, IsIdChar, IsIdChar-ne-slash}
use cpp_microservice_im.Proto.{Reply}
use cpp_microservice_im.Base.Outcome.{done}
use cpp_microservice_im.File.{
  FileSystem, FileUploadData, FileMessageInfo, Server, read_file, write_file, get_single_file,
  put_single_file, put_files, put_multi_file,
}
use cpp_microservice_im.File.Laws.{
  IsLawful, Flushes, IsPlain, read_file-write_file, read_file-write_file_other,
}

module _ (F : FileSystem) (L : IsLawful F) (flushes : Flushes F) (storage_path : Str)
    (distribution : ℕ → ℕ) where
  -- On a lawful file system whose files are flushed when they are closed, a successful upload
  -- names a file from which a download of that name, before anything else is written, gets what
  -- was uploaded, and the upload's answer repeats the name and the size that the client gave.
  pub get-put_single_file :
      (rid rid' : Str) (d : FileUploadData) (server : Server F)
      → (put_single_file F storage_path distribution rid d server).0.success ≡ true
      → let (rsp, server') = put_single_file F storage_path distribution rid d server in
        (info : FileMessageInfo) × (rsp.payload ≡ some info)
        × (info.file_name ≡ d.file_name)
        × (info.file_size ≡ d.file_size)
        × (get_single_file F storage_path rid' info.file_id server'
            ≡ done (record {
              request_id = rid';
              success = true;
              errmsg = [];
              payload = some (record { file_id = info.file_id; file_content = d.file_content });
            }))
  unfolding put_single_file get_single_file
  get-put_single_file rid rid' d server h =
      elim (Bool-cases (write_file F path d.file_content server.files).0) [
        | inl good ↦ (
          info,
          rw good,
          refl,
          refl,
          rw
              (
                read_file-write_file F L path d.file_content server.files flushes good,
                get_single_file,
              )
              refl,
        )
        | inr bad ↦ ground arith
      ]
    where
      path : Str
      path = storage_path ++ (uuid distribution server.ids).0

      info : FileMessageInfo
      info = record {
        file_id = (uuid distribution server.ids).0;
        file_size = d.file_size;
        file_name = d.file_name;
      }

-- The files that the messages name hold these contents, in order.
abbrev Stored :
    (F : FileSystem) → Str → List FileMessageInfo → List FileUploadData → F.State → Type 0
Stored F dir [] [] s = Unit
Stored F dir [] (d ∷ ds) s = ⊥
Stored F dir (i ∷ is) [] s = ⊥
Stored F dir (i ∷ is) (d ∷ ds) s =
    (read_file F (dir ++ i.file_id) s ≡ done (some d.file_content))
    × (i.file_name ≡ d.file_name)
    × (i.file_size ≡ d.file_size)
    × Stored F dir is ds s

IsPlain-IsIdChar : (s : Str) → All IsIdChar s → IsPlain s
IsPlain-IsIdChar [] h = tt
IsPlain-IsIdChar (c ∷ s) h = (IsIdChar-ne-slash c h.0, IsPlain-IsIdChar s h.1)

module _ (F : FileSystem) (L : IsLawful F) (flushes : Flushes F) (storage_path : Str)
    (distribution : ℕ → ℕ) where
  pub uuid-IsPlain : (g : Generator) → IsPlain (uuid distribution g).0
  uuid-IsPlain g = IsPlain-IsIdChar _ (uuid_shape distribution g).1

  abbrev put :
      List FileUploadData
      → Reply (List FileMessageInfo)
      → Server F
      → Reply (List FileMessageInfo) × Server F
  put = put_files F storage_path distribution

  -- Uploads leave a file alone whose identifier was made less than 2 ^ 16 before the last of them.
  pub put_files_other :
      (ds : List FileUploadData) (rsp : Reply (List FileMessageInfo)) (server : Server F)
      (g : Generator) (k : ℕ)
      → g.idx < 2 ^ 16
      → 0 < k
      → server.ids.idx ≡ (g.idx + k) % 2 ^ 16
      → k + length ds ≤ 2 ^ 16
      → read_file F (storage_path ++ (uuid distribution g).0) (put ds rsp server).1.files
        ≡ read_file F (storage_path ++ (uuid distribution g).0) server.files
  unfolding put_files
  put_files_other [] rsp server g k hg hk e b = refl
  put_files_other (d ∷ ds) rsp server g k hg hk e b =
      elim (Bool-cases (write_file F path d.file_content server.files).0) [
        | inl good ↦ rw good (
            put_files_other ds _ _ g (k + 1) hg (omega arith)
              (omega (arith, uuid_idx distribution server.ids)) (omega arith)
            ∙ step)
        | inr bad ↦ rw bad step
      ]
    where
      path : Str
      path = storage_path ++ (uuid distribution server.ids).0

      step :
          read_file F
            (storage_path ++ (uuid distribution g).0)
            (write_file F path d.file_content server.files).1
          ≡ read_file F (storage_path ++ (uuid distribution g).0) server.files
      step =
          read_file-write_file_other F L storage_path _ _ d.file_content server.files
            (uuid-IsPlain server.ids) (uuid-IsPlain g)
            (uuid-ne distribution server.ids g (omega arith) hg (omega arith))

  put_files-Stored :
      (ds : List FileUploadData) (rsp : Reply (List FileMessageInfo)) (server : Server F)
      → length ds ≤ 2 ^ 16
      → server.ids.idx < 2 ^ 16
      → (put ds rsp server).0.success ≡ true
      → (is : List FileMessageInfo) × ((put ds rsp server).0.payload ≡ rsp.payload ++ is)
        × Stored F storage_path is ds (put ds rsp server).1.files
  unfolding put_files
  put_files-Stored [] rsp server b g h = ([], sym (append-nil _), tt)
  put_files-Stored (d ∷ ds) rsp server b g h =
      elim (Bool-cases (write_file F path d.file_content server.files).0) [
        | inl good ↦
            let (is, p, st) =
              put_files-Stored ds (record rsp { payload = rsp.payload ++ (info ∷ []) }) next
                (omega arith) (omega (arith, uuid_idx distribution server.ids))
                (rw (good, put_files) at h) in
            let kept =
              put_files_other ds (record rsp { payload = rsp.payload ++ (info ∷ []) }) next
                server.ids 1 g (omega arith) (uuid_idx distribution server.ids) (omega arith) in
            let held = read_file-write_file F L path d.file_content server.files flushes good in
            rw good (
              info ∷ is,
              p ∙ append_assoc rsp.payload (info ∷ []) is,
              (kept ∙ held, refl, refl, st),
            )
        | inr bad ↦ cc (rw (bad, put_files) at h)
      ]
    where
      path : Str
      path = storage_path ++ (uuid distribution server.ids).0

      info : FileMessageInfo
      info = record {
        file_id = (uuid distribution server.ids).0;
        file_size = d.file_size;
        file_name = d.file_name;
      }

      next : Server F
      next = record {
        files = (write_file F path d.file_content server.files).1;
        ids = (uuid distribution server.ids).1;
      }

  -- On a lawful file system whose files are flushed when they are closed, after a successful
  -- upload of at most 2 ^ 16 files the answer names as many files, in order, each with the name
  -- and the size that the client gave and each holding what was uploaded: no later file of the
  -- upload has overwritten an earlier one.
  put_multi_file-Stored :
      (rid : Str) (ds : List FileUploadData) (server : Server F)
      → length ds ≤ 2 ^ 16
      → server.ids.idx < 2 ^ 16
      → (put_multi_file F storage_path distribution rid ds server).0.success ≡ true
      → let (rsp, server') = put_multi_file F storage_path distribution rid ds server in
        Stored F storage_path rsp.payload ds server'.files
  unfolding put_multi_file
  put_multi_file-Stored rid ds server b g h =
      let (is, p, st) = put_files-Stored ds _ server b g h in
      subst
        (λ is'.
          Stored F storage_path is' ds
            (put_multi_file F storage_path distribution rid ds server).1.files)
        (sym p) st
