-- ===== src/File/Kept.antt =====
-- An uploaded file, while others are uploaded.
use cpp_microservice_im.Base.{
  ℕ, suc, ◌+◌, ◌%◌, ◌^◌, ◌≤◌, ◌<◌, ◌≡◌, refl, sym, ap, ◌∙◌, Str, Bool, true, some, List, [], ◌∷◌,
  ◌++◌, All, All-mono, length, arith, Bool-cases, inl, inr,
}
use mathlib.Core.List.{append-nil, append_assoc}
use cpp_microservice_im.Base.Outcome.{done}
use cpp_microservice_im.File.{
  FileSystem, FileUploadData, FileMessageInfo, Server, read_file, write_file, put_files,
}
use cpp_microservice_im.File.Laws.{IsLawful, Flushes, read_file-write_file}
use cpp_microservice_im.File.RoundTrip.{put_files_other}
use cpp_microservice_im.Proto.{Reply}
use cpp_microservice_im.Uuid.{Generator, uuid}
use cpp_microservice_im.Uuid.Distinct.{uuid_idx}
use cpp_microservice_im.File.Calls.{Entry, paired}

module _ (F : FileSystem) (storage_path : Str) (distribution : ℕ → ℕ) where
  abbrev pub put :
      List FileUploadData
      → Reply (List FileMessageInfo)
      → Server F
      → Reply (List FileMessageInfo) × Server F
  put = put_files F storage_path distribution

  abbrev wrote : FileUploadData → Server F → Bool × F.State
  wrote d s = write_file F (storage_path ++ (uuid distribution s.ids).0) d.file_content s.files

  -- The server after one file, and the answer with it.
  abbrev next : FileUploadData → Server F → Server F
  next d s = record { files = (wrote d s).1; ids = (uuid distribution s.ids).1 }

  abbrev added :
      FileUploadData → Server F → Reply (List FileMessageInfo) → Reply (List FileMessageInfo)
  added d s rsp = record rsp {
    payload =
        rsp.payload
        ++ (record {
          file_id = (uuid distribution s.ids).0;
          file_size = d.file_size;
          file_name = d.file_name;
        }
            ∷ []);
  }

  -- So many identifiers are made at most.
  pub put_files_idx :
      (ds : List FileUploadData) (rsp : Reply (List FileMessageInfo)) (s : Server F)
      → s.ids.idx < 2 ^ 16
      → (j : ℕ) × (j ≤ length ds) × ((put ds rsp s).1.ids.idx ≡ (s.ids.idx + j) % 2 ^ 16)
  unfolding put_files
  put_files_idx [] rsp s h = (0, omega arith, omega arith)
  put_files_idx (d ∷ ds) rsp s h = elim (Bool-cases (wrote d s).0) [
    | inl good ↦
        let (j, b, e) =
          put_files_idx ds (added d s rsp) (next d s)
            (omega (arith, uuid_idx distribution s.ids)) in
        (suc j, omega arith, rw good (e ∙ omega (arith, uuid_idx distribution s.ids)))
    | inr bad ↦ (1, omega arith, rw bad (uuid_idx distribution s.ids))
  ]

  -- The entry is on the disk, and its name was made at most `used` identifiers ago.
  pub record Kept (used : ℕ) (s : Server F) (e : Entry) : Type 0 where
    pub by : Generator
    pub back : ℕ
    pub named : e.0 ≡ (uuid distribution by).0
    pub small : by.idx < 2 ^ 16
    pub earlier : 0 < back
    pub recent : back ≤ used
    pub counted : s.ids.idx ≡ (by.idx + back) % 2 ^ 16
    pub held : read_file F (storage_path ++ e.0) s.files ≡ done (some e.1)

  pub Kept-mono :
      (used more : ℕ) (s : Server F) (e : Entry) → used ≤ more → Kept used s e → Kept more s e
  Kept-mono used more s e le k = record {
    by = k.by;
    back = k.back;
    named = k.named;
    small = k.small;
    earlier = k.earlier;
    recent = omega (arith, k.recent);
    counted = k.counted;
    held = k.held;
  }

  module _ (L : IsLawful F) (flushes : Flushes F) where
    pub put_files-Kept :
        (ds : List FileUploadData) (rsp : Reply (List FileMessageInfo)) (used : ℕ) (s : Server F)
        (e : Entry)
        → used + length ds ≤ 2 ^ 16
        → Kept used s e
        → Kept (used + length ds) (put ds rsp s).1 e
    put_files-Kept ds rsp used s e b k =
        let (j, le, idx) = put_files_idx ds rsp s (omega (arith, k.counted)) in
        record {
          by = k.by;
          back = k.back + j;
          named = k.named;
          small = k.small;
          earlier = omega (arith, k.earlier);
          recent = omega (arith, k.recent);
          counted = omega (arith, k.counted);
          held =
              ap (λ n. read_file F (storage_path ++ n) (put ds rsp s).1.files) k.named
              ∙ put_files_other F L flushes storage_path distribution ds rsp s k.by k.back k.small
                  k.earlier k.counted (omega (arith, k.recent))
              ∙ ap (λ n. read_file F (storage_path ++ n) s.files) (sym k.named)
              ∙ k.held;
        }

    -- The files of a successful upload.
    pub put_files-new :
        (ds : List FileUploadData) (rsp : Reply (List FileMessageInfo)) (s : Server F)
        → length ds ≤ 2 ^ 16
        → s.ids.idx < 2 ^ 16
        → (put ds rsp s).0.success ≡ true
        → (is : List FileMessageInfo) × ((put ds rsp s).0.payload ≡ rsp.payload ++ is)
          × All (Kept (length ds) (put ds rsp s).1) (paired is ds)
    unfolding put_files
    put_files-new [] rsp s b g h = ([], sym (append-nil _), tt)
    put_files-new (d ∷ ds) rsp s b g h = elim (Bool-cases (wrote d s).0) [
      | inr bad ↦ cc (rw (bad, put_files) at h)
      | inl good ↦
          let (is, p, kept) =
            put_files-new ds (added d s rsp) (next d s) (omega arith)
              (omega (arith, uuid_idx distribution s.ids)) (rw (good, put_files) at h) in
          let first : Kept 1 (next d s) ((uuid distribution s.ids).0, d.file_content) = record {
            by = s.ids;
            back = 1;
            named = refl;
            small = g;
            earlier = omega arith;
            recent = omega arith;
            counted = uuid_idx distribution s.ids;
            held = read_file-write_file F L _ d.file_content s.files flushes good;
          } in
          let still = put_files-Kept ds (added d s rsp) 1 (next d s) _ (omega arith) first in
          rw good (
            record {
              file_id = (uuid distribution s.ids).0;
              file_size = d.file_size;
              file_name = d.file_name;
            }
                ∷ is,
            p ∙ append_assoc rsp.payload _ is,
            (
              Kept-mono (1 + length ds) (suc (length ds)) _ _ (omega arith) still,
              All-mono _ _ (paired is ds)
                  (λ e. Kept-mono (length ds) (suc (length ds)) _ e (omega arith)) kept,
            ),
          )
    ]
