-- ===== src/File/History.antt =====
-- What was uploaded, after any number of further calls.
use cpp_microservice_im.Base.{
  ℕ, ◌+◌, ◌^◌, ◌≤◌, ◌<◌, ◌≡◌, subst, Str, true, some, List, [], ◌∷◌, ◌++◌, All, All-mono,
  All-append, length, arith, Bool-cases, inl, inr,
}
use cpp_microservice_im.Base.Outcome.{done}
use cpp_microservice_im.File.{
  FileSystem, FileUploadData, Server, write_file, get_single_file, put_single_file, put_files,
  put_multi_file,
}
use cpp_microservice_im.File.Laws.{IsLawful, Flushes}
use cpp_microservice_im.Proto.{reply}
use cpp_microservice_im.Uuid.{uuid}
use cpp_microservice_im.File.Calls.{
  Call, get_single, get_multi, put_single, put_multi, uploads, all_uploads, Entry, paired, serve,
  learned, history,
}
use cpp_microservice_im.File.Kept.{
  Kept, Kept-mono, put, put_files_idx, put_files-Kept, put_files-new,
}

module _ (F : FileSystem) (storage_path : Str) (distribution : ℕ → ℕ) where
  -- One upload is an upload of one file.
  single_as_multi :
      (rid : Str) (d : FileUploadData) (s : Server F)
      → (serve F storage_path distribution (put_single rid d) s
          ≡ serve F storage_path distribution (put_multi rid (d ∷ [])) s)
        × (learned F storage_path distribution (put_single rid d) s
            ≡ learned F storage_path distribution (put_multi rid (d ∷ [])) s)
  unfolding serve learned put_single_file put_multi_file put_files
  single_as_multi rid d s =
      elim (Bool-cases
        (write_file F (storage_path ++ (uuid distribution s.ids).0) d.file_content s.files).0) [
          | inl good ↦ (ground arith, ground arith)
          | inr bad ↦ (ground arith, ground arith)
        ]

  module _ (L : IsLawful F) (flushes : Flushes F) where
    -- One call: what was there stays, and what it adds is there.
    abbrev pub Advances : ℕ → Call → Server F → Type 0
    Advances used c s =
        let t = serve F storage_path distribution c s in
        (t.ids.idx < 2 ^ 16)
        × ((e : Entry)
            → Kept F storage_path distribution used s e
            → Kept F storage_path distribution (used + uploads c) t e)
        × All (Kept F storage_path distribution (used + uploads c) t)
            (learned F storage_path distribution c s)

    put_multi-Kept :
        (rid : Str) (ds : List FileUploadData) (used : ℕ) (s : Server F)
        → used + length ds ≤ 2 ^ 16
        → s.ids.idx < 2 ^ 16
        → Advances used (put_multi rid ds) s
    unfolding serve learned put_multi_file
    put_multi-Kept rid ds used s b g = (
      (let (j, le, idx) = put_files_idx F storage_path distribution ds (reply rid []) s g in
          omega arith),
      λ e k. put_files-Kept F storage_path distribution L flushes ds (reply rid []) used s e b k,
      elim (Bool-cases (put F storage_path distribution ds (reply rid []) s).0.success) [
        | inr bad ↦ rw bad tt
        | inl good ↦
            let (is, p, kept) =
              put_files-new F storage_path distribution L flushes ds (reply rid []) s (omega arith)
                g good in
            rw (good, p)
              (All-mono _ _ (paired is ds)
                (λ e.
                  Kept-mono F storage_path distribution (length ds) (used + length ds) _ e
                    (omega arith))
                kept)
      ],
    )

    pub serve-Kept :
        (c : Call) (used : ℕ) (s : Server F)
        → used + uploads c ≤ 2 ^ 16
        → s.ids.idx < 2 ^ 16
        → Advances used c s
    unfolding serve learned
    serve-Kept (get_single rid fid) used s b g =
        (g, λ e k. Kept-mono F storage_path distribution used (used + 0) s e (omega arith) k, tt)
    serve-Kept (get_multi rid fids) used s b g =
        (g, λ e k. Kept-mono F storage_path distribution used (used + 0) s e (omega arith) k, tt)
    serve-Kept (put_multi rid ds) used s b g = put_multi-Kept rid ds used s b g
    serve-Kept (put_single rid d) used s b g =
        let (same, same') = single_as_multi rid d s in
        rw (same, same') (put_multi-Kept rid (d ∷ []) used s b g)

    history-Kept :
        (cs : List Call) (used : ℕ) (s : Server F)
        → used + all_uploads cs ≤ 2 ^ 16
        → s.ids.idx < 2 ^ 16
        → let (es, t) = history F storage_path distribution cs s in
          ((e : Entry)
            → Kept F storage_path distribution used s e
            → Kept F storage_path distribution (used + all_uploads cs) t e)
          × All (Kept F storage_path distribution (used + all_uploads cs) t) es
    unfolding history
    history-Kept [] used s b g =
        (λ e k. Kept-mono F storage_path distribution used (used + 0) s e (omega arith) k, tt)
    history-Kept (c ∷ cs) used s b g =
        let (g', stay, fresh) = serve-Kept c used s (omega arith) g in
        let (stay', fresh') =
          history-Kept cs (used + uploads c) (serve F storage_path distribution c s) (omega arith)
            g' in
        let sum : used + uploads c + all_uploads cs ≡ used + all_uploads (c ∷ cs) = omega arith in
        let t =
          (history F storage_path distribution cs (serve F storage_path distribution c s)).1 in
        (
          λ e k. subst (λ n. Kept F storage_path distribution n t e) sum (stay' e (stay e k)),
          subst
              (λ n.
                All (Kept F storage_path distribution n t)
                  (history F storage_path distribution (c ∷ cs) s).0)
              sum
              (All-append _ (learned F storage_path distribution c s) _ (All-mono _ _ _ stay' fresh)
                fresh'),
        )

    -- On a lawful file system whose files are flushed when they are closed, over any calls of the four
    -- handlers in a row that upload at most 2 ^ 16 files between them: in the end every name that an answer
    -- of success gave still stands for what was uploaded under it, so that GetSingleFile answers it.
    pub uploads_stay :
        (cs : List Call) (s : Server F)
        → all_uploads cs ≤ 2 ^ 16
        → s.ids.idx < 2 ^ 16
        → let (es, t) = history F storage_path distribution cs s in
          All
            (λ e.
              (rid : Str)
              → get_single_file F storage_path rid e.0 t
                ≡ done (record {
                  request_id = rid;
                  success = true;
                  errmsg = [];
                  payload = some (record { file_id = e.0; file_content = e.1 });
                }))
            es
    unfolding get_single_file
    uploads_stay cs s b g =
        All-mono _ _ (history F storage_path distribution cs s).0
          (λ e k rid. ground (arith, k.held)) (history-Kept cs 0 s (omega arith) g).1
