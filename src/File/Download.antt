-- ===== src/File/Download.antt =====
-- `GetMultiFile`: when it succeeds, and what it then returns.
use cpp_microservice_im.Base.{
  ◌≡◌, refl, Str, Bool, true, false, Option, none, some, List, [], ◌∷◌, ◌++◌, arith, contains,
  if◌then◌else◌, ◌==◌, inl, inr, ◌⊎◌, ◌∙◌,
}
use cpp_microservice_im.Base.Outcome.{Outcome, done, crash, Fault}
use cpp_microservice_im.Base.Dict
use cpp_microservice_im.Base.Dict.{Dict}
use cpp_microservice_im.Uuid.{Generator}
use cpp_microservice_im.Proto.{Reply, reply}
use cpp_microservice_im.File.{FileSystem, FileDownloadData, read_file, get_files, get_multi_file}

-- Whether an answer says success.
abbrev pub ended : {A : Type 0} → Outcome (Reply A) → Outcome Bool
ended (done rsp) = done rsp.success
ended (crash e) = crash e

module _ (F : FileSystem) (storage_path : Str) (s : F.State) where
  -- The entry for a name in an answer, if its file can be read.
  pub reads : Str → Option FileDownloadData
  reads fid = elim (read_file F (storage_path ++ fid) s) [
    | crash e ↦ none
    | done body ↦ elim body [
      | none ↦ none
      | some body ↦ some (record { file_id = fid; file_content = body })
    ]
  ]

  -- Whether every file of the list can be read, in order, as far as no exception ends it.
  unfoldable pub all_readable : List Str → Outcome Bool
  all_readable [] = done true
  all_readable (fid ∷ fids) = elim (read_file F (storage_path ++ fid) s) [
    | crash e ↦ crash e
    | done body ↦ elim body [ none ↦ done false | some _ ↦ all_readable fids ]
  ]

  abbrev Agrees : Dict FileDownloadData → Type 0
  Agrees d = (k : Str) → (Dict.lookup k d ≡ none) ⊎ (Dict.lookup k d ≡ reads k)

  -- An entry that is there already is the one that `insert` would add.
  insert-reads :
      (k fid body : Str) (d : Dict FileDownloadData)
      → read_file F (storage_path ++ fid) s ≡ done (some body)
      → Agrees d
      → Dict.lookup k (Dict.insert fid (record { file_id = fid; file_content = body }) d)
        ≡ (if k == fid then reads k else Dict.lookup k d)
  unfolding reads
  insert-reads k fid body d e a = elim (a fid) [
    | inl fresh ↦
        ground
          (arith, Dict.lookup-insert k fid (record { file_id = fid; file_content = body }) d fresh)
    | inr old ↦ ground (
      arith,
      Dict.insert_present fid (record { file_id = fid; file_content = body })
          (record { file_id = fid; file_content = body }) d,
    )
  ]

  -- How a reading of a file ends.
  read_file-cases :
      (o : Outcome (Option Str))
      → ((e : Fault) × (o ≡ crash e)) ⊎ (o ≡ done none) ⊎ (body : Str) × (o ≡ done (some body))
  read_file-cases (crash e) = inl (e, refl)
  read_file-cases (done none) = inr (inl refl)
  read_file-cases (done (some body)) = inr (inr (body, refl))

  get_files_lem :
      (k : Str) (ids : List Str) (rsp : Reply (Dict FileDownloadData))
      → Agrees rsp.payload
      → (ended (get_files F storage_path ids s rsp) ≡ all_readable ids)
        × ((r : Reply (Dict FileDownloadData))
            → get_files F storage_path ids s rsp ≡ done r
            → r.success ≡ true
            → Dict.lookup k r.payload
              ≡ (if contains k ids then reads k else Dict.lookup k rsp.payload))
  unfolding get_files all_readable contains
  get_files_lem k [] rsp a = (refl, λ r e h. ground arith)
  get_files_lem k (fid ∷ ids) rsp a = elim (read_file-cases (read_file F (storage_path ++ fid) s)) [
    | inl (f, e) ↦ rw (e, get_files, all_readable) (refl, λ r q h. cc)
    | inr (inl e) ↦ rw (e, get_files, all_readable) (refl, λ r q h. absurd (ground arith))
    | inr (inr (body, e)) ↦
        let d = Dict.insert fid (record { file_id = fid; file_content = body }) rsp.payload in
        let now : (j : Str)
            → Dict.lookup j d ≡ (if j == fid then reads j else Dict.lookup j rsp.payload) =
          (λ j. insert-reads j fid body rsp.payload e a) in
        let still : Agrees d = (λ j. ground (arith, now j, a j)) in
        let (p, q) = get_files_lem k ids (record rsp { payload = d }) still in
        rw (e, get_files, all_readable) (p, λ r same h. q r same h ∙ ground (arith, now k))
  ]

  module _ (rid : Str) (ids : List Str) (g : Generator) where
    abbrev response : Outcome (Reply (Dict FileDownloadData))
    response = get_multi_file F storage_path rid ids (record { files = s; ids = g })

    -- An answer of success has the content of each file named, under its name, and nothing else.
    pub get_multi_file-content :
        (k : Str) (rsp : Reply (Dict FileDownloadData))
        → response ≡ done rsp
        → rsp.success ≡ true
        → Dict.lookup k rsp.payload ≡ (if contains k ids then reads k else none)
    unfolding get_multi_file
    get_multi_file-content k rsp e h =
        (get_files_lem k ids (reply rid []) (λ j. inl (Dict.lookup-nil j))).1 rsp e h
        ∙ rw Dict.lookup-nil refl
