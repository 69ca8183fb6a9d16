-- ===== src/File/Threads/Owned.antt =====
-- What the threads of the file service have written, each under identifiers of its own.
use cpp_microservice_im.Base.{sym, ◌∙◌, ◌^◌, ◌≢◌}
use cpp_microservice_im.Base.{ℕ, ◌≤◌, ◌<◌, ◌≡◌, Str, true, some, List, [], ◌∷◌, ◌++◌, arith}
use cpp_microservice_im.Base.Outcome.{done}
use cpp_microservice_im.File.{FileSystem, FileUploadData, FileMessageInfo, read_file}
use cpp_microservice_im.File.Threads.{Handler, Answer, naming, writing, filling, closing, answered}
use cpp_microservice_im.File.Threads.Names.{name, name-ne, name-IsPlain}
use cpp_microservice_im.File.Laws.{IsLawful}
use cpp_microservice_im.File.Streams.{HasStreams, Touch, read_file-Touch}
use cpp_microservice_im.Uuid.{Generator}

-- The entries of an answer and the files of its request correspond one to one, in order.
abbrev pub Each :
    (FileMessageInfo → FileUploadData → Type 0)
    → List FileMessageInfo
    → List FileUploadData
    → Type 0
Each P [] [] = Unit
Each P [] (d ∷ ds) = ⊥
Each P (i ∷ infos) [] = ⊥
Each P (i ∷ infos) (d ∷ ds) = P i d × Each P infos ds

pub Each-mono :
    (P Q : FileMessageInfo → FileUploadData → Type 0) (infos : List FileMessageInfo)
    (ds : List FileUploadData)
    → ((i : FileMessageInfo) (d : FileUploadData) → P i d → Q i d)
    → Each P infos ds
    → Each Q infos ds
Each-mono P Q [] [] f h = tt
Each-mono P Q [] (d ∷ ds) f h = elim h [ ]
Each-mono P Q (i ∷ infos) [] f h = elim h [ ]
Each-mono P Q (i ∷ infos) (d ∷ ds) f (p, h) = (f i d p, Each-mono P Q infos ds f h)

pub Each-snoc :
    (P : FileMessageInfo → FileUploadData → Type 0) (infos : List FileMessageInfo)
    (ds : List FileUploadData) (i : FileMessageInfo) (d : FileUploadData)
    → Each P infos ds
    → P i d
    → Each P (infos ++ (i ∷ [])) (ds ++ (d ∷ []))
Each-snoc P [] [] i d h p = (p, tt)
Each-snoc P [] (d' ∷ ds) i d h p = elim h [ ]
Each-snoc P (i' ∷ infos) [] i d h p = elim h [ ]
Each-snoc P (i' ∷ infos) (d' ∷ ds) i d (p', h) p = (p', Each-snoc P infos ds i d h p)

module _ (F : FileSystem) (H : HasStreams F) (storage_path : Str) (distribution : ℕ → ℕ)
    (g : Generator) where
  abbrev pub Read : ℕ → F.State → Str → Type 0
  Read i files body = read_file F (storage_path ++ name distribution g i) files ≡ done (some body)

  -- `owner` says which thread took an identifier. The entry is for this file, which is on the disk
  -- under one of the thread's identifiers below `b`.
  pub record Owned (owner : ℕ → ℕ) (k b : ℕ) (files : F.State) (info : FileMessageInfo)
      (d : FileUploadData) : Type 0 where
    pub by : ℕ
    pub below : by < b
    pub owned : owner by ≡ k
    pub named : name distribution g by ≡ info.file_id
    pub labelled : info.file_name ≡ d.file_name
    pub sized : info.file_size ≡ d.file_size
    pub held : Read by files d.file_content

  abbrev pub Answers :
      (ℕ → ℕ) → ℕ → ℕ → F.State → List FileMessageInfo → List FileUploadData → Type 0
  Answers owner k b files infos ds = Each (Owned owner k b files) infos ds

  -- What there is under an identifier, a file or an open stream, is so later.
  pub record Keeps (i : ℕ) (files files' : F.State) : Type 0 where
    pub reads : (body : Str) → Read i files body → Read i files' body
    pub still_open :
        H.Open (storage_path ++ name distribution g i) files
        → H.Open (storage_path ++ name distribution g i) files'
    pub filled :
        (body : Str)
        → H.Filled (storage_path ++ name distribution g i) body files
        → H.Filled (storage_path ++ name distribution g i) body files'

  pub Keeps-refl : (i : ℕ) (files : F.State) → Keeps i files files
  Keeps-refl i files = record { reads = λ body h. h; still_open = λ h. h; filled = λ body h. h }

  -- An operation on the stream of one identifier keeps what there is under another.
  pub Touch-Keeps :
      (L : IsLawful F) (i j : ℕ) (files files' : F.State)
      → g.idx < 2 ^ 16
      → i < 2 ^ 16
      → j < 2 ^ 16
      → j ≢ i
      → Touch F (storage_path ++ name distribution g i) files files'
      → Keeps j files files'
  Touch-Keeps L i j files files' small hi hj apart t =
      let a = name-IsPlain distribution g i in
      let b = name-IsPlain distribution g j in
      let n = name-ne distribution g i j small hi hj (λ e. apart (sym e)) in
      record {
        reads = λ body h. read_file-Touch F L storage_path _ _ files files' a b n t ∙ h;
        still_open = H.open_other storage_path _ _ files files' a b n t;
        filled = λ body. H.filled_other storage_path _ _ body files files' a b n t;
      }

  -- What was under a thread's identifiers below `b` still is.
  abbrev pub Leaves : (ℕ → ℕ) → (ℕ → ℕ) → ℕ → ℕ → F.State → F.State → Type 0
  Leaves owner owner' k b files files' =
      (i : ℕ) → i < b → owner i ≡ k → (owner' i ≡ k) × Keeps i files files'

  pub Answers-Leaves :
      (owner owner' : ℕ → ℕ) (k b b' : ℕ) (files files' : F.State) (infos : List FileMessageInfo)
      (ds : List FileUploadData)
      → b ≤ b'
      → Leaves owner owner' k b files files'
      → Answers owner k b files infos ds
      → Answers owner' k b' files' infos ds
  Answers-Leaves owner owner' k b b' files files' infos ds le leaves a =
      Each-mono _ _ infos ds
        (λ i d o.
          let (mine, still) = leaves o.by o.below o.owned in
          record {
            by = o.by;
            below = omega (arith, o.below);
            owned = mine;
            named = o.named;
            labelled = o.labelled;
            sized = o.sized;
            held = still.reads d.file_content o.held;
          })
        a

  -- Within a round: the file `d`, of which `front` came before, has the identifier `i`.
  pub record Pending (owner : ℕ → ℕ) (k n : ℕ) (files : F.State) (request : List FileUploadData)
      (fid : Str) (d : FileUploadData) (ds : List FileUploadData) (rsp : Answer) (i : ℕ)
      : Type 0 where
    pub front : List FileUploadData
    pub whole : request ≡ front ++ (d ∷ ds)
    pub taken : i < n
    pub owned : owner i ≡ k
    pub named : name distribution g i ≡ fid
    pub before : Answers owner k i files rsp.payload front

  -- A thread, after `n` identifiers were taken in all.
  abbrev pub Fine : (ℕ → ℕ) → ℕ → ℕ → F.State → List FileUploadData → Handler → Type 0
  Fine owner k n files request (naming ds rsp) =
      (front : List FileUploadData) × (request ≡ front ++ ds)
      × Answers owner k n files rsp.payload front
  Fine owner k n files request (writing fid d ds rsp) =
      (i : ℕ) × Pending owner k n files request fid d ds rsp i
  Fine owner k n files request (filling fid d ds rsp) =
      (i : ℕ) × Pending owner k n files request fid d ds rsp i
      × H.Open (storage_path ++ name distribution g i) files
  Fine owner k n files request (closing fid d ds rsp good) =
      (i : ℕ) × Pending owner k n files request fid d ds rsp i
      × (good ≡ true → H.Filled (storage_path ++ name distribution g i) d.file_content files)
  Fine owner k n files request (answered rsp) =
      rsp.success ≡ true → Answers owner k n files rsp.payload request

  module _ (owner owner' : ℕ → ℕ) (k n n' : ℕ) (files files' : F.State)
      (request : List FileUploadData) (le : n ≤ n')
      (leaves : Leaves owner owner' k n files files') where
    Pending-Leaves :
        (fid : Str) (d : FileUploadData) (ds : List FileUploadData) (rsp : Answer) (i : ℕ)
        → Pending owner k n files request fid d ds rsp i
        → Pending owner' k n' files' request fid d ds rsp i
    Pending-Leaves fid d ds rsp i p = record {
      front = p.front;
      whole = p.whole;
      taken = omega (arith, p.taken);
      owned = (leaves i p.taken p.owned).0;
      named = p.named;
      before =
          Answers-Leaves owner owner' k i i files files' rsp.payload p.front (omega arith)
            (λ j lt own. leaves j (omega (arith, p.taken)) own) p.before;
    }

    -- What leaves a thread's files leaves the thread fine.
    pub Fine-Leaves :
        (h : Handler) → Fine owner k n files request h → Fine owner' k n' files' request h
    Fine-Leaves (naming ds rsp) (front, e, a) =
        (front, e, Answers-Leaves owner owner' k n n' files files' rsp.payload front le leaves a)
    Fine-Leaves (writing fid d ds rsp) (i, p) = (i, Pending-Leaves fid d ds rsp i p)
    Fine-Leaves (filling fid d ds rsp) (i, p, fresh) =
        (i, Pending-Leaves fid d ds rsp i p, (leaves i p.taken p.owned).1.still_open fresh)
    Fine-Leaves (closing fid d ds rsp good) (i, p, full) = (
      i,
      Pending-Leaves fid d ds rsp i p,
      λ g. (leaves i p.taken p.owned).1.filled d.file_content (full g),
    )
    Fine-Leaves (answered rsp) a = λ good.
        Answers-Leaves owner owner' k n n' files files' rsp.payload request le leaves (a good)
