-- ===== src/File/Threads/Apart.antt =====
-- Uploads that overlap.
use mathlib.Core.Option.{some-injective}
use cpp_microservice_im.Base.{
  ℕ, ◌^◌, ◌≤◌, ◌<◌, ◌≡◌, ◌≢◌, refl, sym, subst, Str, true, some, List, [], ◌∷◌, arith, Bool-cases,
  inl, inr, eqb,
}
use cpp_microservice_im.Base.Outcome.{done}
use cpp_microservice_im.File.{FileSystem, FileUploadData, Server, get_single_file}
use cpp_microservice_im.File.Laws.{IsLawful, Flushes}
use cpp_microservice_im.File.Threads.{
  Answer, Handler, naming, writing, filling, closing, answered, put_step, taken, Threads, Service,
  Step, arrive, goes_on, Reach, start, later, put_thread,
}
use cpp_microservice_im.File.Streams.{HasStreams}
use cpp_microservice_im.File.Threads.Names.{nth}
use cpp_microservice_im.File.Threads.Owned.{Each, Each-mono, Fine, Fine-Leaves}
use cpp_microservice_im.File.Threads.Steps.{put_step-Goes}

-- What holds of a new thread and of the others.
put_thread-all :
    (P : ℕ → List FileUploadData × Handler → Type 0) (k : ℕ) (ds : List FileUploadData)
    (h : Handler) (threads : Threads)
    → P k (ds, h)
    → ((j : ℕ) (y : List FileUploadData × Handler) → j ≢ k → threads j ≡ some y → P j y)
    → (j : ℕ) (y : List FileUploadData × Handler) → put_thread k ds h threads j ≡ some y
    → P j y
put_thread-all P k ds h threads new old j y e = elim (Bool-cases (eqb j k)) [
  | inl same ↦
      let q : (ds, h) ≡ y = some-injective _ _ (rw same at e) in
      let p : j ≡ k = ground arith in subst (P j) q (subst (λ i. P i (ds, h)) (sym p) new)
  | inr other ↦ old j y (ground arith) (rw other at e)
]

taken-le : (h : Handler) (n : ℕ) → n ≤ taken h n
taken-le (naming [] rsp) n = omega arith
taken-le (naming (d ∷ ds) rsp) n = omega arith
taken-le (writing fid d ds rsp) n = omega arith
taken-le (filling fid d ds rsp) n = omega arith
taken-le (closing fid d ds rsp good) n = omega arith
taken-le (answered rsp) n = omega arith

module _ (F : FileSystem) (H : HasStreams F) (storage_path : Str) (distribution : ℕ → ℕ)
    (server : Server F) where
  Step-le :
      (n m : ℕ) (s t : Service F storage_path distribution)
      → Step F storage_path distribution n s m t
      → n ≤ m
  Step-le n _ s _ (arrive k rid ds free) = omega arith
  Step-le n _ s _ (goes_on k ds h there) = taken-le h n

  -- Every thread is fine.
  abbrev AllFine : (ℕ → ℕ) → ℕ → Service F storage_path distribution → Type 0
  AllFine owner n s =
      (s.server.ids ≡ nth distribution server.ids n)
      × ((k : ℕ) (y : List FileUploadData × Handler)
          → s.threads k ≡ some y
          → Fine F H storage_path distribution server.ids owner k n s.server.files y.0 y.1)

  module _ (L : IsLawful F) (flushes : Flushes F) (small : server.ids.idx < 2 ^ 16) where
    Step-AllFine :
        (owner : ℕ → ℕ) (n m : ℕ) (s t : Service F storage_path distribution)
        → Step F storage_path distribution n s m t
        → m ≤ 2 ^ 16
        → AllFine owner n s
        → (owner' : ℕ → ℕ) × AllFine owner' m t
    Step-AllFine owner n _ s _ (arrive k rid ds free) most (e, fine) = (
      owner,
      (
        e,
        put_thread-all
            (λ j y. Fine F H storage_path distribution server.ids owner j n s.server.files y.0 y.1)
            k ds _ s.threads ([], refl, tt) (λ j y ne there. fine j y there),
      ),
    )
    Step-AllFine owner n _ s _ (goes_on k ds h there) most (e, fine) =
        let (owner', e', le, mine, leaves) =
          put_step-Goes F H storage_path distribution server.ids L flushes owner k n ds h s.server
            small (omega (arith, taken-le h n)) e (fine k (ds, h) there) in
        (
          owner',
          (
            e',
            put_thread-all
                (λ j y.
                  Fine F H storage_path distribution server.ids owner' j (taken h n)
                    (put_step F storage_path distribution h s.server).1.files y.0 y.1)
                k ds _ s.threads mine
                (λ j y ne there'.
                  Fine-Leaves F H storage_path distribution server.ids owner owner' j n (taken h n)
                    _ _ y.0 le (leaves j ne) y.1 (fine j y there')),
          ),
        )

    Reach-AllFine :
        (n : ℕ) (s : Service F storage_path distribution)
        → Reach F storage_path distribution server n s
        → n ≤ 2 ^ 16
        → (owner : ℕ → ℕ) × AllFine owner n s
    unfolding nth
    Reach-AllFine _ _ start most = ((λ i. i), (refl, λ k y there. absurd cc))
    Reach-AllFine _ _ (later {n} {m} {s} {t} r st) most =
        let (owner, fine) = Reach-AllFine n s r (omega (arith, Step-le n m s t st)) in
        Step-AllFine owner n m s t st most fine

-- On a lawful file system, also of streams that are open at the same time, whose files are flushed when
-- they are closed, uploads run on any number of threads, in any order of their steps: taking an identifier,
-- and opening, writing and closing the file. As long as at most 2 ^ 16 identifiers were taken, at every
-- moment the answer of success of an upload has an entry for each of its files, in order and with its name
-- and size, and GetSingleFile then answers the entry's identifier with what was uploaded: no upload has
-- overwritten the file of another.
pub overlapping_uploads :
    (F : FileSystem) (storage_path : Str) (distribution : ℕ → ℕ) (L : IsLawful F) (H : HasStreams F)
    (flushes : Flushes F) (server : Server F) (n : ℕ) (s : Service F storage_path distribution)
    → server.ids.idx < 2 ^ 16
    → Reach F storage_path distribution server n s
    → n ≤ 2 ^ 16
    → (k : ℕ) (ds : List FileUploadData) (rsp : Answer) → s.threads k ≡ some (ds, answered rsp)
    → rsp.success ≡ true
    → Each
        (λ info d.
          (info.file_name ≡ d.file_name)
          × (info.file_size ≡ d.file_size)
          × ((rid : Str)
              → get_single_file F storage_path rid info.file_id s.server
                ≡ done (record {
                  request_id = rid;
                  success = true;
                  errmsg = [];
                  payload = some (record { file_id = info.file_id; file_content = d.file_content });
                })))
        rsp.payload
        ds
unfolding get_single_file
overlapping_uploads F storage_path distribution L H flushes server n s small r most k ds rsp there
      good =
    let (owner, (ids, fine)) =
      Reach-AllFine F H storage_path distribution server L flushes small n s r most in
    Each-mono _ _ rsp.payload ds
      (λ info d o. (o.labelled, o.sized, λ rid. ground (arith, o.held, o.named)))
      (fine k (ds, answered rsp) there good)
