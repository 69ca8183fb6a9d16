-- ===== src/File/Threads/Steps.antt =====
-- A step of an upload, and the files of all of them.
use mathlib.Core.List.{append-nil, append_assoc}
use cpp_microservice_im.Base.{true, false, Bool, Option-cases}
use cpp_microservice_im.Base.{
  ℕ, ◌^◌, ◌≤◌, ◌<◌, ◌≡◌, ◌≢◌, refl, sym, ap, ◌∙◌, subst, Str, List, [], ◌∷◌, ◌++◌, arith, inl, inr,
  eqb, if◌then◌else◌,
}
use cpp_microservice_im.File.{FileSystem, FileUploadData, Server, read_file}
use cpp_microservice_im.File.Laws.{IsLawful, Flushes}
use cpp_microservice_im.File.Streams.{HasStreams, Touch, opens, writes, closes, read_file-close}
use cpp_microservice_im.File.Threads.{
  Answer, Handler, naming, writing, filling, closing, answered, message_info, taken, put_step,
}
use cpp_microservice_im.File.Threads.Names.{nth, name}
use cpp_microservice_im.File.Threads.Owned.{
  Answers, Answers-Leaves, Each-snoc, Leaves, Keeps, Keeps-refl, Touch-Keeps, Pending, Fine,
}
use cpp_microservice_im.Uuid.{Generator, uuid}

module _ (F : FileSystem) (H : HasStreams F) (storage_path : Str) (distribution : ℕ → ℕ)
    (g : Generator) where
  -- A step of thread `k` leaves it fine, and leaves the files of the others.
  abbrev pub Goes : (ℕ → ℕ) → ℕ → ℕ → List FileUploadData → Handler → Server F → Type 0
  Goes owner k n request h s =
      let (h', s') = put_step F storage_path distribution h s in
      (owner' : ℕ → ℕ) × (s'.ids ≡ nth distribution g (taken h n))
      × (n ≤ taken h n)
      × Fine F H storage_path distribution g owner' k (taken h n) s'.files request h'
      × ((j : ℕ) → j ≢ k → Leaves F H storage_path distribution g owner owner' j n s.files s'.files)

  naming-Goes :
      (owner : ℕ → ℕ) (k n : ℕ) (request ds : List FileUploadData) (rsp : Answer) (s : Server F)
      → s.ids ≡ nth distribution g n
      → Fine F H storage_path distribution g owner k n s.files request (naming ds rsp)
      → Goes owner k n request (naming ds rsp) s
  unfolding put_step nth
  naming-Goes owner k n request [] rsp s e (front, q, a) = (
    owner,
    e,
    omega arith,
    λ good.
        subst (Answers F H storage_path distribution g owner k n s.files rsp.payload)
          (sym (q ∙ append-nil front)) a,
    λ j ne i lt own. (own, Keeps-refl F H storage_path distribution g i s.files),
  )
  naming-Goes owner k n request (d ∷ ds) rsp s e (front, q, a) = (
    λ i. if eqb i n then k else owner i,
    ap (λ x. (uuid distribution x).1) e,
    omega arith,
    (
      n,
      record {
        front = front;
        whole = q;
        taken = omega arith;
        owned = ground arith;
        named = ap (λ x. (uuid distribution x).0) (sym e);
        before =
            Answers-Leaves F H storage_path distribution g owner _ k n n s.files s.files rsp.payload
              front (omega arith)
              (λ i lt own. (ground arith, Keeps-refl F H storage_path distribution g i s.files)) a;
      },
    ),
    λ j ne i lt own. (ground arith, Keeps-refl F H storage_path distribution g i s.files),
  )

  module _ (L : IsLawful F) (flushes : Flushes F) where
    module _ (owner : ℕ → ℕ) (k n : ℕ) (request : List FileUploadData) (s : Server F)
        (small : g.idx < 2 ^ 16) (most : n ≤ 2 ^ 16) (fid : Str) (d : FileUploadData)
        (ds : List FileUploadData) (rsp : Answer) (i : ℕ)
        (p : Pending F H storage_path distribution g owner k n s.files request fid d ds rsp i) where
      keeps :
          (files' : F.State)
          → Touch F (storage_path ++ fid) s.files files'
          → (j : ℕ) → j < n
          → j ≢ i
          → Keeps F H storage_path distribution g j s.files files'
      keeps files' t j lt ne =
          Touch-Keeps F H storage_path distribution g L i j s.files files' small
            (omega (arith, p.taken)) (omega arith) ne
            (subst (λ x. Touch F (storage_path ++ x) s.files files') (sym p.named) t)

      -- An operation on the thread's stream leaves the files of the others,
      others :
          (files' : F.State)
          → Touch F (storage_path ++ fid) s.files files'
          → (j : ℕ) → j ≢ k
          → Leaves F H storage_path distribution g owner owner j n s.files files'
      others files' t j ne i' lt own =
          (own, keeps files' t i' lt (λ same. ne (sym own ∙ ap owner same ∙ p.owned)))

      -- and those that it has written before.
      still :
          (files' : F.State)
          → Touch F (storage_path ++ fid) s.files files'
          → Pending F H storage_path distribution g owner k n files' request fid d ds rsp i
      still files' t = record {
        front = p.front;
        whole = p.whole;
        taken = p.taken;
        owned = p.owned;
        named = p.named;
        before =
            Answers-Leaves F H storage_path distribution g owner owner k i i s.files files'
              rsp.payload p.front (omega arith)
              (λ j lt own. (own, keeps files' t j (omega (arith, p.taken)) (omega arith))) p.before;
      }

      writing-Goes : s.ids ≡ nth distribution g n → Goes owner k n request (writing fid d ds rsp) s
      unfolding put_step
      writing-Goes e = elim (Option-cases (F.open_out (storage_path ++ fid) s.files)) [
        | inl shut ↦
            rw (shut, put_step)
              (
                owner,
                e,
                omega arith,
                (λ good. cc),
                λ j ne i lt own. (own, Keeps-refl F H storage_path distribution g i s.files),
              )
        | inr (files', opened) ↦
            rw (opened, put_step)
              (
                owner,
                e,
                omega arith,
                (
                  i,
                  still files' (opens files' opened),
                  subst (λ x. H.Open (storage_path ++ x) files') (sym p.named)
                      (H.opened _ s.files files' opened),
                ),
                others files' (opens files' opened),
              )
      ]

      filling-Goes :
          s.ids ≡ nth distribution g n
          → H.Open (storage_path ++ name distribution g i) s.files
          → Goes owner k n request (filling fid d ds rsp) s
      unfolding put_step
      filling-Goes e fresh =
          let files' = (F.write (storage_path ++ fid) d.file_content s.files).1 in
          (
            owner,
            e,
            omega arith,
            (
              i,
              still files' (writes d.file_content),
              λ good.
                  subst (λ x. H.Filled (storage_path ++ x) d.file_content files') (sym p.named)
                    (H.filled _ d.file_content s.files
                      (subst (λ x. H.Open (storage_path ++ x) s.files) p.named fresh) good),
            ),
            others files' (writes d.file_content),
          )

      closing-Goes :
          (good : Bool)
          → s.ids ≡ nth distribution g n
          → (good ≡ true → H.Filled (storage_path ++ name distribution g i) d.file_content s.files)
          → Goes owner k n request (closing fid d ds rsp good) s
      unfolding put_step
      closing-Goes false e full =
          let files' = (F.close (storage_path ++ fid) s.files).1 in
          (owner, e, omega arith, (λ good. cc), others files' closes)
      closing-Goes true e full =
          let files' = (F.close (storage_path ++ fid) s.files).1 in
          let there = still files' closes in
          (
            owner,
            e,
            omega arith,
            (
              there.front ++ (d ∷ []),
              there.whole ∙ sym (append_assoc there.front (d ∷ []) ds),
              Each-snoc _ rsp.payload there.front (message_info fid d) d
                  (Answers-Leaves F H storage_path distribution g owner owner k i n files' files'
                    rsp.payload there.front (omega (arith, there.taken))
                    (λ j lt own. (own, Keeps-refl F H storage_path distribution g j files'))
                    there.before)
                  (record {
                    by = i;
                    below = there.taken;
                    owned = there.owned;
                    named = there.named;
                    labelled = refl;
                    sized = refl;
                    held =
                        ap (λ x. read_file F (storage_path ++ x) files') there.named
                        ∙ read_file-close F H _ d.file_content s.files
                            (subst (λ x. H.Filled (storage_path ++ x) d.file_content s.files)
                              there.named (full refl))
                            (flushes _ s.files);
                  }),
            ),
            others files' closes,
          )

    pub put_step-Goes :
        (owner : ℕ → ℕ) (k n : ℕ) (request : List FileUploadData) (h : Handler) (s : Server F)
        → g.idx < 2 ^ 16
        → n ≤ 2 ^ 16
        → s.ids ≡ nth distribution g n
        → Fine F H storage_path distribution g owner k n s.files request h
        → Goes owner k n request h s
    unfolding put_step
    put_step-Goes owner k n request (naming ds rsp) s small most e f =
        naming-Goes owner k n request ds rsp s e f
    put_step-Goes owner k n request (writing fid d ds rsp) s small most e (i, p) =
        writing-Goes owner k n request s small most fid d ds rsp i p e
    put_step-Goes owner k n request (filling fid d ds rsp) s small most e (i, p, fresh) =
        filling-Goes owner k n request s small most fid d ds rsp i p e fresh
    put_step-Goes owner k n request (closing fid d ds rsp good) s small most e (i, p, full) =
        closing-Goes owner k n request s small most fid d ds rsp i p good e full
    put_step-Goes owner k n request (answered rsp) s small most e f = (
      owner,
      e,
      omega arith,
      f,
      λ j ne i lt own. (own, Keeps-refl F H storage_path distribution g i s.files),
    )
