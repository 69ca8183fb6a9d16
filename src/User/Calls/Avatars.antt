-- ===== src/User/Calls/Avatars.antt =====
-- An avatar that was set, while other calls go on: the process of the user service with the file
-- service behind its stub.
use cpp_microservice_im.Base.{
  ℕ, suc, ◌+◌, ◌^◌, ◌≤◌, ◌<◌, ◌≡◌, refl, sym, ap, subst, ◌∙◌, Str, Bool, true, Option, some, List,
  [], ◌∷◌, All, arith, ◌++◌, Bool-cases, inl, inr,
}
use mathlib.Core.Option.{some-injective, none-ne-some}
use cpp_microservice_im.Base.Outcome.{done}
use cpp_microservice_im.File.{
  FileSystem, FileUploadData, FileDownloadData, FileMessageInfo, Server, read_file, write_file,
  get_single_file, put_single_file,
}
use cpp_microservice_im.File.Calls
use cpp_microservice_im.File.Calls.{Entry, put_single, learned}
use cpp_microservice_im.File.History.{serve-Kept}
use cpp_microservice_im.File.Kept.{Kept, Kept-mono}
use cpp_microservice_im.File.Laws.{Flushes, IsLawful}
use cpp_microservice_im.User.Calls.Closed.{Closed}
use cpp_microservice_im.User.Calls.Process.{Thread, Process, Reach, Reach-Closed, steps}
use cpp_microservice_im.User.Env.{Env, World}
use cpp_microservice_im.User.Flows.{with_files, received}
use cpp_microservice_im.Mysql.{User, select_by_id}
use cpp_microservice_im.Mysql.Laws.{IsLawful as IsLawfulDatabase}
use cpp_microservice_im.Proto.{Reply}
use cpp_microservice_im.User.Profile.{
  UserInfo, info_of, payload_of, content_of, file_id_of, get_user_info, set_user_avatar,
}
use cpp_microservice_im.User.Profile.Avatar.{
  same_user, avatar_file, set_user_avatar_success, set_user_avatar_files,
}
use cpp_microservice_im.User.Profile.Info.{get_user_info_success}
use cpp_microservice_im.User.Register.{Answer}
use cpp_microservice_im.Uuid.{uuid}

module _ (F : FileSystem) (L : IsLawful F) (flushes : Flushes F) (storage_path : Str)
    (distribution : ℕ → ℕ) (E₀ : Env) (R : Str → Type 0) where
  abbrev pub E : Env
  E = with_files F storage_path distribution E₀

  -- The entry is kept, as long as the identifiers have not gone round.
  abbrev pub Stays : Entry → ℕ → World E → Type 0
  Stays e n w = suc n ≤ 2 ^ 16 → Kept F storage_path distribution (suc n) w.files e

  Kept-still :
      (e : Entry) (n : ℕ) (s : Server F)
      → (suc n ≤ 2 ^ 16 → Kept F storage_path distribution (suc n) s e)
      → suc (suc n) ≤ 2 ^ 16
      → Kept F storage_path distribution (suc (suc n)) s e
  Kept-still e n s h b =
      Kept-mono F storage_path distribution (suc n) (suc (suc n)) s e (omega arith)
        (h (omega arith))

  uploaded_still :
      (e : Entry) (n : ℕ) (s : Server F) (rid : Str) (d : FileUploadData)
      → (suc n ≤ 2 ^ 16 → Kept F storage_path distribution (suc n) s e)
      → suc (suc n) ≤ 2 ^ 16
      → Kept F storage_path distribution
          (suc (suc n))
          (put_single_file F storage_path distribution rid d s).1
          e
  unfolding Calls.serve
  uploaded_still e n s rid d h b =
      let k = h (omega arith) in
      let (_, stay, _) =
        serve-Kept F storage_path distribution L flushes (put_single rid d) (suc n) s (omega arith)
          (omega (arith, k.counted)) in
      Kept-mono F storage_path distribution (suc n + 1) (suc (suc n)) _ e (omega arith) (stay e k)

  Stays-Closed : (e : Entry) → Closed E R (Stays e)
  Stays-Closed e = record {
    mono = λ n w h. Kept-still e n w.files h;
    mysql = λ n w s h. Kept-still e n w.files h;
    es = λ n w s h. Kept-still e n w.files h;
    sms = λ n w s h. Kept-still e n w.files h;
    download = λ n w c rid fid h. Kept-still e n w.files h;
    downloads = λ n w c rid fids h. Kept-still e n w.files h;
    upload = λ n w c rid d h. uploaded_still e n w.files rid d h;
    ids = λ n w h. Kept-still e n w.files h;
    choose = λ n w h. Kept-still e n w.files h;
    set = λ n w k v t e' h. Kept-still e n w.files h;
    set_for = λ n w k v ms t e' h. Kept-still e n w.files h;
    del = λ n w k t r e' h. Kept-still e n w.files h;
  }

  learned_one :
      (rid : Str) (d : FileUploadData) (s : Server F) (info : Option FileMessageInfo)
      → payload_of (some (put_single_file F storage_path distribution rid d s).0) ≡ some info
      → learned F storage_path distribution (put_single rid d) s
        ≡ (file_id_of info, d.file_content) ∷ []
  unfolding learned put_single_file
  learned_one rid d s info h =
      elim (Bool-cases
        (write_file F (storage_path ++ (uuid distribution s.ids).0) d.file_content s.files).0) [
          | inl good ↦ ground arith
          | inr bad ↦ absurd (ground arith)
        ]

  -- A successful upload is kept, under the name that the answer gave.
  upload-Kept :
      (rid : Str) (d : FileUploadData) (s : Server F) (info : Option FileMessageInfo)
      → s.ids.idx < 2 ^ 16
      → payload_of (some (put_single_file F storage_path distribution rid d s).0) ≡ some info
      → Kept F storage_path distribution 1
          (put_single_file F storage_path distribution rid d s).1
          (file_id_of info, d.file_content)
  unfolding Calls.serve
  upload-Kept rid d s info g h =
      let (_, _, fresh) =
        serve-Kept F storage_path distribution L flushes (put_single rid d) 0 s (omega arith) g in
      let here =
        subst
          (All (
            Kept F storage_path distribution (0 + 1)
              (put_single_file F storage_path distribution rid d s).1))
          (learned_one rid d s info h) fresh in
      Kept-mono F storage_path distribution (0 + 1) 1 _ _ (omega arith) here.0

  -- What a download answers for a file that holds this content.
  download_held :
      (rid fid body : Str) (s : Server F) (file_data : Option FileDownloadData)
      → read_file F (storage_path ++ fid) s.files ≡ done (some body)
      → payload_of (received (get_single_file F storage_path rid fid s)) ≡ some file_data
      → content_of file_data ≡ body
  unfolding get_single_file
  download_held rid fid body s file_data held h = ground arith

  module _ (D : IsLawfulDatabase E₀.mysql) (failed : ℕ → Str → Bool) where
    -- On a lawful database, and where every node of the file service serves one directory of a lawful
    -- file system, whose files are flushed when they are closed, with one counter: after a successful
    -- change of the avatar, over at most 2 ^ 16 - 1 steps in which the threads of any calls, uploads
    -- of other avatars among them, and the watcher interleave: a successful answer about that user
    -- has that avatar, as long as the user's row has the file identifier that it had then.
    pub avatar_stays :
        (rid rid' uid avatar : Str) (w : World E) (rsp : Answer) (rsp' : Reply (Option UserInfo))
        (then_user now_user : User) (ts : List (Thread E R)) (p : Process E R)
        → w.files.ids.idx < 2 ^ 16
        → (set_user_avatar E rid uid avatar w).0 ≡ done rsp
        → rsp.success ≡ true
        → (run : Reach E failed R (set_user_avatar E rid uid avatar w).1 ts p)
        → steps E failed R run < 2 ^ 16
        → (select_by_id E.mysql uid (set_user_avatar E rid uid avatar w).1.mysql).0 ≡ some then_user
        → (select_by_id E.mysql uid p.world.mysql).0 ≡ some now_user
        → now_user.avatar_id ≡ then_user.avatar_id
        → (get_user_info E rid' uid p.world).0 ≡ done rsp'
        → rsp'.success ≡ true
        → rsp'.payload ≡ some (record (info_of now_user) { avatar = avatar })
    avatar_stays rid rid' uid avatar w rsp rsp' then_user now_user ts p g h good run few before now
          kept h' good' =
        let (user, c, sent, found, chosen, put, saved) =
          set_user_avatar_success E rid uid avatar w rsp h good in
        let (user', found', known) = get_user_info_success E rid' uid p.world rsp' h' good' in
        let stored_files = set_user_avatar_files E rid uid avatar w user c sent found chosen put in
        let same =
          same_user E₀.mysql D uid user (record user { avatar_id = some (file_id_of sent) })
            then_user (select_by_id E.mysql uid w.mysql).1 w.mysql _ refl found saved.updated
            before in
        let entry : Entry = (file_id_of sent, avatar) in
        let first =
          subst (λ t. Kept F storage_path distribution 1 t entry) (sym stored_files)
            (upload-Kept rid (avatar_file avatar) w.files sent g put) in
        let last =
          Reach-Closed E failed R (Stays entry) (Stays-Closed entry)
            (λ n v m k. Kept-still entry n v.files k) _ ts p run (λ b. first) (omega arith) in
        let named : now_user.avatar_id ≡ some (file_id_of sent) =
          kept ∙ ap (λ u. u.avatar_id) same.0 in
        let user_now : user' ≡ now_user = some-injective user' now_user (sym found' ∙ now) in
        elim known [
          | inl (missing, _) ↦
              absurd (none-ne-some _ (sym missing ∙ ap (λ u. u.avatar_id) user_now ∙ named))
          | inr (avatar_id, c', file_data, set, _, answered, payload) ↦
              let id : avatar_id ≡ file_id_of sent =
                some-injective _ _ (sym set ∙ ap (λ u. u.avatar_id) user_now ∙ named) in
              let content =
                download_held rid' avatar_id avatar p.world.files file_data
                  (ap (λ k. read_file F (storage_path ++ k) p.world.files.files) id ∙ last.held)
                  answered in
              payload
              ∙ ap (λ u. some (record (info_of u) { avatar = content_of file_data })) user_now
              ∙ ap (λ x. some (record (info_of now_user) { avatar = x })) content
        ]
