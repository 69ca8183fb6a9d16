-- ===== src/User/Calls/Channels.antt =====
-- The channels that the calls use while the watcher's thread works on them.
use cpp_microservice_im.Base.{
  ℕ, ◌^◌, ◌<◌, ◌≡◌, ◌≢◌, Str, Bool, true, false, none, some, List, [], contains, length, arith,
}
use cpp_microservice_im.Base.Outcome.{done}
use cpp_microservice_im.Channel.{Channel, ServiceManager, obtain}
use cpp_microservice_im.Channel.Rotation.{hosts_of}
use cpp_microservice_im.Etcd.Refine.{live_after, Fresh, Follows}
use cpp_microservice_im.Etcd.Threads
use cpp_microservice_im.Etcd.Threads.{System}
use cpp_microservice_im.Etcd.Threads.Live.{choose_service_live}
use cpp_microservice_im.Mysql.{User, select_by_id}
use cpp_microservice_im.Proto.{err_response, success_response}
use cpp_microservice_im.User.Calls.Closed.{Closed, advance-Closed}
use cpp_microservice_im.User.Calls.Process.{
  Process, Step, Thread, arrive, proceed, begin, commit, Reach, start, later,
}
use cpp_microservice_im.User.Env.{Env, World}
use cpp_microservice_im.User.Profile.{get_user_info, info_of, payload_of, content_of}

module _ (E : Env) (failed : ℕ → Str → Bool) (R : Str → Type 0) where
  -- What the threads of Etcd/Threads see of the process.
  abbrev pub seen : Process E R → System
  seen p = record { manager = p.world.mm_channels; handled = p.handled; current = p.current }

  -- An operation of a call is a call of `choose` there, or nothing.
  chosen-Closed :
      (m : ServiceManager) (p : Process E R)
      → Closed E R (λ n w. Threads.Reach failed m (seen (record p { world = w })))
  chosen-Closed m p = record {
    mono = λ n w r. r;
    mysql = λ n w s r. r;
    es = λ n w s r. r;
    sms = λ n w s r. r;
    download = λ n w c rid fid r. r;
    downloads = λ n w c rid fids r. r;
    upload = λ n w c rid d r. r;
    ids = λ n w r. r;
    choose = λ n w r. Threads.later r (Threads.call E.file_service_name);
    set = λ n w k v t e r. r;
    set_for = λ n w k v ms t e r. r;
    del = λ n w k t x e r. r;
  }

  -- Every run of the process is a run of the threads.
  Reach-seen :
      (w : World E) (ts : List (Thread E R)) (p : Process E R)
      → Reach E failed R w ts p
      → Threads.Reach failed w.mm_channels (seen p)
  Reach-seen w ts _ start = Threads.start
  Reach-seen w ts _ (later {s} {t} r st) = stepped s t st (Reach-seen w ts s r)
    where
      stepped :
          (p q : Process E R)
          → Step E failed R p q
          → Threads.Reach failed w.mm_channels (seen p)
          → Threads.Reach failed w.mm_channels (seen q)
      stepped p _ (arrive c x r) h = h
      stepped p _ (proceed before after A m x e) h =
          advance-Closed E R _ (chosen-Closed w.mm_channels p) x 0 p.world h
      stepped p _ (begin ev e) h = Threads.later h (Threads.begin ev e)
      stepped p _ (commit ev t e) h = Threads.later h (Threads.commit ev t e)

  -- However the threads of the calls and the watcher interleave, with every channel set up
  -- and no put of a host that is up: while the file service, which is followed, has live nodes, fewer
  -- than 2 ^ 31, GetUserInfo of a user with an avatar asks a live node for that file, and answers with
  -- the user and the content that it gets, or with the failure of that call and the user.
  pub get_user_info_live :
      (up : (a : ℕ) (h : Str) → failed a h ≡ false) (w : World E) (ts : List (Thread E R))
      (p : Process E R) (rid uid avatar_id : Str) (user : User)
      → Reach E failed R w ts p
      → Follows E.file_service_name w.mm_channels
      → Fresh E.file_service_name p.handled (hosts_of (obtain E.file_service_name w.mm_channels))
      → let live =
          live_after E.file_service_name p.handled
            (hosts_of (obtain E.file_service_name w.mm_channels)) in
        live ≢ []
        → length live < 2 ^ 31
        → (select_by_id E.mysql uid p.world.mysql).0 ≡ some user
        → user.avatar_id ≡ some avatar_id
        → (c : Channel) × (contains c.host live ≡ true)
          × let (answer, files) = E.file.get_single_file c rid avatar_id p.world.files in
            ((get_user_info E rid uid p.world).1.files ≡ files)
            × ((get_user_info E rid uid p.world).0
                ≡ done (elim (payload_of answer) [
                  | none ↦ err_response rid "文件子服务调用失败!" (some (info_of user))
                  | some file_data ↦
                      success_response rid
                        (some (record (info_of user) { avatar = content_of file_data }))
                ]))
  unfolding get_user_info
  get_user_info_live up w ts p rid uid avatar_id user r f fresh n small found pictured =
      let (c, chosen, there) =
        choose_service_live failed up E.file_service_name w.mm_channels f (seen p)
          (Reach-seen w ts p r) fresh n small in
      (c, there, (ground arith, ground arith))
