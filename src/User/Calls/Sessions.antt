-- ===== src/User/Calls/Sessions.antt =====
-- The login mark over the calls that follow.
use mathlib.Core.Option.{some-injective}
use cpp_microservice_im.Base.{
  ℕ, ◌≡◌, ◌≢◌, sym, ap, ◌∙◌, Str, if◌then◌else◌, Bool, true, false, Option, List, none, some, [],
  ◌==◌, arith, Bool-cases, Option-cases, inl, inr,
}
use cpp_microservice_im.Base.Outcome.{done}
use cpp_microservice_im.Mysql.{User, select_by_nickname}
use cpp_microservice_im.Proto.{Reply}
use cpp_microservice_im.Redis.{IsLawful, status_exists, get_value}
use cpp_microservice_im.User.Calls.Closed.{Closed}
use cpp_microservice_im.User.Calls.Process.{Thread, Process, Reach, Reach-Closed}
use cpp_microservice_im.User.Env.{Env, World}
use cpp_microservice_im.User.Login.{UserLoginReq, user_login}
use cpp_microservice_im.User.Login.Race.{session_check}
use cpp_microservice_im.User.Login.Exclusive.{user_login_success}

module _ (E : Env) (L : IsLawful E.redis) where
  -- redis has something under the key.
  abbrev Marked : Str → World E → Type 0
  Marked uid w = L.content w.redis uid ≢ none

  set_keeps :
      (uid k v : Str) (o : Option Str) (o' : Option Str)
      → o' ≡ (if uid == k then some v else o)
      → o ≢ none
      → o' ≢ none
  set_keeps uid k v o o' e h h' = ground arith

  del_keeps :
      (uid k : Str) (o o' : Option Str)
      → o' ≡ (if uid == k then none else o)
      → k ≢ uid
      → o ≢ none
      → o' ≢ none
  del_keeps uid k o o' e n h h' = ground arith

  Marked-Closed : (uid : Str) → Closed E (λ k. k ≢ uid) (λ n. Marked uid)
  Marked-Closed uid = record {
    mono = λ n w h. h;
    mysql = λ n w s h. h;
    es = λ n w s h. h;
    sms = λ n w s h. h;
    download = λ n w c rid fid h. h;
    downloads = λ n w c rid fids h. h;
    upload = λ n w c rid d h. h;
    ids = λ n w h. h;
    choose = λ n w h. h;
    set = λ n w k v t e h. set_keeps uid k v _ _ (L.content-set uid k v w.redis t e) h;
    set_for =
        λ n w k v ms t e h. set_keeps uid k v _ _ (L.content-set_for uid k v ms w.redis t e) h;
    del = λ n w k t x e h. del_keeps uid k _ _ (L.content-del uid k w.redis t e) x h;
  }

  -- The test of the mark finds none only where there is none.
  unmarked :
      (user : User) (w : World E)
      → (session_check E user w).0 ≡ done false
      → L.content w.redis user.user_id ≡ none
  unfolding session_check status_exists get_value
  unmarked user w h = elim (Option-cases (E.redis.get user.user_id w.redis)) [
    | inl e ↦ absurd (ground arith)
    | inr (r, e) ↦ ground (arith, L.get-content user.user_id w.redis r e)
  ]

  login_marks :
      (request : UserLoginReq) (w : World E) (user : User) (rsp : Reply Str)
      → (user_login E request w).0 ≡ done rsp
      → rsp.success ≡ true
      → (select_by_nickname E.mysql request.nickname w.mysql).0 ≡ some user
      → Marked user.user_id (user_login E request w).1
  login_marks request w user rsp h good found e =
      let (x, fx, _, _, _, marked) = user_login_success E L request w rsp h good in
      let same : user ≡ x = some-injective user x (sym found ∙ fx) in
      let full : L.content (user_login E request w).1.redis user.user_id ≡ some [] =
        rw same marked in
      absurd (ground (arith, e, full))

  -- On a lawful redis, once a user has logged in, no later login that finds a user of the same
  -- identifier answers with success, and no test of the mark that a login of such a user makes finds it
  -- missing: whatever calls are under way then, however their threads, those of later calls and the
  -- watcher interleave, as long as no `PhoneLogin` among them has the user's identifier for that of its
  -- code, so that none of them removes it from redis.
  pub one_login :
      (failed : ℕ → Str → Bool) (first second : UserLoginReq) (w : World E) (user user' : User)
      (rsp rsp' : Reply Str)
      → (user_login E first w).0 ≡ done rsp
      → rsp.success ≡ true
      → (select_by_nickname E.mysql first.nickname w.mysql).0 ≡ some user
      → (ts : List (Thread E (λ k. k ≢ user.user_id))) (p : Process E (λ k. k ≢ user.user_id))
      → Reach E failed (λ k. k ≢ user.user_id) (user_login E first w).1 ts p
      → (select_by_nickname E.mysql second.nickname p.world.mysql).0 ≡ some user'
      → user'.user_id ≡ user.user_id
      → (user_login E second p.world).0 ≡ done rsp'
      → ((session_check E user' p.world).0 ≢ done false) × (rsp'.success ≡ false)
  one_login failed first second w user user' rsp rsp' h good found ts p run again same h' =
      let kept =
        Reach-Closed E failed (λ k. k ≢ user.user_id) (λ n. Marked user.user_id)
          (Marked-Closed user.user_id) (λ n w m k. k) _ ts p run
          (login_marks first w user rsp h good found) in
      (
        λ free. kept (ap (L.content p.world.redis) (sym same) ∙ unmarked user' p.world free),
        elim (Bool-cases rsp'.success) [
          | inr bad ↦ bad
          | inl good' ↦
              let (y, fy, _, free, _, _) = user_login_success E L second p.world rsp' h' good' in
              let uy : user' ≡ y = some-injective user' y (sym again ∙ fy) in
              absurd
                (kept (ap (L.content p.world.redis) (sym same ∙ ap (λ u. u.user_id) uy) ∙ free))
        ],
      )
