-- ===== src/User/Login/Race.antt =====
-- Two logins of one user at once: `UserLogin` asks redis for the mark first and sets it later, and
-- another call may run in between.
use cpp_microservice_im.Base.{
  ◌≡◌, ◌≢◌, refl, ap, ◌∙◌, Str, Bool, true, false, some, [], if◌then◌else◌, ◌==◌, arith,
  Option-cases, inl, inr,
}
use cpp_microservice_im.Base.Outcome.{done, M, pure, ◌>>=◌, ◌>>◌}
use cpp_microservice_im.Mysql.{User}
use cpp_microservice_im.Proto.{Reply, success_response}
use cpp_microservice_im.Redis.{IsLawful, get_value, status_exists, session_append, status_append}
use cpp_microservice_im.User.Env.{Env, World, on_redis, fresh_uuid}
use cpp_microservice_im.User.Login.{open_session, login_error}
use cpp_microservice_im.Uuid.{uuid}

module _ (E : Env) where
  -- The test of the mark, and what follows where there is none.
  unfoldable pub session_check : User → M (World E) Bool
  session_check user = on_redis E (status_exists E.redis user.user_id)

  unfoldable pub session_enter : Str → User → M (World E) (Reply Str)
  session_enter rid user = do
    ssid ← fresh_uuid E
    on_redis E (session_append E.redis ssid user.user_id)
    on_redis E (status_append E.redis user.user_id)
    pure (success_response rid ssid)

  -- One right after the other, they are what `UserLogin` does.
  pub session_parts :
      (rid : Str) (user : User) (w : World E)
      → open_session E rid user w
        ≡ (session_check user >>= λ ret.
              if ret then pure (login_error rid "用户已在其他地方登录! ") else session_enter rid user)
            w
  unfolding open_session session_check session_enter
  session_parts rid user w = refl

  check_lem :
      (user : User) (w : World E)
      → (session_check user w).0 ≡ done false
      → session_check user w ≡ (done false, w)
  unfolding session_check status_exists get_value
  check_lem user w h = elim (Option-cases (E.redis.get user.user_id w.redis)) [
    | inl e ↦ absurd (ground arith)
    | inr (r, e) ↦ ground arith
  ]

  module _ (L : IsLawful E.redis) where
    enter_lem :
        (rid : Str) (user : User) (w : World E) (rsp : Reply Str)
        → (session_enter rid user w).0 ≡ done rsp
        → let ssid = (uuid E.distribution w.ids).0 in
          let w' = (session_enter rid user w).1 in
          (rsp ≡ success_response rid ssid)
          × (w'.ids ≡ (uuid E.distribution w.ids).1)
          × ((k : Str)
              → L.content w'.redis k ≡ (
                  if k == user.user_id
                  then some []
                  else if k == ssid
                  then some user.user_id
                  else L.content w.redis k))
    unfolding session_enter session_append status_append
    enter_lem rid user w rsp h =
        let ssid = (uuid E.distribution w.ids).0 in
        elim (Option-cases (E.redis.set ssid user.user_id w.redis)) [
          | inl p ↦ absurd (ground arith)
          | inr (t, p) ↦ elim (Option-cases (E.redis.set user.user_id [] t)) [
            | inl q ↦ absurd (ground arith)
            | inr (u, q) ↦ (
              ground arith,
              ground arith,
              λ k. ground (
                arith,
                L.content-set k ssid user.user_id w.redis t p,
                L.content-set k user.user_id [] t u q,
              ),
            )
          ]
        ]

    -- On a lawful redis, two calls that have come to the test of the mark of one user, and that both
    -- test it before either sets it: where the first finds none, so does the second, and if redis takes
    -- what they store, both answer with success, and both of their sessions then are the user's, as
    -- long as neither session's identifier is that of the user.
    pub both_log_in :
        (rid rid' : Str) (user : User) (w : World E) (rsp rsp' : Reply Str)
        → (session_check user w).0 ≡ done false
        → let w₁ = (session_check user w).1 in
          let w₂ = (session_check user w₁).1 in
          let w₃ = (session_enter rid user w₂).1 in
          let w₄ = (session_enter rid' user w₃).1 in
          (session_enter rid user w₂).0 ≡ done rsp
          → (session_enter rid' user w₃).0 ≡ done rsp'
          → rsp.payload ≢ user.user_id
          → rsp'.payload ≢ user.user_id
          → ((session_check user w₁).0 ≡ done false)
            × (rsp.success ≡ true)
            × (rsp'.success ≡ true)
            × (L.content w₄.redis rsp.payload ≡ some user.user_id)
            × (L.content w₄.redis rsp'.payload ≡ some user.user_id)
    both_log_in rid rid' user w rsp rsp' unmarked first second apart apart' =
        let w₁ = (session_check user w).1 in
        let w₂ = (session_check user w₁).1 in
        let w₃ = (session_enter rid user w₂).1 in
        let same = ap (λ x. x.1) (check_lem user w unmarked) in
        let (e, _, kept) = enter_lem rid user w₂ rsp first in
        let (e', _, kept') = enter_lem rid' user w₃ rsp' second in
        (
          ap (λ x. (session_check user x).0) same ∙ unmarked,
          ap (λ x. x.success) e,
          ap (λ x. x.success) e',
          kept' rsp.payload ∙ ground (arith, kept rsp.payload, ap (λ x. x.payload) e),
          kept' rsp'.payload ∙ ground (arith, ap (λ x. x.payload) e'),
        )
