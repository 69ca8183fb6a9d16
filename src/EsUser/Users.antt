-- ===== src/EsUser/Users.antt =====
-- What `search` makes of the answer.
use cpp_microservice_im.Base.{
  ℕ, zero, suc, ◌+◌, ◌≤◌, ◌<◌, ◌≡◌, ◌≢◌, refl, sym, ap, ◌∙◌, Str, true, false, none, some, List, [],
  ◌∷◌, length, get_elem?, arith, utf8, if◌then◌else◌, Option-cases, Bool-cases, inl, inr,
}
use cpp_microservice_im.Base.Outcome.{Outcome, done, crash}
use cpp_microservice_im.Es.{
  Json, Client, Search, es_search, append_must_not_terms, append_should_match, query_of, search,
  hits, is_bad,
}
use cpp_microservice_im.Es.Laws.{IsLawful}
use cpp_microservice_im.EsUser.{
  user_search, search_users, or_throw, hit_users, hit_user, source_field,
}
use cpp_microservice_im.Mysql.{User}

module _ (J : Json) (C : Client) where
  -- The user has the texts of a hit, and no password.
  abbrev pub Describes : J.Value → ℕ → User → Type 0
  Describes found i user =
      (source_field J C found i (utf8 "user_id") ≡ some user.user_id)
      × (source_field J C found i (utf8 "nickname") ≡ user.nickname)
      × (source_field J C found i (utf8 "phone") ≡ user.phone)
      × (source_field J C found i (utf8 "description") ≡ user.description)
      × (source_field J C found i (utf8 "avatar_id") ≡ user.avatar_id)
      × (user.password ≡ none)

  -- An array that `search` returns was in the answer to the document.
  abbrev Answers : Search J C → C.State → J.Value → Type 0
  Answers q s found =
      (body : Str) × (status : ℕ) × (text : Str) × (J.write (query_of J C q) ≡ some body)
      × ((C.search q.name q.type body s).0 ≡ some (status, text))
      × (is_bad status ≡ false)
      × (hits J C (J.parse text).1 ≡ done found)

module _ (J : Json) (C : Client) (L : IsLawful J) where
  hit_user-Describes :
      (found : J.Value) (i : ℕ) (user : User)
      → hit_user J C found i ≡ some user
      → Describes J C found i user
  unfolding hit_user
  hit_user-Describes found i user h = ground arith

  each_hit :
      (found : J.Value) (i : ℕ) (first : User) (rest : List User)
      → hit_user J C found i ≡ some first
      → ((k : ℕ) (user : User)
          → get_elem? rest k ≡ some user
          → hit_user J C found (suc i + k) ≡ some user)
      → (k : ℕ) (user : User) → get_elem? (first ∷ rest) k ≡ some user
      → hit_user J C found (i + k) ≡ some user
  each_hit found i first rest e each zero user g =
      let here : i + 0 ≡ i = omega arith in ap (hit_user J C found) here ∙ e ∙ g
  each_hit found i first rest e each (suc k) user g =
      let later : i + suc k ≡ suc i + k = omega arith in
      ap (hit_user J C found) later ∙ each k user g

  hit_users_lem :
      (found : J.Value) (left i : ℕ) (users : List User)
      → hit_users J C found left i ≡ some users
      → (length users ≡ left)
        × ((k : ℕ) (user : User)
            → get_elem? users k ≡ some user
            → hit_user J C found (i + k) ≡ some user)
  unfolding hit_users
  hit_users_lem found zero i users h = (ground arith, λ k user g. absurd (ground arith))
  hit_users_lem found (suc left) i users h = elim (Option-cases (hit_user J C found i)) [
    | inl e ↦ absurd (ground arith)
    | inr (first, e) ↦ elim (Option-cases (hit_users J C found left (suc i))) [
      | inl f ↦ absurd (ground arith)
      | inr (rest, f) ↦
          let whole : first ∷ rest ≡ users = ground arith in
          let (sized, each) = hit_users_lem found left (suc i) rest f in
          (
            sym (ap length whole) ∙ ap suc sized,
            λ k user g.
                each_hit found i first rest e each k user (ap (λ l. get_elem? l k) whole ∙ g),
          )
    ]
  ]

  -- What `search` makes of the value it gets, where there are users in it.
  made_of :
      (v : J.Value) (users : List User)
      → (if J.is_array v then or_throw J C (hit_users J C v (J.size v) 0) else done []) ≡ done users
      → users ≢ []
      → (J.is_array v ≡ true) × (hit_users J C v (J.size v) 0 ≡ some users)
  made_of v users h n = elim (Bool-cases (J.is_array v)) [
    | inl e ↦ elim (Option-cases (hit_users J C v (J.size v) 0)) [
      | inl f ↦ absurd (ground arith)
      | inr (us, f) ↦ (e, ground arith)
    ]
    | inr e ↦ absurd (n (ground arith))
  ]

  search-Answers :
      (q : Search J C) (s : C.State) (found : J.Value)
      → (search J C q s).0 ≡ done found
      → J.is_array found ≡ true
      → Answers J C q s found
  unfolding search
  search-Answers q s found h a = elim (Option-cases (J.write (query_of J C q))) [
    | inl e ↦ absurd (ground (arith, L.null_array))
    | inr (body, e) ↦ elim (Option-cases (C.search q.name q.type body s).0) [
      | inl f ↦ absurd (ground (arith, L.bool_array false))
      | inr ((status, text), f) ↦ elim (Bool-cases (is_bad status)) [
        | inl g ↦ absurd (ground (arith, L.null_array))
        | inr g ↦ (body, status, text, e, f, g, ground arith)
      ]
    ]
  ]

  found_by :
      (r : Outcome J.Value) (t : C.State) (users : List User)
      → (elim r as (λ _. Outcome (List User) × C.State) [
        | crash e ↦ (crash e, t)
        | done v ↦
            ((if J.is_array v then or_throw J C (hit_users J C v (J.size v) 0) else done []), t)
      ]).0
        ≡ done users
      → (v : J.Value) × (r ≡ done v)
        × ((if J.is_array v then or_throw J C (hit_users J C v (J.size v) 0) else done [])
            ≡ done users)
  found_by (crash e) t users h = absurd (ground arith)
  found_by (done v) t users h = (v, refl, h)

  -- With lawful JSON values, where a search answers with users, and with at least one, the document
  -- was written and sent, the engine's status was a 2xx and its answer had hits, and there is a user
  -- for each hit, in order, with the texts of the hit and without a password.
  pub search_users_success :
      (key : Str) (uid_list : List Str) (s : C.State) (users : List User)
      → (search_users J C key uid_list s).0 ≡ done users
      → users ≢ []
      → (body : Str) × (status : ℕ) × (text : Str) × (found : J.Value) × (J.write
            (query_of J C (user_search J C key uid_list))
          ≡ some body)
        × ((C.search (utf8 "user") (utf8 "_doc") body s).0 ≡ some (status, text))
        × (200 ≤ status)
        × (status < 300)
        × (hits J C (J.parse text).1 ≡ done found)
        × (J.is_array found ≡ true)
        × (length users ≡ J.size found)
        × ((i : ℕ) (user : User) → get_elem? users i ≡ some user → Describes J C found i user)
  unfolding search_users user_search append_must_not_terms append_should_match es_search
  search_users_success key uid_list s users h n =
      let q = user_search J C key uid_list in
      let (found, r, made) = found_by (search J C q s).0 (search J C q s).1 users h in
      let (is_arr, rounds) = made_of found users made n in
      let (body, status, text, e, f, g, k) = search-Answers q s found r is_arr in
      let (sized, each) = hit_users_lem found (J.size found) 0 users rounds in
      (
        body,
        status,
        text,
        found,
        e,
        f,
        ground arith,
        ground arith,
        k,
        is_arr,
        sized,
        λ i user there.
            let here : i ≡ 0 + i = omega arith in
            hit_user-Describes found i user (ap (hit_user J C found) here ∙ each i user there),
      )
