-- ===== src/EsUser/Find.antt =====
-- What `search` asks for.
use cpp_microservice_im.Base.{
  ℕ, suc, ◌<◌, ◌≡◌, ap, subst, ◌∙◌, Str, some, List, ◌∷◌, ◌++◌, arith, utf8,
}
use cpp_microservice_im.Es.{
  Json, Client, es_search, append_must_not_terms, append_should_match, query_of, terms_fields,
}
use cpp_microservice_im.Es.Laws.{IsLawful}
use cpp_microservice_im.Es.Query.{
  Matches, Lists, set_here, terms_fields-Lists, query_of_lem, match_clause, match_clause-Matches,
}
use cpp_microservice_im.EsUser.{user_search, user_key, nickname_key, phone_key}

-- The members and elements of a document, one below the other.
module _ (J : Json) where
  abbrev pub Asks : Str → Str → List Str → J.Value → Type 0
  Asks key uid uids document =
      (query : J.Value) × (cond : J.Value) × (should : J.Value) × (must_not : J.Value)
      × (by_phone : J.Value) × (by_id : J.Value) × (by_nickname : J.Value) × (clause : J.Value)
      × (fields : J.Value) × (array : J.Value) × (J.at (utf8 "query") document ≡ some query)
      × (J.at (utf8 "bool") query ≡ some cond)
      × (J.at (utf8 "should") cond ≡ some should)
      × (J.at (utf8 "must_not") cond ≡ some must_not)
      × (J.size should ≡ 3)
      × (J.elem 0 should ≡ some by_phone)
      × (J.elem 1 should ≡ some by_id)
      × (J.elem 2 should ≡ some by_nickname)
      × Matches J (utf8 "phone" ++ utf8 ".keyword") key by_phone
      × Matches J (utf8 "user_id" ++ utf8 ".keyword") key by_id
      × Matches J (utf8 "nickname") key by_nickname
      × (J.size must_not ≡ 1)
      × (J.elem 0 must_not ≡ some clause)
      × (J.at (utf8 "terms") clause ≡ some fields)
      × (J.at (utf8 "user_id" ++ utf8 ".keyword") fields ≡ some array)
      × Lists J (uid ∷ uids) array

module _ (J : Json) (C : Client) (L : IsLawful J) where
  last_at : (n : ℕ) (v x : J.Value) → J.size v ≡ n → J.elem n (J.append v x) ≡ some x
  last_at n v x e = subst (λ k. J.elem k (J.append v x) ≡ some x) e (L.elem_last v x)

  kept_at : (i n : ℕ) (v x : J.Value) → J.size v ≡ n → i < n → J.elem i (J.append v x) ≡ J.elem i v
  kept_at i n v x e h = L.elem-append i v x (omega (arith, e))

  three_should :
      (a b c : J.Value)
      → let v = J.append (J.append (J.append J.null a) b) c in
        (J.size v ≡ 3) × (J.elem 0 v ≡ some a) × (J.elem 1 v ≡ some b) × (J.elem 2 v ≡ some c)
  three_should a b c =
      let one : J.size (J.append J.null a) ≡ 1 = L.size-append J.null a ∙ ap suc L.size_null in
      let two : J.size (J.append (J.append J.null a) b) ≡ 2 =
        L.size-append (J.append J.null a) b ∙ ap suc one in
      (
        L.size-append (J.append (J.append J.null a) b) c ∙ ap suc two,
        kept_at 0 2 _ c two (omega arith)
            ∙ kept_at 0 1 _ b one (omega arith)
            ∙ last_at 0 J.null a L.size_null,
        kept_at 1 2 _ c two (omega arith) ∙ last_at 1 _ b one,
        last_at 2 _ c two,
      )

  -- With lawful JSON values, the document that is sent for a key and a list of users that is not
  -- empty says: the phone number and the identifier, as they are, and the nickname should match the
  -- key, in this order, and the identifier must be none of the list, which stands there whole and in
  -- order.
  pub user_search_lem :
      (key uid : Str) (uids : List Str)
      → Asks J key uid uids (query_of J C (user_search J C key (uid ∷ uids)))
  unfolding user_search append_must_not_terms append_should_match es_search
  user_search_lem key uid uids =
      let q = user_search J C key (uid ∷ uids) in
      let (query, cond, a, b, c, d) =
        query_of_lem J C L q (L.empty-append J.null _) (L.empty-append _ _) in
      let (array, e, whole) = terms_fields-Lists J C L (user_key ++ utf8 ".keyword") uid uids in
      let fields = terms_fields J C (user_key ++ utf8 ".keyword") (uid ∷ uids) in
      let clause = J.set (utf8 "terms") fields J.null in
      let m = match_clause J C L (phone_key ++ utf8 ".keyword") key in
      let m' = match_clause J C L (user_key ++ utf8 ".keyword") key in
      let m'' = match_clause J C L nickname_key key in
      let (sized, g, g', g'') = three_should m m' m'' in
      (
        query,
        cond,
        q.should,
        q.must_not,
        m,
        m',
        m'',
        clause,
        fields,
        array,
        a,
        b,
        d,
        c,
        sized,
        g,
        g',
        g'',
        match_clause-Matches J C L (phone_key ++ utf8 ".keyword") key,
        match_clause-Matches J C L (user_key ++ utf8 ".keyword") key,
        match_clause-Matches J C L nickname_key key,
        L.size-append J.null clause ∙ ap suc L.size_null,
        last_at 0 J.null clause L.size_null,
        set_here J C L (utf8 "terms") fields J.null,
        e,
        whole,
      )
