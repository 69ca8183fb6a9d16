-- ===== src/Es/Query.antt =====
-- What a query asks for.
use cpp_microservice_im.Base.{
  ℕ, zero, suc, ◌+◌, ◌<◌, ◌≡◌, refl, ap, ◌∙◌, Str, false, some, List, [], ◌∷◌, length, get_elem?,
  arith, utf8, ◌==◌, Str-discrete, ℕ_discrete,
}
use cpp_microservice_im.Es.{Json, Client, Search, collect_terms, terms_fields, query_of}
use cpp_microservice_im.Es.Laws.{IsLawful}

module _ (J : Json) where
  -- A clause that a text should match a field.
  abbrev pub Matches : Str → Str → J.Value → Type 0
  Matches key val m =
      (field : J.Value) × (J.at (utf8 "match") m ≡ some field)
      × (J.at key field ≡ some (J.string val))

  -- An array of texts.
  pub record Lists (vals : List Str) (array : J.Value) : Type 0 where
    pub sized : J.size array ≡ length vals
    pub listed :
        (i : ℕ) (val : Str) → get_elem? vals i ≡ some val → J.elem i array ≡ some (J.string val)

module _ (J : Json) (C : Client) (L : IsLawful J) where
  pub set_here : (k : Str) (x v : J.Value) → J.at k (J.set k x v) ≡ some x
  set_here k x v = ground (arith, L.at-set k k x v)

  pub set_there : (j k : Str) (x v : J.Value) → (j == k) ≡ false → J.at j (J.set k x v) ≡ J.at j v
  set_there j k x v n = ground (arith, L.at-set j k x v)

  collect_size :
      (key : Str) (vals : List Str) (array : J.Value)
      → J.size (collect_terms J C key vals array) ≡ J.size array + length vals
  unfolding collect_terms
  collect_size key [] array = omega arith
  collect_size key (val ∷ vals) array = omega (
    arith,
    collect_size key vals (J.append array (J.string val)),
    L.size-append array (J.string val),
  )

  -- What was there stays.
  collect_kept :
      (key : Str) (vals : List Str) (array : J.Value) (i : ℕ)
      → i < J.size array
      → J.elem i (collect_terms J C key vals array) ≡ J.elem i array
  unfolding collect_terms
  collect_kept key [] array i h = refl
  collect_kept key (val ∷ vals) array i h =
      collect_kept key vals (J.append array (J.string val)) i
        (omega (arith, L.size-append array (J.string val)))
      ∙ L.elem-append i array (J.string val) h

  collect_listed :
      (key : Str) (vals : List Str) (array : J.Value) (i : ℕ) (val : Str)
      → get_elem? vals i ≡ some val
      → J.elem (J.size array + i) (collect_terms J C key vals array) ≡ some (J.string val)
  unfolding collect_terms
  collect_listed key [] array i val e = absurd (ground arith)
  collect_listed key (x ∷ vals) array zero val e =
      let here : J.size array + 0 ≡ J.size array = omega arith in
      ap (λ n. J.elem n (collect_terms J C key (x ∷ vals) array)) here
      ∙ collect_kept key vals (J.append array (J.string x)) (J.size array)
          (omega (arith, L.size-append array (J.string x)))
      ∙ L.elem_last array (J.string x)
      ∙ ground arith
  collect_listed key (x ∷ vals) array (suc i) val e =
      let later : J.size array + suc i ≡ J.size (J.append array (J.string x)) + i =
        omega (arith, L.size-append array (J.string x)) in
      ap (λ n. J.elem n (collect_terms J C key (x ∷ vals) array)) later
      ∙ collect_listed key vals (J.append array (J.string x)) i val e

  pub terms_fields-Lists :
      (key x : Str) (vals : List Str)
      → (array : J.Value) × (J.at key (terms_fields J C key (x ∷ vals)) ≡ some array)
        × Lists J (x ∷ vals) array
  unfolding terms_fields
  terms_fields-Lists key x vals =
      let array = collect_terms J C key (x ∷ vals) J.null in
      (
        array,
        set_here key array J.null,
        record {
          sized = collect_size key (x ∷ vals) J.null ∙ omega (arith, L.size_null);
          listed = λ i val e.
              let there : i ≡ J.size J.null + i = omega (arith, L.size_null) in
              ap (λ n. J.elem n array) there ∙ collect_listed key (x ∷ vals) J.null i val e;
        },
      )

  -- Where neither list is empty, the query has both.
  pub query_of_lem :
      (q : Search J C)
      → J.empty q.must_not ≡ false
      → J.empty q.should ≡ false
      → (query : J.Value) × (cond : J.Value) × (J.at (utf8 "query") (query_of J C q) ≡ some query)
        × (J.at (utf8 "bool") query ≡ some cond)
        × (J.at (utf8 "must_not") cond ≡ some q.must_not)
        × (J.at (utf8 "should") cond ≡ some q.should)
  unfolding query_of utf8 Str-discrete ℕ_discrete
  query_of_lem q full full' =
      let cond = J.set (utf8 "should") q.should (J.set (utf8 "must_not") q.must_not J.null) in
      let query = J.set (utf8 "bool") cond J.null in
      let shape : query_of J C q ≡ J.set (utf8 "query") query J.null =
        rw (full, query_of) (rw full' refl) in
      (
        query,
        cond,
        ap (J.at (utf8 "query")) shape ∙ set_here (utf8 "query") query J.null,
        set_here (utf8 "bool") cond J.null,
        set_there (utf8 "must_not") (utf8 "should") _ _ refl ∙ set_here (utf8 "must_not") _ _,
        set_here (utf8 "should") _ _,
      )

  -- The clause that `append_should_match` adds.
  abbrev pub match_clause : Str → Str → J.Value
  match_clause key val = J.set (utf8 "match") (J.set key (J.string val) J.null) J.null

  pub match_clause-Matches : (key val : Str) → Matches J key val (match_clause key val)
  match_clause-Matches key val =
      let field = J.set key (J.string val) J.null in
      (field, set_here (utf8 "match") field J.null, set_here key (J.string val) J.null)
