-- ===== src/Es.antt =====
-- code/server/common/icsearch.hpp: `ESIndex`, `ESInsert`, `ESRemove` and `ESSearch`. JsonCpp and
-- elasticlient are parameters.
pub mod Laws
pub mod Query
use cpp_microservice_im.Base.{
  ℕ, suc, zero, ◌+◌, ◌≡◌, ◌≢◌, Str, String, Bool, true, false, not, ◌&&◌, ◌||◌, Option, none, some,
  List, [], ◌∷◌, ◌++◌, ltb, leb, eqb, if◌then◌else◌, ◌==◌, utf8,
}
use cpp_microservice_im.Base.Outcome.{Outcome, done, crash, Fault, exception}
use cpp_microservice_im.Mysql.{User}

-- `Json::Value`. `set` is `v[key] = x`, `at` and `elem` read a member (`none` where JsonCpp throws),
-- `append` adds to an array; a null value becomes an object or an array. `write` is `none` where the
-- writer reports an error, and `parse` gives the value that was filled, and false on an error.
pub record Json : Type 1 where
  pub Value : Type 0
  pub null : Value
  pub string : Str → Value
  pub bool : Bool → Value
  pub set : Str → Value → Value → Value
  pub at : Str → Value → Option Value
  pub append : Value → Value → Value
  pub elem : ℕ → Value → Option Value
  pub empty : Value → Bool
  pub is_array : Value → Bool
  pub size : Value → ℕ
  pub as_string : Value → Option Str
  pub write : Value → Option Str
  pub parse : Str → Bool × Value

-- `elasticlient::Client`: the state after a request and the status of the answer, with the text of
-- it for a search; `none` is an exception.
pub record Client : Type 1 where
  pub State : Type 0
  pub index : Str → Str → Str → Str → State → Option ℕ × State
  pub remove : Str → Str → Str → State → Option ℕ × State
  pub search : Str → Str → Str → State → Option (ℕ × Str) × State

-- The test on `status_code`, and what the calls that only ask for success return.
abbrev pub is_bad : ℕ → Bool
is_bad status_code = ltb status_code 200 || leb 300 status_code

abbrev pub accepted : Option ℕ → Bool
accepted none = false
accepted (some status_code) = if is_bad status_code then false else true

module _ (J : Json) (C : Client) where
  -- `ESIndex`: its body so far and the properties.
  pub record Index : Type 0 where
    pub name : Str
    pub type : Str
    pub index : J.Value
    pub properties : J.Value

  unfoldable pub es_index : Str → Str → Index
  es_index name type =
      let ik = J.set (utf8 "tokenizer") (J.string (utf8 "ik_max_word")) J.null in
      let analyzer = J.set (utf8 "ik") ik J.null in
      let analysis = J.set (utf8 "analyzer") analyzer J.null in
      let settings = J.set (utf8 "analysis") analysis J.null in
      record {
        name = name;
        type = type;
        index = J.set (utf8 "settings") settings J.null;
        properties = J.null;
      }

  unfoldable pub index_append : Str → Str → Str → Bool → Index → Index
  index_append key type analyzer enabled i =
      let fields =
        J.set (utf8 "analyzer") (J.string analyzer) (J.set (utf8 "type") (J.string type) J.null) in
      let fields' = if enabled then fields else J.set (utf8 "enabled") (J.bool enabled) fields in
      record i { properties = J.set key fields' i.properties }

  unfoldable pub index_create : Str → Index → C.State → Bool × C.State
  index_create index_id i s =
      let mappings =
        J.set (utf8 "properties") i.properties (J.set (utf8 "dynamic") (J.bool true) J.null) in
      elim (J.write (J.set (utf8 "mappings") mappings i.index)) [
        | none ↦ (false, s)
        | some body ↦ let (rsp, s') = C.index i.name i.type index_id body s in (accepted rsp, s')
      ]

  -- `ESInsert`
  pub record Insert : Type 0 where
    pub name : Str
    pub type : Str
    pub item : J.Value

  unfoldable pub es_insert : Str → Str → Insert
  es_insert name type = record { name = name; type = type; item = J.null }

  unfoldable pub insert_append : Str → Str → Insert → Insert
  insert_append key val i = record i { item = J.set key (J.string val) i.item }

  unfoldable pub insert_insert : Str → Insert → C.State → Bool × C.State
  insert_insert id i s = elim (J.write i.item) [
    | none ↦ (false, s)
    | some body ↦ let (rsp, s') = C.index i.name i.type id body s in (accepted rsp, s')
  ]

  -- `ESRemove`
  unfoldable pub es_remove : Str → Str → Str → C.State → Bool × C.State
  es_remove name type id s = let (rsp, s') = C.remove name type id s in (accepted rsp, s')

  -- `ESSearch`
  pub record Search : Type 0 where
    pub name : Str
    pub type : Str
    pub must_not : J.Value
    pub should : J.Value

  unfoldable pub es_search : Str → Str → Search
  es_search name type = record { name = name; type = type; must_not = J.null; should = J.null }

  -- The loop `fields[key].append(val)`; a member that is not there yet is null.
  collect_terms : Str → List Str → J.Value → J.Value
  collect_terms key [] array = array
  collect_terms key (val ∷ vals) array = collect_terms key vals (J.append array (J.string val))

  pub terms_fields : Str → List Str → J.Value
  unfolding collect_terms
  terms_fields key [] = J.null
  terms_fields key (val ∷ vals) = J.set key (collect_terms key (val ∷ vals) J.null) J.null

  unfoldable pub append_must_not_terms : Str → List Str → Search → Search
  unfolding terms_fields
  append_must_not_terms key vals q = record q {
    must_not = J.append q.must_not (J.set (utf8 "terms") (terms_fields key vals) J.null);
  }

  unfoldable pub append_should_match : Str → Str → Search → Search
  append_should_match key val q =
      let field = J.set key (J.string val) J.null in
      record q { should = J.append q.should (J.set (utf8 "match") field J.null) }

  -- `json_res["hits"]["hits"]`
  unfoldable pub hits : J.Value → Outcome J.Value
  hits json_res = elim (J.at (utf8 "hits") json_res) [
    | none ↦ crash exception
    | some outer ↦ elim (J.at (utf8 "hits") outer) [ none ↦ crash exception | some val ↦ done val ]
  ]

  -- The document that is asked with.
  unfoldable pub query_of : Search → J.Value
  query_of q =
      let c = if J.empty q.must_not then J.null else J.set (utf8 "must_not") q.must_not J.null in
      let cond = if J.empty q.should then c else J.set (utf8 "should") q.should c in
      J.set (utf8 "query") (J.set (utf8 "bool") cond J.null) J.null

  -- Where the client throws, `return false` makes the JSON value false.
  unfoldable pub search : Search → C.State → Outcome J.Value × C.State
  unfolding hits query_of
  search q s = elim (J.write (query_of q)) [
    | none ↦ (done J.null, s)
    | some body ↦
        let (rsp, s') = C.search q.name q.type body s in
        elim rsp [
          | none ↦ (done (J.bool false), s')
          | some (status_code, text) ↦
              ((if is_bad status_code then done J.null else hits (J.parse text).1), s')
        ]
  ]
