-- ===== src/Etcd/Gap.antt =====
-- What happens between the listing and the start of the watcher: `Discovery` lists first, and its
-- watcher, which names no revision, reports what happens from then on.
use cpp_microservice_im.Base.{
  ℕ, ◌≡◌, ◌≢◌, refl, sym, ap, subst, ◌∙◌, Str, Bool, true, false, some, List, [], ◌∷◌, ◌++◌, map,
  arith, ◌==◌, ◌&&◌, ◌||◌, contains,
}
use cpp_microservice_im.Channel.{
  ServiceManager, get_service_name, obtain, on_service_online, on_service_offline,
}
use cpp_microservice_im.Channel.Removal.{erase_first}
use cpp_microservice_im.Channel.Rotation.{hosts_of}
use cpp_microservice_im.Etcd.{Event, put, delete, other, KeyValue, Listing, discovery}
use cpp_microservice_im.Etcd.Listed.{puts, discovery-handle_all, live_after-append, Fresh-append}
use cpp_microservice_im.Etcd.Refine.{live_after, Fresh, Follows, handle_all-live}
use cpp_microservice_im.Etcd.Threads.{System, Reach}
use cpp_microservice_im.Etcd.Threads.Live.{rotation_live}

module _ (name host : Str) where
  abbrev about : KeyValue → Bool
  about kv = (name == get_service_name kv.key) && (host == kv.value)

  -- Some event says that the host came up, or went down.
  unfoldable pub arrives : List Event → Bool
  arrives [] = false
  arrives (put kv ∷ evs) = about kv || arrives evs
  arrives (delete kv ∷ evs) = arrives evs
  arrives (other ∷ evs) = arrives evs

  unfoldable pub departs : List Event → Bool
  departs [] = false
  departs (put kv ∷ evs) = departs evs
  departs (delete kv ∷ evs) = about kv || departs evs
  departs (other ∷ evs) = departs evs

  contains-snoc :
      (xs : List Str) (x : Str) → contains host (xs ++ (x ∷ [])) ≡ (contains host xs || host == x)
  unfolding contains
  contains-snoc [] x = ground arith
  contains-snoc (y ∷ xs) x = ground (arith, contains-snoc xs x)

  contains-erase_first :
      (x : Str) (xs : List Str) → host ≢ x → contains host (erase_first x xs) ≡ contains host xs
  unfolding contains
  contains-erase_first x [] n = refl
  contains-erase_first x (y ∷ xs) n = ground (arith, contains-erase_first x xs n)

  contains-erased :
      (x : Str) (xs : List Str) → contains host (erase_first x xs) ≡ true → contains host xs ≡ true
  unfolding contains
  contains-erased x [] h = h
  contains-erased x (y ∷ xs) h = ground (arith, contains-erased x xs)

  -- A host that is live, or comes up, and of which no event says that it went down, is live.
  live_after-stays :
      (evs : List Event) (live : List Str)
      → (contains host live || arrives evs) ≡ true
      → departs evs ≡ false
      → contains host (live_after name evs live) ≡ true
  unfolding live_after arrives departs
  live_after-stays [] live h d = ground arith
  live_after-stays (put kv ∷ evs) live h d =
      live_after-stays evs _ (ground (arith, contains-snoc live kv.value)) d
  live_after-stays (delete kv ∷ evs) live h d =
      live_after-stays evs _ (ground (arith, contains-erase_first kv.value live)) (ground arith)
  live_after-stays (other ∷ evs) live h d = live_after-stays evs live h d

  -- A live host was live before, or came up.
  live_after-origin :
      (evs : List Event) (live : List Str)
      → contains host (live_after name evs live) ≡ true
      → (contains host live || arrives evs) ≡ true
  unfolding live_after arrives
  live_after-origin [] live h = ground arith
  live_after-origin (put kv ∷ evs) live h =
      let before = live_after-origin evs _ h in ground (arith, before, contains-snoc live kv.value)
  live_after-origin (delete kv ∷ evs) live h =
      let before = live_after-origin evs _ h in
      ground (arith, before, contains-erased kv.value live)
  live_after-origin (other ∷ evs) live h = live_after-origin evs live h

  departs-puts : (kvs : List KeyValue) → departs (map put kvs) ≡ false
  unfolding departs
  departs-puts [] = refl
  departs-puts (kv ∷ kvs) = departs-puts kvs

  departs-append : (xs ys : List Event) → departs (xs ++ ys) ≡ (departs xs || departs ys)
  unfolding departs
  departs-append [] ys = refl
  departs-append (put kv ∷ xs) ys = departs-append xs ys
  departs-append (delete kv ∷ xs) ys = ground (arith, departs-append xs ys)
  departs-append (other ∷ xs) ys = departs-append xs ys

module _ (failed : ℕ → Str → Bool) (up : (a : ℕ) (h : Str) → failed a h ≡ false) (name host : Str)
    (m : ServiceManager) (f : Follows name m) (resp : Listing) where
  abbrev listed : ServiceManager
  listed = discovery (some (on_service_online failed)) resp m

  rotation_after :
      (s : System)
      → Reach failed listed s
      → Fresh name (puts resp ++ s.handled) (hosts_of (obtain name m))
      → hosts_of (obtain name s.manager)
        ≡ live_after name (puts resp ++ s.handled) (hosts_of (obtain name m))
  rotation_after s r fresh =
      let (early, late) =
        Fresh-append name (puts resp) s.handled (hosts_of (obtain name m)) fresh in
      let same =
        discovery-handle_all (some (on_service_online failed)) (some on_service_offline) resp m in
      let (g, q) = handle_all-live failed up name (puts resp) m f early in
      let q' = ap (λ n. hosts_of (obtain name n)) same ∙ q in
      rotation_live failed up name listed (subst (Follows name) (sym same) g) s r
        (subst (Fresh name s.handled) (sym q') late)
      ∙ ap (live_after name s.handled) q'
      ∙ sym (live_after-append name (puts resp) s.handled (hosts_of (obtain name m)))

  -- From a manager without nodes of a followed service, with every channel set up and no put of a host
  -- that is up by the listing and the events handled: at every moment a node is in the rotation if the
  -- listing or an event that was handled put it there and no event that was handled took it away, and
  -- only if the listing or such an event put it there.
  pub listed_stays :
      (s : System)
      → hosts_of (obtain name m) ≡ []
      → Reach failed listed s
      → Fresh name (puts resp ++ s.handled) (hosts_of (obtain name m))
      → let there = contains host (hosts_of (obtain name s.manager)) in
        (arrives name host (puts resp ++ s.handled) ≡ true
          → departs name host s.handled ≡ false
          → there ≡ true)
        × (there ≡ true → arrives name host (puts resp ++ s.handled) ≡ true)
  unfolding contains
  listed_stays s none r fresh =
      let evs = puts resp ++ s.handled in
      let same = ap (contains host) (rotation_after s r fresh) in
      let gone = departs-append name host (puts resp) s.handled in
      let kept = departs-puts name host resp.entries in
      (
        λ a d.
            same
            ∙ live_after-stays name host evs _ (ground (arith, a)) (ground (arith, gone, kept, d)),
        λ t.
            let origin = live_after-origin name host evs _ (sym same ∙ t) in
            let empty = ap (contains host) none in ground (arith, origin, empty),
      )
