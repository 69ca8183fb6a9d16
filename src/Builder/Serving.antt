-- ===== src/Builder/Serving.antt =====
-- The channels that the user server works with, from its discovery object on.
use cpp_microservice_im.Base.{
  ℕ, ◌^◌, ◌<◌, ◌≡◌, ◌≢◌, refl, sym, ap, subst, ◌∙◌, Str, Bool, true, false, some, [], ◌++◌, length,
  contains, arith,
}
use cpp_microservice_im.Base.Dict
use cpp_microservice_im.Builder.{UserServerBuilder, make_discovery_object}
use cpp_microservice_im.Channel.{
  Channel, ServiceManager, declared, obtain, choose_service, on_service_online, on_service_offline,
}
use cpp_microservice_im.Channel.Rotation.{hosts_of, service_channel-IsValid}
use cpp_microservice_im.Etcd.{Listing}
use cpp_microservice_im.Etcd.Listed.{puts, discovery-handle_all, live_after-append, Fresh-append}
use cpp_microservice_im.Etcd.Refine.{live_after, Fresh, Follows, handle_all-live}
use cpp_microservice_im.Etcd.Threads.{System, Reach}
use cpp_microservice_im.Etcd.Threads.Live.{choose_service_live}
use mathlib.Core.Option.{some-injective}

-- A new manager that follows one service.
abbrev fresh_manager : Str → ServiceManager
fresh_manager name = declared name (record { follow_services = []; services = []; next = 0 })

fresh_manager-Follows : (name : Str) → Follows name (fresh_manager name)
unfolding declared contains obtain Dict.lookup
fresh_manager-Follows name = record {
  followed = ground arith;
  valid = service_channel-IsValid 0 name;
}

no_hosts : (name : Str) → hosts_of (obtain name (fresh_manager name)) ≡ []
unfolding declared contains obtain Dict.lookup
no_hosts name = refl

module _ (failed : ℕ → Str → Bool) (up : (a : ℕ) (h : Str) → failed a h ≡ false)
    (ls : Str → Str → Listing) (reg_host base name : Str) where
  -- What etcd lists when the discovery object is made.
  abbrev resp : Listing
  resp = ls reg_host base

  listed_manager :
      (b : UserServerBuilder) (m : ServiceManager)
      → (make_discovery_object failed ls reg_host base name b).1.mm_channels ≡ some m
      → Fresh name (puts resp) []
      → Follows name m × (hosts_of (obtain name m) ≡ live_after name (puts resp) [])
  unfolding make_discovery_object
  listed_manager b m e fresh =
      let same =
        sym (
          discovery-handle_all (some (on_service_online failed)) (some on_service_offline) resp
            (fresh_manager name))
        ∙ some-injective _ _ e in
      let (f, q) =
        handle_all-live failed up name (puts resp) (fresh_manager name) (fresh_manager-Follows name)
          (subst (Fresh name (puts resp)) (sym (no_hosts name)) fresh) in
      (
        subst (Follows name) same f,
        ap (λ n. hosts_of (obtain name n)) (sym same)
            ∙ q
            ∙ ap (live_after name (puts resp)) (no_hosts name),
      )

  -- From the listing of the discovery object on, with every channel set up and no put of a host that
  -- is up: while the watcher's thread and any number of calls interleave, a call for the file service
  -- gets a channel whenever nodes of it are up, fewer than 2 ^ 31, by the listing and the events handled
  -- so far, and the channel is for one of these nodes.
  pub make_discovery_object-live :
      (b : UserServerBuilder) (m : ServiceManager) (s : System)
      → (make_discovery_object failed ls reg_host base name b).1.mm_channels ≡ some m
      → Reach failed m s
      → let evs = puts resp ++ s.handled in
        Fresh name evs []
        → live_after name evs [] ≢ []
        → length (live_after name evs []) < 2 ^ 31
        → (c : Channel) × ((choose_service name s.manager).0 ≡ some c)
          × (contains c.host (live_after name evs []) ≡ true)
  make_discovery_object-live b m s e r fresh n small =
      let (early, late) = Fresh-append name (puts resp) s.handled [] fresh in
      let (f, q) = listed_manager b m e early in
      let same =
        ap (live_after name s.handled) q ∙ sym (live_after-append name (puts resp) s.handled []) in
      let (c, chosen, there) =
        choose_service_live failed up name m f s r (subst (Fresh name s.handled) (sym q) late)
          (λ x. n (sym same ∙ x)) (subst (λ l. length l < 2 ^ 31) (sym same) small) in
      (c, chosen, subst (λ l. contains c.host l ≡ true) same there)
