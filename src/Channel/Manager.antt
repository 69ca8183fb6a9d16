-- ===== src/Channel/Manager.antt =====
-- What `ServiceManager::onServiceOnline` and `onServiceOffline` do to the services, one at a time.
use cpp_microservice_im.Base.{
  ℕ, ◌+◌, ◌≡◌, ◌≢◌, refl, ap, Str, Bool, ◌&&◌, none, some, [], ◌∷◌, ◌++◌, arith, if◌then◌else◌,
  ◌==◌, contains, length, take, All, Option-cases, inl, inr,
}
use cpp_microservice_im.Base.Dict
use cpp_microservice_im.Channel.{
  service_channel, ServiceManager, append, remove, find_last_of, get_service_name, obtain,
  on_service_online, on_service_offline,
}

find_last_of_absent : (c : ℕ) (s : Str) → All (λ x. x ≢ c) s → find_last_of c s ≡ none
unfolding find_last_of
find_last_of_absent c [] h = refl
find_last_of_absent c (x ∷ s) h = ground (arith, find_last_of_absent c s h.1, h.0)

find_last_of_last :
    (c : ℕ) (s t : Str) → All (λ x. x ≢ c) t → find_last_of c (s ++ (c ∷ t)) ≡ some (length s)
unfolding find_last_of
find_last_of_last c [] t h = ground (arith, find_last_of_absent c t h)
find_last_of_last c (x ∷ s) t h = rw (find_last_of_last c s t h)

take-append_left : (s t : Str) → take (length s) (s ++ t) ≡ s
take-append_left [] t = refl
take-append_left (x ∷ s) t = ap (◌∷◌ x) (take-append_left s t)

-- An instance is `service name / node`: the name is what stands before the last slash, and the whole
-- key where there is no slash.
pub get_service_name_lem :
    (name node : Str)
    → All (λ x. x ≢ b'/') node
    → (get_service_name (name ++ (b'/' ∷ node)) ≡ name) × (get_service_name node ≡ node)
unfolding get_service_name
get_service_name_lem name node h = (
  rw (find_last_of_last b'/' name node h, get_service_name) (take-append_left name (b'/' ∷ node)),
  rw (find_last_of_absent b'/' node h, get_service_name),
)

-- One service after `onServiceOnline`.
pub obtain-on_service_online :
    (name : Str) (failed : ℕ → Str → Bool) (service_instance host : Str) (m : ServiceManager)
    → obtain name (on_service_online failed service_instance host m) ≡ (
        if contains name m.follow_services && (name == get_service_name service_instance)
        then append (failed m.next host) m.next host (obtain name m)
        else obtain name m)
unfolding on_service_online obtain
obtain-on_service_online name failed service_instance host m = ground (
  arith,
  Dict.lookup-assign name (get_service_name service_instance)
      (append (failed m.next host) m.next host (obtain (get_service_name service_instance) m))
      m.services,
)

remove_fresh : (host name : Str) → remove host (service_channel name) ≡ service_channel name
unfolding remove Dict.lookup
remove_fresh host name = refl

-- One service after `onServiceOffline`.
pub obtain-on_service_offline :
    (name service_instance host : Str) (m : ServiceManager)
    → obtain name (on_service_offline service_instance host m) ≡ (
        if contains name m.follow_services && (name == get_service_name service_instance)
        then remove host (obtain name m)
        else obtain name m)
unfolding on_service_offline obtain
obtain-on_service_offline name service_instance host m =
    elim (Option-cases (Dict.lookup (get_service_name service_instance) m.services)) [
      | inl e ↦ ground (arith, remove_fresh host name)
      | inr (s, e) ↦ ground (
        arith,
        Dict.lookup-assign name (get_service_name service_instance) (remove host s) m.services,
      )
    ]

-- What both leave alone, and how far the allocator moves.
pub on_service_online_frame :
    (failed : ℕ → Str → Bool) (service_instance host : Str) (m : ServiceManager)
    → let m' = on_service_online failed service_instance host m in
      (m'.follow_services ≡ m.follow_services)
      × (m'.next ≡ (
          if contains (get_service_name service_instance) m.follow_services
          then m.next + 1
          else m.next))
unfolding on_service_online
on_service_online_frame failed service_instance host m = ground arith

pub on_service_offline_frame :
    (service_instance host : Str) (m : ServiceManager)
    → let m' = on_service_offline service_instance host m in
      (m'.follow_services ≡ m.follow_services) × (m'.next ≡ m.next)
unfolding on_service_offline
on_service_offline_frame service_instance host m = ground arith
