-- ===== src/Etcd/Refine.antt =====
-- The rotation of a followed service against the list of its live nodes.
use cpp_microservice_im.Base.{
  ℕ, ◌≡◌, ◌≢◌, refl, sym, ap, ◌∙◌, Str, Bool, true, false, Option, none, some, List, [], ◌∷◌, ◌++◌,
  map, arith, if◌then◌else◌, ◌==◌, contains, subst, Str-discrete, ◌+◌, All, Option-cases, inl, inr,
}
use cpp_microservice_im.Channel.{
  Channel, ServiceManager, ServiceChannel, append, remove, get_service_name, obtain,
  on_service_online, on_service_offline,
}
use cpp_microservice_im.Channel.Rotation.{
  IsValid, hosts_of, append-IsValid, IsValid-mono, hosts_of-append, All-In,
}
use cpp_microservice_im.Channel.Removal.{erase_first, remove-IsValid, hosts_of-remove}
use cpp_microservice_im.Channel.Manager.{
  obtain-on_service_online, obtain-on_service_offline, on_service_online_frame,
  on_service_offline_frame,
}
use cpp_microservice_im.Etcd.{Event, put, delete, other, Response, callback, handle_all}
use cpp_microservice_im.Base.Dict

-- The nodes of one service that are up, oldest first: what a put adds and a delete takes away.
unfoldable pub live_after : Str → List Event → List Str → List Str
live_after name [] live = live
live_after name (put kv ∷ evs) live =
    live_after name evs (if name == get_service_name kv.key then live ++ (kv.value ∷ []) else live)
live_after name (delete kv ∷ evs) live =
    live_after name evs
      (if name == get_service_name kv.key then erase_first kv.value live else live)
live_after name (other ∷ evs) live = live_after name evs live

-- No put names a host of the service that is up already.
abbrev pub Fresh : Str → List Event → List Str → Type 0
Fresh name [] live = Unit
Fresh name (put kv ∷ evs) live =
    (name ≡ get_service_name kv.key → contains kv.value live ≡ false)
    × Fresh name evs (if name == get_service_name kv.key then live ++ (kv.value ∷ []) else live)
Fresh name (delete kv ∷ evs) live =
    Fresh name evs (if name == get_service_name kv.key then erase_first kv.value live else live)
Fresh name (other ∷ evs) live = Fresh name evs live

-- The service is followed, and what it keeps is valid.
pub record Follows (name : Str) (m : ServiceManager) : Type 0 where
  pub followed : contains name m.follow_services ≡ true
  pub valid : IsValid m.next (obtain name m)

contains-In : (h : Str) (xs : List Str) → contains h xs ≡ false → All (λ x. x ≢ h) xs
unfolding contains
contains-In h [] e = tt
contains-In h (x ∷ xs) e = (ground arith, contains-In h xs (ground arith))

All-hosts :
    (h : Str) (cs : List Channel)
    → All (λ x. x ≢ h) (map (λ (c : Channel). c.host) cs)
    → All (λ c. c.host ≢ h) cs
All-hosts h [] a = tt
All-hosts h (c ∷ cs) a = (a.0, All-hosts h cs a.1)

-- A host that is in no channel is not on record.
absent_lookup :
    (next : ℕ) (sc : ServiceChannel) (host : Str)
    → IsValid next sc
    → contains host (hosts_of sc) ≡ false
    → Dict.lookup host sc.hosts ≡ none
absent_lookup next sc host v e = elim (Option-cases (Dict.lookup host sc.hosts)) [
  | inl n ↦ n
  | inr (c, p) ↦
      let (named, i) = v.hosted host c p in
      absurd (
        All-In (λ d. d.host ≢ host) sc.channels c
          (All-hosts host sc.channels (contains-In host (hosts_of sc) e)) i named)
]

module _ (failed : ℕ → Str → Bool) (up : (a : ℕ) (h : Str) → failed a h ≡ false) (name : Str) where
  online_step :
      (inst host : Str) (m : ServiceManager)
      → Follows name m
      → (name ≡ get_service_name inst → contains host (hosts_of (obtain name m)) ≡ false)
      → let m' = on_service_online failed inst host m in
        Follows name m'
        × (hosts_of (obtain name m') ≡ (
            if name == get_service_name inst
            then hosts_of (obtain name m) ++ (host ∷ [])
            else hosts_of (obtain name m)))
  online_step inst host m f fresh = elim (Str-discrete name (get_service_name inst)) [
    | yes p ↦
        let same : obtain name (on_service_online failed inst host m)
            ≡ append false m.next host (obtain name m) =
          ground
            (arith, up m.next host, obtain-on_service_online name failed inst host m, f.followed) in
        let stepped = on_service_online_frame failed inst host m in
        let counted : (on_service_online failed inst host m).next ≡ m.next + 1 =
          ground (arith, f.followed) in
        (
          record {
            followed = rw stepped.0 f.followed;
            valid =
                rw (same, counted)
                  (append-IsValid false m.next host (obtain name m)
                    (absent_lookup m.next (obtain name m) host f.valid (fresh p)) f.valid);
          },
          ap hosts_of same ∙ hosts_of-append m.next host (obtain name m) ∙ ground arith,
        )
    | no q ↦
        let same : obtain name (on_service_online failed inst host m) ≡ obtain name m =
          ground (arith, obtain-on_service_online name failed inst host m) in
        let stepped = on_service_online_frame failed inst host m in
        (
          record {
            followed = rw stepped.0 f.followed;
            valid =
                rw same (IsValid-mono m.next _ (obtain name m) (ground (arith, stepped)) f.valid);
          },
          ap hosts_of same ∙ ground arith,
        )
  ]

  offline_step :
      (inst host : Str) (m : ServiceManager)
      → Follows name m
      → let m' = on_service_offline inst host m in
        Follows name m'
        × (hosts_of (obtain name m') ≡ (
            if name == get_service_name inst
            then erase_first host (hosts_of (obtain name m))
            else hosts_of (obtain name m)))
  offline_step inst host m f = elim (Str-discrete name (get_service_name inst)) [
    | yes p ↦
        let same : obtain name (on_service_offline inst host m) ≡ remove host (obtain name m) =
          ground (arith, obtain-on_service_offline name inst host m, f.followed) in
        let stepped = on_service_offline_frame inst host m in
        (
          record {
            followed = rw stepped.0 f.followed;
            valid = rw (same, stepped.1) (remove-IsValid m.next host (obtain name m) f.valid);
          },
          ap hosts_of same ∙ hosts_of-remove m.next host (obtain name m) f.valid ∙ ground arith,
        )
    | no q ↦
        let same : obtain name (on_service_offline inst host m) ≡ obtain name m =
          ground (arith, obtain-on_service_offline name inst host m) in
        let stepped = on_service_offline_frame inst host m in
        (
          record { followed = rw stepped.0 f.followed; valid = rw (same, stepped.1) f.valid },
          ap hosts_of same ∙ ground arith,
        )
  ]

  abbrev put_cb : Option (Str → Str → ServiceManager → ServiceManager)
  put_cb = some (on_service_online failed)

  abbrev del_cb : Option (Str → Str → ServiceManager → ServiceManager)
  del_cb = some on_service_offline

  pub handle_all-live :
      (evs : List Event) (m : ServiceManager)
      → Follows name m
      → Fresh name evs (hosts_of (obtain name m))
      → let m' = handle_all put_cb del_cb evs m in
        Follows name m'
        × (hosts_of (obtain name m') ≡ live_after name evs (hosts_of (obtain name m)))
  unfolding handle_all live_after
  handle_all-live [] m f fresh = (f, refl)
  handle_all-live (put kv ∷ evs) m f fresh =
      let (f', e) = online_step kv.key kv.value m f fresh.0 in
      let (g, q) = handle_all-live evs _ f' (subst (Fresh name evs) (sym e) fresh.1) in
      (g, q ∙ ap (live_after name evs) e)
  handle_all-live (delete kv ∷ evs) m f fresh =
      let (f', e) = offline_step kv.key kv.value m f in
      let (g, q) = handle_all-live evs _ f' (subst (Fresh name evs) (sym e) fresh) in
      (g, q ∙ ap (live_after name evs) e)
  handle_all-live (other ∷ evs) m f fresh = handle_all-live evs m f fresh

  -- With every channel set up and no put of a host that is up, the rotation of a followed service
  -- after a good notice is the list of the live nodes of that service, and the service stays valid.
  pub callback-live :
      (resp : Response) (m : ServiceManager)
      → resp.is_ok ≡ true
      → Follows name m
      → Fresh name resp.events (hosts_of (obtain name m))
      → let m' = callback put_cb del_cb resp m in
        Follows name m'
        × (hosts_of (obtain name m') ≡ live_after name resp.events (hosts_of (obtain name m)))
  unfolding callback
  callback-live resp m good f fresh = rw good (handle_all-live resp.events m f fresh)
