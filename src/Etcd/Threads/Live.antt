-- ===== src/Etcd/Threads/Live.antt =====
-- What a call of `choose` gets while events come in.
use cpp_microservice_im.Base.{
  ℕ, suc, ◌^◌, ◌<◌, ◌≡◌, ◌≢◌, refl, sym, ap, subst, ◌∙◌, Str, Bool, true, false, some, List, [],
  ◌∷◌, map, contains, length, arith, Option-cases, inl, inr,
}
use cpp_microservice_im.Base.Dict
use cpp_microservice_im.Channel.{Channel, ServiceManager, obtain, choose_service}
use cpp_microservice_im.Channel.Bounds.{choose-In}
use cpp_microservice_im.Channel.Rotation.{In, hosts_of}
use cpp_microservice_im.Etcd.Refine.{live_after, Fresh, Follows, handle_all-live}
use cpp_microservice_im.Etcd.Threads.{System, Reach}
use cpp_microservice_im.Etcd.Threads.Atomic.{rotation_atomic}

contains-hosts :
    (c : Channel) (cs : List Channel)
    → In c cs
    → contains c.host (map (λ (d : Channel). d.host) cs) ≡ true
unfolding contains
contains-hosts c [] i = absurd i
contains-hosts c (d ∷ cs) (inl e) = ground arith
contains-hosts c (d ∷ cs) (inr i) = ground (arith, contains-hosts c cs i)

length-hosts : (cs : List Channel) → length (map (λ (d : Channel). d.host) cs) ≡ length cs
length-hosts [] = refl
length-hosts (c ∷ cs) = ap suc (length-hosts cs)

-- A manager gives a channel of the rotation of the service wherever that is not empty.
choose_service_lem :
    (name : Str) (m : ServiceManager)
    → length (obtain name m).channels < 2 ^ 31
    → (obtain name m).channels ≢ []
    → (c : Channel) × ((choose_service name m).0 ≡ some c) × In c (obtain name m).channels
unfolding choose_service obtain
choose_service_lem name m small n = elim (Option-cases (Dict.lookup name m.services)) [
  | inl e ↦ absurd (n (ground arith))
  | inr (sc, e) ↦
      let same : obtain name m ≡ sc = ground arith in
      let (c, chosen, there) =
        (choose-In sc (subst (λ x. length x.channels < 2 ^ 31) same small)).0
          (subst (λ x. x.channels ≢ []) same n) in
      (c, ground arith, subst (λ x. In c x.channels) (sym same) there)
]

module _ (failed : ℕ → Str → Bool) (up : (a : ℕ) (h : Str) → failed a h ≡ false) (name : Str)
    (m₀ : ServiceManager) (f : Follows name m₀) where
  -- The rotation of a followed service is the list of its live nodes at every moment.
  pub rotation_live :
      (s : System)
      → Reach failed m₀ s
      → Fresh name s.handled (hosts_of (obtain name m₀))
      → hosts_of (obtain name s.manager) ≡ live_after name s.handled (hosts_of (obtain name m₀))
  rotation_live s r fresh =
      ap (map (λ (d : Channel). d.host)) (rotation_atomic failed m₀ name s r)
      ∙ (handle_all-live failed up name s.handled m₀ f fresh).1

  -- At every moment, with every channel set up and no put of a host that is up, a call for a followed
  -- service that has live nodes, fewer than 2 ^ 31, gets a channel, and that channel is for one of them.
  pub choose_service_live :
      (s : System)
      → Reach failed m₀ s
      → Fresh name s.handled (hosts_of (obtain name m₀))
      → let live = live_after name s.handled (hosts_of (obtain name m₀)) in
        live ≢ []
        → length live < 2 ^ 31
        → (c : Channel) × ((choose_service name s.manager).0 ≡ some c)
          × (contains c.host live ≡ true)
  choose_service_live s r fresh n small =
      let same = rotation_live s r fresh in
      let cs = (obtain name s.manager).channels in
      let (c, chosen, there) =
        choose_service_lem name s.manager
          (subst (λ k. k < 2 ^ 31) (ap length (sym same) ∙ length-hosts cs) small)
          (λ e. n (sym same ∙ ap (map (λ (d : Channel). d.host)) e)) in
      (c, chosen, subst (λ xs. contains c.host xs ≡ true) same (contains-hosts c cs there))
