-- ===== src/Channel/Removal.antt =====
-- `ServiceChannel::remove` on the rotation and the record.
use mathlib.Core.Option.{some-injective}
use cpp_microservice_im.Base.{◌++◌}
use cpp_microservice_im.Channel.Rotation.{Distinct, Distinct-snoc, In-append_left}
use mathlib.Core.List.{map-append}
use cpp_microservice_im.Base.{
  ℕ, ◌<◌, ◌≤◌, ◌≡◌, ◌≢◌, refl, sym, ap, ◌∙◌, Str, false, none, some, List, [], ◌∷◌, map, arith,
  ℕ_discrete, eqb, if◌then◌else◌, ◌==◌, All, All-mono, Option-cases, inl, inr,
}
use cpp_microservice_im.Base.Dict
use cpp_microservice_im.Base.Dict.{Dict}
use cpp_microservice_im.Channel.{Channel, ServiceChannel, append, remove, erase_channel}
use cpp_microservice_im.Channel.Rotation.{
  Backed, In, IsValid, hosts_of, In-snoc, All-In, address_inj, opened,
}
use cpp_microservice_im.Channel.Erase.{
  erase_channel-All, erase_channel-Distinct, erase_channel-In, erase_channel_sub,
  erase_channel_gone, erase_channel-snoc,
}

-- Removal by address is removal by host, where each names the same channel.
abbrev pub erase_first : Str → List Str → List Str
erase_first h [] = []
erase_first h (x ∷ xs) = if x == h then xs else x ∷ erase_first h xs

erase_channel-hosts :
    (a : ℕ) (h : Str) (cs : List Channel)
    → All (λ c. eqb c.address a ≡ (c.host == h)) cs
    → map (λ (c : Channel). c.host) (erase_channel a cs) ≡ erase_first h (map (λ c. c.host) cs)
unfolding erase_channel
erase_channel-hosts a h [] e = refl
erase_channel-hosts a h (c ∷ cs) e = ground (arith, erase_channel-hosts a h cs e.1, e.0)

-- In a valid object the channel on record for a host is the only one for it.
same_channel :
    (next : ℕ) (sc : ServiceChannel) (host : Str) (c d : Channel)
    → IsValid next sc
    → Dict.lookup host sc.hosts ≡ some c
    → In d sc.channels
    → eqb d.address c.address ≡ (d.host == host)
same_channel next sc host c d v e i = elim (ℕ_discrete d.address c.address) [
  | yes p ↦
      let one : d ≡ c = address_inj sc.channels d c v.distinct i (v.hosted host c e).1 p in
      let named : d.host ≡ host = ap (λ (r : Channel). r.host) one ∙ (v.hosted host c e).0 in
      ground arith
  | no q ↦
      let other : d.host ≢ host = (λ named. q (
        ap (λ (r : Channel). r.address)
          (some-injective d c (
            sym (All-In (λ r. Dict.lookup r.host sc.hosts ≡ some r) sc.channels d v.backed i)
            ∙ ap (λ h. Dict.lookup h sc.hosts) named
            ∙ e)))) in
      ground arith
]

In-All {ℓ} : (P : Channel → Type ℓ) (cs : List Channel) → ((c : Channel) → In c cs → P c) → All P cs
In-All P [] f = tt
In-All P (c ∷ cs) f = (f c (inl refl), In-All P cs (λ d i. f d (inr i)))

not_on_record :
    (host : Str) (hosts : Dict Channel) (cs : List Channel)
    → Dict.lookup host hosts ≡ none
    → Backed hosts cs
    → All (λ c. c.host ≢ host) cs
not_on_record host hosts cs n b =
    All-mono (λ c. Dict.lookup c.host hosts ≡ some c) (λ c. c.host ≢ host) cs
      (λ c e named. cc (ap (λ h. Dict.lookup h hosts) named)) b

erase_first_absent :
    (host : Str) (cs : List Channel)
    → All (λ c. c.host ≢ host) cs
    → erase_first host (map (λ c. c.host) cs) ≡ map (λ c. c.host) cs
erase_first_absent host [] h = refl
erase_first_absent host (c ∷ cs) h = ground (arith, erase_first_absent host cs h.1, h.0)

Backed-erase :
    (host : Str) (hosts : Dict Channel) (cs : List Channel)
    → All (λ c. c.host ≢ host) cs
    → Backed hosts cs
    → Backed (Dict.erase host hosts) cs
Backed-erase host hosts [] n b = tt
Backed-erase host hosts (c ∷ cs) n b = (
  ground (arith, Dict.lookup-erase c.host host hosts, n.0, b.0),
  Backed-erase host hosts cs n.1 b.1,
)

erased_host :
    (next : ℕ) (sc : ServiceChannel) (host : Str) (c : Channel)
    → IsValid next sc
    → Dict.lookup host sc.hosts ≡ some c
    → All (λ d. d.host ≢ host) (erase_channel c.address sc.channels)
erased_host next sc host c v e =
    In-All (λ d. d.host ≢ host) (erase_channel c.address sc.channels)
      λ d i named.
        let away =
          All-In (λ d. d.address ≢ c.address) _ d
            (erase_channel_gone c.address sc.channels v.distinct) i in
        let same =
          same_channel next sc host c d v e (erase_channel_sub c.address d sc.channels i) in
        away (ground arith)

-- After `remove` on a valid object no channel in rotation is for the host.
remove_gone :
    (next : ℕ) (host : Str) (sc : ServiceChannel)
    → IsValid next sc
    → All (λ c. c.host ≢ host) (remove host sc).channels
unfolding remove
remove_gone next host sc v = elim (Option-cases (Dict.lookup host sc.hosts)) [
  | inl e ↦ rw (e, remove) (not_on_record host sc.hosts sc.channels e v.backed)
  | inr (c, e) ↦ rw (e, remove) (erased_host next sc host c v e)
]

erased_hosted :
    (next : ℕ) (sc : ServiceChannel) (host : Str) (c : Channel)
    → IsValid next sc
    → Dict.lookup host sc.hosts ≡ some c
    → (h : Str) (d : Channel) → Dict.lookup h (Dict.erase host sc.hosts) ≡ some d
    → (d.host ≡ h) × In d (erase_channel c.address sc.channels)
erased_hosted next sc host c v e h d f =
    let apart : h ≢ host = (λ p. ground (arith, Dict.lookup-erase h host sc.hosts)) in
    let (named, i) = v.hosted h d (ground (arith, Dict.lookup-erase h host sc.hosts)) in
    (
      named,
      erase_channel-In c.address d sc.channels
          (λ p. apart (
            sym named
            ∙ ap (λ (r : Channel). r.host)
                (address_inj sc.channels d c v.distinct i (v.hosted host c e).1 p)
            ∙ (v.hosted host c e).0))
          i,
    )

-- Taking out a host keeps the object valid, whether or not the host was on record.
pub remove-IsValid :
    (next : ℕ) (host : Str) (sc : ServiceChannel) → IsValid next sc → IsValid next (remove host sc)
unfolding remove
remove-IsValid next host sc v = elim (Option-cases (Dict.lookup host sc.hosts)) [
  | inl e ↦ rw (e, remove) v
  | inr (c, e) ↦
      rw (e, remove)
        (record {
          below = erase_channel-All (λ d. d.address < next) c.address sc.channels v.below;
          distinct = erase_channel-Distinct c.address sc.channels v.distinct;
          backed = Backed-erase host sc.hosts _ (erased_host next sc host c v e) (
              erase_channel-All (λ d. Dict.lookup d.host sc.hosts ≡ some d) c.address sc.channels
                v.backed);
          hosted = λ h d f. erased_hosted next sc host c v e h d f;
        })
]

erased_hosts :
    (next : ℕ) (sc : ServiceChannel) (host : Str) (c : Channel)
    → IsValid next sc
    → Dict.lookup host sc.hosts ≡ some c
    → map (λ (d : Channel). d.host) (erase_channel c.address sc.channels)
      ≡ erase_first host (hosts_of sc)
erased_hosts next sc host c v e = erase_channel-hosts c.address host sc.channels (
    In-All (λ d. eqb d.address c.address ≡ (d.host == host)) sc.channels
      (λ d i. same_channel next sc host c d v e i))

-- On a valid object, taking out a host takes the first channel for it out of rotation and leaves the
-- others in their order.
pub hosts_of-remove :
    (next : ℕ) (host : Str) (sc : ServiceChannel)
    → IsValid next sc
    → hosts_of (remove host sc) ≡ erase_first host (hosts_of sc)
unfolding remove
hosts_of-remove next host sc v = elim (Option-cases (Dict.lookup host sc.hosts)) [
  | inl e ↦
      rw (e, remove)
        (sym (
          erase_first_absent host sc.channels (not_on_record host sc.hosts sc.channels e v.backed)))
  | inr (c, e) ↦ rw (e, remove) (erased_hosts next sc host c v e)
]

-- On a valid object, a new channel for a host that is on record goes into rotation behind the others,
-- while the first one stays on record; a `remove` of the host then takes the first one out of
-- rotation, and only that: the others and the new one stay in their order, and the host is on record
-- no more.
pub append_twice_stale :
    (next a : ℕ) (host : Str) (sc : ServiceChannel) {c : Channel}
    → IsValid next sc
    → next ≤ a
    → Dict.lookup host sc.hosts ≡ some c
    → let twice = append false a host sc in
      let sc' = remove host twice in
      (Dict.lookup host twice.hosts ≡ some c)
      × (In c twice.channels × (¬ In c sc'.channels))
      × In (opened a host) sc'.channels
      × (hosts_of sc' ≡ erase_first host (hosts_of sc) ++ (host ∷ []))
      × (Dict.lookup host sc'.hosts ≡ none)
unfolding remove append
append_twice_stale next a host sc {c} v h e =
    let o = opened a host in
    let same = Dict.insert_present host o c sc.hosts e in
    let here = (v.hosted host c e).1 in
    let old = All-In (λ d. d.address < next) sc.channels c v.below here in
    let apart : Distinct (sc.channels ++ (o ∷ [])) =
      Distinct-snoc sc.channels o (All-mono _ _ sc.channels (λ d lt. omega arith) v.below)
        v.distinct in
    let gone = erase_channel_gone c.address (sc.channels ++ (o ∷ [])) apart in
    rw (same, e, remove)
      (
        refl,
        (
          In-append_left c sc.channels _ here,
          λ i. All-In (λ d. d.address ≢ c.address) _ c gone i refl,
        ),
        erase_channel-In c.address o _ (λ p. absurd (omega arith)) (In-snoc sc.channels _),
        ap (map (λ (d : Channel). d.host)) (erase_channel-snoc c o sc.channels here)
            ∙ map-append (λ (d : Channel). d.host) (erase_channel c.address sc.channels) (o ∷ [])
            ∙ ap (λ l. l ++ (host ∷ [])) (erased_hosts next sc host c v e),
        rw Dict.lookup-erase (ground arith),
      )
