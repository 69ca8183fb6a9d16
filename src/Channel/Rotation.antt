-- ===== src/Channel/Rotation.antt =====
-- `ServiceChannel::append`, and the channels in rotation and on record.
use mathlib.Core.List.{map-append}
use mathlib.Core.Option.{none-ne-some}
use cpp_microservice_im.Base.{
  ℕ, ◌+◌, ◌≤◌, ◌<◌, ◌≡◌, ◌≢◌, refl, sym, ap, ◌∙◌, Str, Bool, true, false, none, some, List, [], ◌∷◌,
  ◌++◌, map, arith, ◌⊎◌, subst, Str-discrete, All, All-append, All-mono, inl, inr,
}
use cpp_microservice_im.Base.Dict
use cpp_microservice_im.Base.Dict.{Dict}
use cpp_microservice_im.Channel.{Channel, ServiceChannel, service_channel, append}

-- No two channels are one object.
abbrev pub Distinct : List Channel → Type 0
Distinct [] = Unit
Distinct (c ∷ cs) = All (λ d. c.address ≢ d.address) cs × Distinct cs

-- The channels are those on record for their hosts.
abbrev pub Backed : Dict Channel → List Channel → Type 0
Backed hosts = All λ c. Dict.lookup c.host hosts ≡ some c

abbrev pub In : Channel → List Channel → Type 0
In c [] = ⊥
In c (d ∷ ds) = (c ≡ d) ⊎ In c ds

-- `next` bounds the addresses in use.
pub record IsValid (next : ℕ) (sc : ServiceChannel) : Type 0 where
  pub below : All (λ c. c.address < next) sc.channels
  pub distinct : Distinct sc.channels
  pub backed : Backed sc.hosts sc.channels
  pub hosted :
      (host : Str) (c : Channel)
      → Dict.lookup host sc.hosts ≡ some c
      → (c.host ≡ host) × In c sc.channels

-- The hosts in rotation, in the order of the vector.
abbrev pub hosts_of : ServiceChannel → List Str
hosts_of sc = map (λ c. c.host) sc.channels

pub Distinct-snoc :
    (cs : List Channel) (c : Channel)
    → All (λ d. d.address < c.address) cs
    → Distinct cs
    → Distinct (cs ++ (c ∷ []))
Distinct-snoc [] c b d = (tt, tt)
Distinct-snoc (x ∷ cs) c b d = (
  All-append (λ e. x.address ≢ e.address) cs (c ∷ []) d.0 ((omega arith), tt),
  Distinct-snoc cs c b.1 d.1,
)

-- A channel for another host leaves the record of the others.
pub Backed-insert :
    (hosts : Dict Channel) (cs : List Channel) (c : Channel)
    → Dict.lookup c.host hosts ≡ none
    → Backed hosts cs
    → Backed (Dict.insert c.host c hosts) cs
Backed-insert hosts [] c n b = tt
Backed-insert hosts (x ∷ cs) c n b =
    (ground (arith, Dict.lookup-insert x.host c.host c hosts n), Backed-insert hosts cs c n b.1)

pub In-append_left : (c : Channel) (cs ds : List Channel) → In c cs → In c (cs ++ ds)
In-append_left c [] ds i = elim i [ ]
In-append_left c (x ∷ cs) ds (inl e) = inl e
In-append_left c (x ∷ cs) ds (inr i) = inr (In-append_left c cs ds i)

pub In-snoc : (cs : List Channel) (c : Channel) → In c (cs ++ (c ∷ []))
In-snoc [] c = inl refl
In-snoc (x ∷ cs) c = inr (In-snoc cs c)

pub All-In {ℓ} : (P : Channel → Type ℓ) (cs : List Channel) (c : Channel) → All P cs → In c cs → P c
All-In P [] c h i = elim i [ ]
All-In P (x ∷ cs) c h (inl e) = subst P (sym e) h.0
All-In P (x ∷ cs) c h (inr i) = All-In P cs c h.1 i

-- Objects of the vector at one address are one channel.
pub address_inj :
    (cs : List Channel) (c d : Channel)
    → Distinct cs
    → In c cs
    → In d cs
    → c.address ≡ d.address
    → c ≡ d
address_inj [] c d u i _ e = elim i [ ]
address_inj (x ∷ cs) c d u (inl p) (inl q) e = p ∙ sym q
address_inj (x ∷ cs) c d u (inl p) (inr j) e =
    absurd
      (All-In (λ d. x.address ≢ d.address) cs d u.0 j (ap (λ (r : Channel). r.address) (sym p) ∙ e))
address_inj (x ∷ cs) c d u (inr i) (inl q) e = absurd (
    All-In (λ d. x.address ≢ d.address) cs c u.0 i
      (ap (λ (r : Channel). r.address) (sym q) ∙ sym e))
address_inj (x ∷ cs) c d u (inr i) (inr j) e = address_inj cs c d u.1 i j e

-- The channel that `append` makes.
abbrev pub opened : ℕ → Str → Channel
opened next host = record { address = next; host = host }

-- A node that comes up on a host that is not on record keeps the object valid.
pub append-IsValid :
    (failed : Bool) (next : ℕ) (host : Str) (sc : ServiceChannel)
    → Dict.lookup host sc.hosts ≡ none
    → IsValid next sc
    → IsValid (next + 1) (append failed next host sc)
unfolding append
append-IsValid true next host sc n v = record {
  below = All-mono _ _ sc.channels (λ c h. omega arith) v.below;
  distinct = v.distinct;
  backed = v.backed;
  hosted = v.hosted;
}
append-IsValid false next host sc n v = record {
  below =
      All-append (λ c. c.address < next + 1) sc.channels _
        (All-mono (λ c. c.address < next) (λ c. c.address < next + 1) sc.channels
          (λ c h. omega arith) v.below)
        (omega arith, tt);
  distinct = Distinct-snoc sc.channels _ v.below v.distinct;
  backed =
      All-append (λ c. Dict.lookup c.host (Dict.insert host (opened next host) sc.hosts) ≡ some c)
        sc.channels _ (Backed-insert sc.hosts sc.channels (opened next host) n v.backed)
        (rw (Dict.lookup-insert host host (opened next host) sc.hosts n) (ground arith), tt);
  hosted = λ h c e. elim (Str-discrete h host) [
    | yes p ↦
        let found : some (opened next host) ≡ some c =
          ground (arith, e, Dict.lookup-insert h host (opened next host) sc.hosts n) in
        let made : opened next host ≡ c = cc in
        subst (λ d. (d.host ≡ h) × In d (sc.channels ++ (opened next host ∷ []))) made
          (sym p, In-snoc sc.channels _)
    | no q ↦
        let old =
          v.hosted h c
            (ground (arith, e, Dict.lookup-insert h host (opened next host) sc.hosts n)) in
        (old.0, In-append_left c sc.channels _ old.1)
  ];
}

pub IsValid-mono : (m n : ℕ) (sc : ServiceChannel) → m ≤ n → IsValid m sc → IsValid n sc
IsValid-mono m n sc h v = record {
  below =
      All-mono (λ c. c.address < m) (λ c. c.address < n) sc.channels (λ c l. omega arith) v.below;
  distinct = v.distinct;
  backed = v.backed;
  hosted = v.hosted;
}

pub service_channel-IsValid : (next : ℕ) (name : Str) → IsValid next (service_channel name)
unfolding Dict.lookup
service_channel-IsValid next name = record {
  below = tt;
  distinct = tt;
  backed = tt;
  hosted = λ h c e. absurd (none-ne-some c e);
}

-- A successful `append` puts the host at the end of the rotation.
pub hosts_of-append :
    (next : ℕ) (host : Str) (sc : ServiceChannel)
    → hosts_of (append false next host sc) ≡ hosts_of sc ++ (host ∷ [])
unfolding append
hosts_of-append next host sc =
    map-append (λ (c : Channel). c.host) sc.channels (opened next host ∷ [])
