-- ===== src/Channel/Erase.antt =====
-- The channels that `erase_channel` leaves.

use cpp_microservice_im.Base.{sym, ◌++◌}
use cpp_microservice_im.Base.{
  ℕ, ◌≡◌, ◌≢◌, ap, ◌∙◌, List, [], ◌∷◌, arith, ◌⊎◌, Bool-cases, eqb, All, All-mono, inl, inr,
}
use cpp_microservice_im.Channel.{Channel, erase_channel}
use cpp_microservice_im.Channel.Rotation.{Distinct, In}

pub erase_channel-All {ℓ} :
    (P : Channel → Type ℓ) (a : ℕ) (cs : List Channel) → All P cs → All P (erase_channel a cs)
unfolding erase_channel
erase_channel-All P a [] h = tt
erase_channel-All P a (c ∷ cs) h = elim (Bool-cases (eqb c.address a)) [
  | inl e ↦ rw e h.1
  | inr e ↦ rw e (h.0, erase_channel-All P a cs h.1)
]

pub erase_channel-Distinct :
    (a : ℕ) (cs : List Channel) → Distinct cs → Distinct (erase_channel a cs)
unfolding erase_channel
erase_channel-Distinct a [] h = tt
erase_channel-Distinct a (c ∷ cs) h = elim (Bool-cases (eqb c.address a)) [
  | inl e ↦ rw e h.1
  | inr e ↦
      rw e
        (erase_channel-All (λ d. c.address ≢ d.address) a cs h.0, erase_channel-Distinct a cs h.1)
]

pub erase_channel-In :
    (a : ℕ) (d : Channel) (cs : List Channel) → d.address ≢ a → In d cs → In d (erase_channel a cs)
unfolding erase_channel
erase_channel-In a d [] n i = elim i [ ]
erase_channel-In a d (c ∷ cs) n (inl e) = elim (Bool-cases (eqb c.address a)) [
  | inl q ↦ absurd (n (ap (λ (r : Channel). r.address) e ∙ ground arith))
  | inr q ↦ rw q (inl e)
]
erase_channel-In a d (c ∷ cs) n (inr i) = elim (Bool-cases (eqb c.address a)) [
  | inl q ↦ rw q i
  | inr q ↦ rw q (inr (erase_channel-In a d cs n i))
]

pub erase_channel_sub :
    (a : ℕ) (d : Channel) (cs : List Channel) → In d (erase_channel a cs) → In d cs
unfolding erase_channel
erase_channel_sub a d [] i = elim i [ ]
erase_channel_sub a d (c ∷ cs) i = elim (Bool-cases (eqb c.address a)) [
  | inl q ↦ inr (rw (q, erase_channel) at i)
  | inr q ↦
      let j : (d ≡ c) ⊎ In d (erase_channel a cs) = rw (q, erase_channel) at i in
      elim j [ inl e ↦ inl e | inr k ↦ inr (erase_channel_sub a d cs k) ]
]

pub erase_channel_gone :
    (a : ℕ) (cs : List Channel) → Distinct cs → All (λ d. d.address ≢ a) (erase_channel a cs)
unfolding erase_channel
erase_channel_gone a [] u = tt
erase_channel_gone a (c ∷ cs) u = elim (Bool-cases (eqb c.address a)) [
  | inl q ↦ rw q (
      All-mono (λ d. c.address ≢ d.address) (λ d. d.address ≢ a) cs (λ d n e. n (ground arith)) u.0)
  | inr q ↦ rw q ((λ e. ground arith), erase_channel_gone a cs u.1)
]

-- The channel is taken out of the part that it stands in.
pub erase_channel-snoc :
    (c o : Channel) (cs : List Channel)
    → In c cs
    → erase_channel c.address (cs ++ (o ∷ [])) ≡ erase_channel c.address cs ++ (o ∷ [])
unfolding erase_channel
erase_channel-snoc c o [] i = elim i [ ]
erase_channel-snoc c o (d ∷ cs) (inl e) =
    let same : d.address ≡ c.address = ap (λ (r : Channel). r.address) (sym e) in ground arith
erase_channel-snoc c o (d ∷ cs) (inr i) = ground (arith, erase_channel-snoc c o cs i)
