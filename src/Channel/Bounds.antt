-- ===== src/Channel/Bounds.antt =====
-- The index that `ServiceChannel::choose` reads at.
use native.Mathlib.Nat.{mod-lt}
use cpp_microservice_im.Base.{
  ℕ, zero, suc, ◌%◌, ◌^◌, ◌<◌, ◌≡◌, ◌≢◌, refl, none, some, List, [], ◌∷◌, length, get_elem?, arith,
  inl, inr,
}
use cpp_microservice_im.Channel.{Channel, ServiceChannel, choose, to_size}
use cpp_microservice_im.Channel.Rotation.{In}

get_elem?-In :
    (cs : List Channel) (i : ℕ)
    → i < length cs
    → (c : Channel) × (get_elem? cs i ≡ some c) × In c cs
get_elem?-In [] i h = absurd (ground arith)
get_elem?-In (c ∷ cs) zero h = (c, refl, inl refl)
get_elem?-In (c ∷ cs) (suc i) h =
    let (d, e, there) = get_elem?-In cs i (omega arith) in (d, e, inr there)

idx_lt : (w n : ℕ) → 0 < n → n < 2 ^ 31 → to_size (w % n % 2 ^ 32) < n
idx_lt w n h small = let inside = mod-lt w h in ground (arith, inside)

length_pos : (cs : List Channel) → cs ≢ [] → 0 < length cs
length_pos [] n = absurd (n refl)
length_pos (c ∷ cs) n = omega arith

-- Whatever the counter is, also where it is negative, a call on fewer than 2 ^ 31 channels reads inside
-- the vector, and so returns a channel in rotation; on none it returns a null pointer.
pub choose-In :
    (sc : ServiceChannel)
    → length sc.channels < 2 ^ 31
    → (sc.channels ≢ [] → (c : Channel) × ((choose sc).0 ≡ some c) × In c sc.channels)
      × (sc.channels ≡ [] → choose sc ≡ (none, sc))
unfolding choose
choose-In sc small = (
  λ n.
      let inside =
        idx_lt (to_size sc.index) (length sc.channels) (length_pos sc.channels n) small in
      let (c, e, there) = get_elem?-In sc.channels _ inside in
      let busy = length_pos sc.channels n in (c, ground arith, there),
  λ e. ground arith,
)
