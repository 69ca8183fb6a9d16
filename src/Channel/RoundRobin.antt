-- ===== src/Channel/RoundRobin.antt =====
-- `ServiceChannel::choose` over a round of calls.
use cpp_microservice_im.Base.{
  ℕ, zero, suc, ◌+◌, ◌-◌, ◌%◌, ◌^◌, ◌≤◌, ◌<◌, ◌≡◌, refl, ap, ◌∙◌, Option, some, List, [], ◌∷◌, ◌++◌,
  map, arith, length, length-drop, take_all, get_elem?, drop-cons, take, drop,
}
use mathlib.Core.List.{map-append}
use native.Mathlib.Numerals.{one-add}
use native.Mathlib.Nat.{zero-add, suc-add, add_assoc}
use cpp_microservice_im.Channel.{Channel, ServiceChannel, choose}

mod_back : (i n : ℕ) → 0 < n → (i + (n - i % n)) % n ≡ 0
mod_back i n h = grind arith

-- What so many calls of `choose` in a row return, and the object that they leave.
pub picks : ℕ → ServiceChannel → List (Option Channel) × ServiceChannel
picks zero sc = ([], sc)
picks (suc n) sc = let (c, next) = choose sc in let (cs, last) = picks n next in (c ∷ cs, last)

mod_step : (i n : ℕ) → suc (i % n) < n → (i + 1) % n ≡ suc (i % n)
mod_step i n h = grind arith

mod_wrap : (i n : ℕ) → suc (i % n) ≡ n → (i + 1) % n ≡ 0
mod_wrap i n h = grind arith

-- The calls stay inside the vector, and the counter inside `int32_t`.
abbrev pub InRange : ℕ → ServiceChannel → Type 0
InRange n sc = (0 < length sc.channels) × (length sc.channels < 2 ^ 31) × (sc.index + n < 2 ^ 31)

choose_lem :
    (sc : ServiceChannel)
    → InRange 1 sc
    → choose sc
      ≡ (get_elem? sc.channels (sc.index % length sc.channels), record sc { index = sc.index + 1 })
unfolding choose
choose_lem sc h = ground (arith, idx_lem, next_lem)
  where
    idx_lem : sc.index % length sc.channels % 2 ^ 32 ≡ sc.index % length sc.channels
    idx_lem = grind arith

    next_lem : (sc.index + 1) % 2 ^ 32 ≡ sc.index + 1
    next_lem = omega arith

picks-add :
    (a b : ℕ) (sc : ServiceChannel)
    → picks (a + b) sc ≡ ((picks a sc).0 ++ (picks b (picks a sc).1).0, (picks b (picks a sc).1).1)
unfolding picks
picks-add zero b sc = rw zero-add
picks-add (suc a) b sc = rw suc-add (rw (picks-add a b (choose sc).1))

picks_zero : (sc : ServiceChannel) → picks 0 sc ≡ ([], sc)
unfolding picks
picks_zero sc = refl

picks_step :
    (m : ℕ) (sc next last : ServiceChannel) (c : Option Channel) (cs : List (Option Channel))
    → choose sc ≡ (c, next)
    → picks m next ≡ (cs, last)
    → picks (suc m) sc ≡ (c ∷ cs, last)
unfolding picks
picks_step m sc next last c cs p q = rw (p, q)

-- One more entry in front of a segment.
segment_step {ℓ} :
    {A : Type ℓ} (m k : ℕ) (xs : List A)
    → k < length xs
    → get_elem? xs k ∷ map some (take m (drop (suc k) xs)) ≡ map some (take (suc m) (drop k xs))
segment_step m k xs h = let (x, g, d) = drop-cons k xs h in rw (g, d)

-- Up to the end of the vector the calls return consecutive channels.
picks_segment :
    (m : ℕ) (sc : ServiceChannel)
    → InRange m sc
    → sc.index % length sc.channels + m ≤ length sc.channels
    → picks m sc ≡ (
      map some (take m (drop (sc.index % length sc.channels) sc.channels)),
      record sc { index = sc.index + m },
    )
picks_segment zero sc h e = rw picks_zero (ground arith)
picks_segment (suc zero) sc h e =
    picks_step zero sc _ _ _ _ (choose_lem sc h) (picks_zero _)
    ∙ rw (segment_step 0 (sc.index % length sc.channels) sc.channels (omega arith)) refl
picks_segment (suc (suc m)) sc h e =
    let step = mod_step sc.index (length sc.channels) (omega arith) in
    let rest =
      picks_segment (suc m) (record sc { index = sc.index + 1 }) (omega arith) (omega arith) in
    picks_step (suc m) sc _ _ _ _ (choose_lem sc (omega arith)) rest
    ∙ rw
        (
          step,
          add_assoc sc.index 1 (suc m),
          segment_step (suc m) (sc.index % length sc.channels) sc.channels (omega arith),
          one-add (suc m),
        )
        refl

pub rotate {ℓ} : {A : Type ℓ} → ℕ → List A → List A
rotate k xs = drop k xs ++ take k xs

-- While there are channels, fewer than 2 ^ 31, and the counter stays below 2 ^ 31, as many calls
-- as there are channels return each channel once, in the order of the vector from the counter's
-- place on, and leave all but the counter as it was.
pub picks_round :
    (sc : ServiceChannel)
    → InRange (length sc.channels) sc
    → picks (length sc.channels) sc ≡ (
      map some (rotate (sc.index % length sc.channels) sc.channels),
      record sc { index = sc.index + length sc.channels },
    )
unfolding rotate
picks_round sc h =
    ap (λ m. picks m sc) split
    ∙ picks-add (n - k) k sc
    ∙ rw
        (
          first,
          second,
          take_all (n - k) (drop k sc.channels) (omega (arith, length-drop k sc.channels)),
          map-append,
        )
        (ground (arith, regroup))
  where
    n : ℕ
    n = length sc.channels

    k : ℕ
    k = sc.index % n

    split : n ≡ n - k + k
    split = omega arith

    regroup : sc.index + (n - k) + k ≡ sc.index + n
    regroup = omega arith

    first :
        picks (n - k) sc
        ≡ (map some (take (n - k) (drop k sc.channels)), record sc { index = sc.index + (n - k) })
    first = picks_segment (n - k) sc (omega arith) (omega arith)

    back : (sc.index + (n - k)) % n ≡ 0
    back = mod_back sc.index n (omega arith)

    second :
        picks k (record sc { index = sc.index + (n - k) })
        ≡ (map some (take k sc.channels), record sc { index = sc.index + (n - k) + k })
    second = rw back at (
        picks_segment k (record sc { index = sc.index + (n - k) }) (omega arith)
          (omega (arith, back)))
