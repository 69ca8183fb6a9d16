-- ===== src/Mq/Delivery.antt =====
-- Which messages are handled and acknowledged.
use cpp_microservice_im.Base.{ℕ, ◌≡◌, refl, ap, ◌∙◌, List, [], ◌∷◌, ◌++◌, arith, inl, inr, ◌⊎◌}
use cpp_microservice_im.Base.Outcome.{Outcome, done, crash, Fault, M, pure, ◌>>◌, bind_done}
use cpp_microservice_im.Mq.{
  Amqp, Notice, succeeded, failed, woken, received, Ending, waiting, broken, exited, thrown,
  Message, MessageCallback, on_received, run,
}

-- The messages of a run, and their callbacks one after the other, without acknowledgements.
abbrev pub tags : {S : Type 0} → List (Notice S) → List ℕ
tags [] = []
tags (received cb message ∷ ns) = message.delivery_tag ∷ tags ns
tags (succeeded ∷ ns) = tags ns
tags (failed ∷ ns) = tags ns
tags (woken ∷ ns) = tags ns

abbrev pub callbacks : {S : Type 0} → List (Notice S) → M S (Unit {0})
callbacks [] = pure tt
callbacks (received cb message ∷ ns) = cb message.body >> callbacks ns
callbacks (succeeded ∷ ns) = callbacks ns
callbacks (failed ∷ ns) = callbacks ns
callbacks (woken ∷ ns) = callbacks ns

-- Neither an error nor the destructor.
abbrev pub Quiet : {S : Type 0} → List (Notice S) → Type 0
Quiet [] = Unit
Quiet (received cb message ∷ ns) = Quiet ns
Quiet (succeeded ∷ ns) = Quiet ns
Quiet (failed ∷ ns) = ⊥
Quiet (woken ∷ ns) = ⊥

-- The notice that ends a run, from the owner's state before it to the one after it.
pub data Ends {S : Type 0} (s : S) : List (Notice S) → Ending → S → Type 0 where
  at_end : Ends s [] waiting s
  on_error : (ns : List (Notice S)) → Ends s (failed ∷ ns) exited s
  on_wake : (ns : List (Notice S)) → Ends s (woken ∷ ns) broken s
  on_throw :
      (cb : MessageCallback S) (message : Message) (ns : List (Notice S)) (e : Fault) (t : S)
      → cb message.body s ≡ (crash e, t)
      → Ends s (received cb message ∷ ns) (thrown e) t

pub ended :
    {S : Type 0} (p : Outcome (Unit {0}) × S)
    → ((t : S) × (p ≡ (done tt, t))) ⊎ ((e : Fault) × (t : S) × (p ≡ (crash e, t)))
ended (done tt, t) = inl (t, refl)
ended (crash e, t) = inr (e, t, refl)

module _ (A : Amqp) where
  abbrev pub ack_all : List ℕ → A.State → A.State
  ack_all [] channel = channel
  ack_all (tag ∷ later) channel = ack_all later (A.ack tag channel)

  module _ {S : Type 0} where
    -- A run, cut where it ends.
    abbrev pub Cut : List (Notice S) → A.State → S → Type 0
    Cut notices channel s =
        (before : List (Notice S)) × (after : List (Notice S)) × (ending : Ending) × (s₁ : S)
        × (s₂ : S) × (notices ≡ before ++ after)
        × Quiet before
        × (callbacks before s ≡ (done tt, s₁))
        × Ends s₁ after ending s₂
        × (run A notices (channel, s) ≡ (ending, (ack_all (tags before) channel, s₂)))

    -- A run of the loop goes up to the first error, the destructor, a callback that throws, or the last
    -- notice. The callbacks of the messages before that ran in order, each once, and these messages are
    -- acknowledged in the same order, each once; no other is, so a message whose callback throws is not.
    pub run_lem : (notices : List (Notice S)) (channel : A.State) (s : S) → Cut notices channel s
    unfolding run on_received
    run_lem [] channel s = ([], [], waiting, s, s, refl, tt, refl, at_end, refl)
    run_lem (failed ∷ ns) channel s =
        ([], failed ∷ ns, exited, s, s, refl, tt, refl, on_error ns, refl)
    run_lem (woken ∷ ns) channel s =
        ([], woken ∷ ns, broken, s, s, refl, tt, refl, on_wake ns, refl)
    run_lem (succeeded ∷ ns) channel s =
        let (before, after, ending, s₁, s₂, split, quiet, called, ends, ran) =
          run_lem ns channel s in
        (
          succeeded ∷ before,
          after,
          ending,
          s₁,
          s₂,
          ap (λ l. succeeded ∷ l) split,
          quiet,
          called,
          ends,
          ran,
        )
    run_lem (received cb message ∷ ns) channel s = elim (ended (cb message.body s)) [
      | inl (t, e) ↦
          let (before, after, ending, s₁, s₂, split, quiet, called, ends, ran) =
            run_lem ns (A.ack message.delivery_tag channel) t in
          (
            received cb message ∷ before,
            after,
            ending,
            s₁,
            s₂,
            ap (λ l. received cb message ∷ l) split,
            quiet,
            bind_done (cb message.body) (λ _. callbacks before) tt s t e ∙ called,
            ends,
            ground (arith, ran),
          )
      | inr (e, t, crashed) ↦ (
        [],
        received cb message ∷ ns,
        thrown e,
        s,
        t,
        refl,
        tt,
        refl,
        on_throw cb message ns e t crashed,
        ground arith,
      )
    ]
