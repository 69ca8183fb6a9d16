-- ===== src/User/Calls/Process.antt =====
-- The process of the user service: the threads that serve its calls, and the watcher's thread. Between
-- two operations of one thread any other may run.
use cpp_microservice_im.Base.{ℕ, suc, ◌≡◌, Str, Bool, Option, none, some, List, [], ◌∷◌, ◌++◌}
use cpp_microservice_im.Base.Outcome.{M}
use cpp_microservice_im.Channel.{ServiceManager}
use cpp_microservice_im.Etcd.{Event}
use cpp_microservice_im.Etcd.Threads.{Task, task_of, find_service, finish}
use cpp_microservice_im.User.Calls.{Call, Answers, handler}
use cpp_microservice_im.User.Calls.Closed.{Closed, Removes, advance-Closed}
use cpp_microservice_im.User.Calls.Parts.{Parts, Rest, left, advance}
use cpp_microservice_im.User.Env.{Env, World}

-- A thread, with the type of its answer.
abbrev pub Thread : (E : Env) → (Str → Type 0) → Type 1
Thread E R = (A : Type 0) × Rest E R A

-- `handled` and `current` are the watcher's, as in Etcd/Threads.
pub record Process (E : Env) (R : Str → Type 0) : Type 1 where
  pub world : World E
  pub threads : List (Thread E R)
  pub handled : List Event
  pub current : Option (Event × Option Task)

module _ (E : Env) (failed : ℕ → Str → Bool) (R : Str → Type 0) where
  -- A request comes in at any moment, with any fields, but for the keys that it may remove.
  pub data Step (s : Process E R) : Process E R → Type 1 where
    arrive :
        (c : Call) (p : Parts E R (Answers c) (handler E c))
        → Removes R c
        → Step s (record s { threads = s.threads ++ ((Answers c, left p) ∷ []) })
    proceed :
        (before after : List (Thread E R)) (A : Type 0) (m : M (World E) A) (p : Parts E R A m)
        → s.threads ≡ before ++ ((A, left p) ∷ after)
        → Step s (record s {
          world = (advance E R p s.world).1;
          threads = before ++ ((A, (advance E R p s.world).0) ∷ after);
        })
    begin :
        (ev : Event)
        → s.current ≡ none
        → Step s (record s {
          world = record s.world { mm_channels = find_service ev s.world.mm_channels };
          current = some (ev, task_of failed ev s.world.mm_channels);
        })
    commit :
        (ev : Event) (t : Option Task)
        → s.current ≡ some (ev, t)
        → Step s (record s {
          world = record s.world { mm_channels = finish t s.world.mm_channels };
          handled = s.handled ++ (ev ∷ []);
          current = none;
        })

  -- From any threads that are under way.
  pub data Reach (w : World E) (ts : List (Thread E R)) : Process E R → Type 1 where
    start : Reach w ts (record { world = w; threads = ts; handled = []; current = none })
    later : {s t : Process E R} → Reach w ts s → Step s t → Reach w ts t

  -- How many steps a run has.
  abbrev pub steps : {w : World E} {ts : List (Thread E R)} {s : Process E R} → Reach w ts s → ℕ
  steps start = 0
  steps (later r st) = suc (steps r)

  -- What the operations of the clients keep, and any change of the channels keeps, every run keeps.
  pub Reach-Closed :
      (P : ℕ → World E → Type 0)
      → Closed E R P
      → ((n : ℕ) (w : World E) (m : ServiceManager)
          → P n w
          → P (suc n) (record w { mm_channels = m }))
      → (w : World E) (ts : List (Thread E R)) (s : Process E R) (r : Reach w ts s) → P 0 w
      → P (steps r) s.world
  Reach-Closed P C free w ts _ start h = h
  Reach-Closed P C free w ts _ (later {s} {t} r st) h =
      stepped s t (steps r) st (Reach-Closed P C free w ts s r h)
    where
      stepped : (s t : Process E R) (n : ℕ) → Step s t → P n s.world → P (suc n) t.world
      stepped s _ n (arrive c p x) k = C.mono n s.world k
      stepped s _ n (proceed before after A m p e) k = advance-Closed E R P C p n s.world k
      stepped s _ n (begin ev e) k = free n s.world (find_service ev s.world.mm_channels) k
      stepped s _ n (commit ev t e) k = free n s.world (finish t s.world.mm_channels) k
