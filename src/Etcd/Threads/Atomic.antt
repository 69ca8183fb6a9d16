-- ===== src/Etcd/Threads/Atomic.antt =====
-- The runs of the threads against runs of whole operations.
use mathlib.Core.Option.{some-injective}
use cpp_microservice_im.Base.{
  ℕ, ◌≡◌, refl, sym, ap, subst, ◌∙◌, Str, Bool, Option, none, some, List, [], ◌∷◌, ◌++◌, arith,
  Option-cases, inl, inr,
}
use cpp_microservice_im.Channel.{ServiceManager, obtain, on_service_online, on_service_offline}
use cpp_microservice_im.Etcd.{Event, handle_all}
use cpp_microservice_im.Etcd.Threads.{
  Task, task_of, find_service, finish, System, Step, begin, commit, call, Reach, start, later,
}
use cpp_microservice_im.Etcd.Threads.Regions.{operation, regions_lem}
use cpp_microservice_im.Etcd.Threads.View.{
  Agrees, Agrees-obtain, finish-Agrees, find_service-Agrees, obtain-find_service, task_of-Agrees,
  choose_service-Agrees,
}

handle_all-snoc :
    (failed : ℕ → Str → Bool) (evs : List Event) (ev : Event) (m : ServiceManager)
    → handle_all (some (on_service_online failed)) (some on_service_offline) (evs ++ (ev ∷ [])) m
      ≡ operation failed ev
          (handle_all (some (on_service_online failed)) (some on_service_offline) evs m)
unfolding handle_all
handle_all-snoc failed [] ev m = refl
handle_all-snoc failed (x ∷ evs) ev m = handle_all-snoc failed evs ev (operation failed x m)

module _ (failed : ℕ → Str → Bool) (m₀ : ServiceManager) where
  -- The manager after these events, each handled in one go.
  abbrev pub after : List Event → ServiceManager
  after evs = handle_all (some (on_service_online failed)) (some on_service_offline) evs m₀

  record IsAtomic (s : System) : Type 0 where
    idle : s.current ≡ none → Agrees s.manager (after s.handled)
    busy :
        (ev : Event) (t : Option Task)
        → s.current ≡ some (ev, t)
        → Agrees s.manager (find_service ev (after s.handled))
          × (t ≡ task_of failed ev (after s.handled))

  after-snoc :
      (evs : List Event) (ev : Event) → after (evs ++ (ev ∷ [])) ≡ operation failed ev (after evs)
  after-snoc evs ev = handle_all-snoc failed evs ev m₀

  Step-IsAtomic : (s t : System) → IsAtomic s → Step failed s t → IsAtomic t
  Step-IsAtomic s _ i (begin ev e) = record {
    idle = λ e'. absurd (ground arith);
    busy = λ ev' t e'.
        subst
          (λ p.
            Agrees (find_service ev s.manager) (find_service p.0 (after s.handled))
            × (p.1 ≡ task_of failed p.0 (after s.handled)))
          (some-injective _ _ e')
          (
            find_service-Agrees ev s.manager (after s.handled) (i.idle e),
            task_of-Agrees failed ev s.manager (after s.handled) (i.idle e),
          );
  }
  Step-IsAtomic s _ i (commit ev t e) = record {
    idle = λ e'.
        let (agreed, same) = i.busy ev t e in
        subst (Agrees (finish t s.manager))
          (ap (λ t'. finish t' (find_service ev (after s.handled))) same
            ∙ regions_lem failed ev (after s.handled)
            ∙ sym (after-snoc s.handled ev))
          (finish-Agrees t s.manager (find_service ev (after s.handled)) agreed);
    busy = λ ev' t' e'. absurd (ground arith);
  }
  Step-IsAtomic s _ i (call name) = record {
    idle = λ e. choose_service-Agrees name s.manager _ (i.idle e);
    busy = λ ev t e.
        let (agreed, same) = i.busy ev t e in (choose_service-Agrees name s.manager _ agreed, same);
  }

  Reach-IsAtomic : (s : System) → Reach failed m₀ s → IsAtomic s
  unfolding handle_all
  Reach-IsAtomic _ start = record {
    idle = λ e. record { followed = refl; counted = refl; viewed = λ n. refl };
    busy = λ ev t e. absurd (ground arith);
  }
  Reach-IsAtomic _ (later {s} {t} r st) = Step-IsAtomic s t (Reach-IsAtomic s r) st

  -- However calls of `choose` and the regions of the watcher's thread interleave, once no event is
  -- half handled the manager is the one after the same events handled in one go each, but for the
  -- counters that say whose turn it is.
  pub interleaved_atomic :
      (s : System) → Reach failed m₀ s → s.current ≡ none → Agrees s.manager (after s.handled)
  interleaved_atomic s r e = (Reach-IsAtomic s r).idle e

  -- An event that is half handled has not changed a rotation yet.
  pub rotation_atomic :
      (name : Str) (s : System)
      → Reach failed m₀ s
      → (obtain name s.manager).channels ≡ (obtain name (after s.handled)).channels
  rotation_atomic name s r = elim (Option-cases s.current) [
    | inl e ↦
        ap (λ sc. sc.channels)
          (Agrees-obtain s.manager (after s.handled) name ((Reach-IsAtomic s r).idle e))
    | inr ((ev, t), e) ↦
        let (agreed, _) = (Reach-IsAtomic s r).busy ev t e in
        ap (λ sc. sc.channels) (Agrees-obtain s.manager _ name agreed)
        ∙ ap (λ sc. sc.channels) (obtain-find_service name ev (after s.handled))
  ]
