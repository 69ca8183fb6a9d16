-- ===== src/Mq/Shutdown.antt =====
-- The end of the loop's thread.
use cpp_microservice_im.Base.{List}
use cpp_microservice_im.Mq.{Amqp, Notice, Ending, waiting, broken, exited, thrown, run}

-- A thread that waits is woken; one that has ended, has.
abbrev pub awake : Ending → Ending
awake waiting = broken
awake broken = broken
awake exited = exited
awake (thrown e) = thrown e

module _ (A : Amqp) {S : Type 0} where
  -- A thread that waits goes on with the notices that come next.
  abbrev resume : List (Notice S) → Ending × (A.State × S) → Ending × (A.State × S)
  resume ns (waiting, x) = run A ns x
  resume ns (broken, x) = (broken, x)
  resume ns (exited, x) = (exited, x)
  resume ns (thrown e, x) = (thrown e, x)
