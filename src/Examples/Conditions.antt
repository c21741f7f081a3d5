-- ===== src/Examples/Conditions.antt =====
-- pthread/condition_signal.c at a concrete schedule.
use unix_demos.Base.{some, false, [], ◌∷◌}
use unix_demos.Condition.{Consumer, Producer, System, msg, task_line}

abbrev finished : System
finished = record {
  qlock = false;
  tp = some msg;
  out = task_line msg ∷ [];
  consumer = Consumer.returned;
  producer = Producer.returned;
}
