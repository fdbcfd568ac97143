-- ===== src/Firmware/Ready.antt =====
-- firmware/app/tasks.c: the system when the scheduler starts.
use tp5_borda_rojas.Base.{some, [], ◌≡◌, refl, append-nil}
use tp5_borda_rojas.Queue.{QueueApi}
use tp5_borda_rojas.Actuators.{Gpio}
use tp5_borda_rojas.Tasks.ParserTask.{parser_rounds}
use tp5_borda_rojas.Tasks.Session.{AppEnv, app_rounds, tx_rounds}
use tp5_borda_rojas.Tasks.Session.History.{tx_buffers}
use tp5_borda_rojas.Firmware.{System, ByteQueue}
use tp5_borda_rojas.Firmware.Flow.{Flow}
use tp5_borda_rojas.Firmware.Sized.{Lengths, Sized}
use tp5_borda_rojas.Firmware.Waits.{Roomy}
use tp5_borda_rojas.Firmware.Stuck.{Idle}

module _ (queues : (A : Type 0) → QueueApi A) (gpio : Gpio) (env : AppEnv) where
  -- The interrupt has its queue, the five queues have these lengths and are empty, and no task holds anything.
  pub record Ready (n : Lengths) (start : System queues gpio) : Type 0 where
    pub queue : ByteQueue queues gpio
    pub attached : start.uart.rx_queue ≡ some queue
    pub idle : Idle queues gpio env start
    pub first : start.handled ≡ 0
    pub sized : Sized queues gpio env n start
    pub roomy : Roomy n

  -- From here on every byte is accounted for.
  pub Ready-Flow :
      (n : Lengths) (start : System queues gpio)
      → Ready n start
      → Flow queues gpio env start start []
  unfolding parser_rounds app_rounds tx_rounds tx_buffers
  Ready-Flow n start k = record {
    past = record { consumed = []; seen = []; sends = []; sent = []; applied = [] };
    queue = k.queue;
    bytes_flow =
        (k.attached, rw (k.idle.parser_queue, k.idle.rx_held, k.idle.isr k.queue k.attached) refl);
    messages_flow = rw (k.idle.app_queue, k.idle.parser_sends) refl;
    handling_flow = (refl, k.first);
    replies_flow = rw (k.idle.tx_queue, k.idle.app_sends) refl;
    commands_flow = rw (k.idle.actuator_queue, k.idle.app_sends) refl;
    line_flow = (rw append-nil refl, refl, refl);
    pin_flow = refl;
  }
