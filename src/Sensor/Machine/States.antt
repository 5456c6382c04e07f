-- ===== src/Sensor/Machine/States.antt =====
-- The order of the states, and what ends them.
use ur5_ros.Sensor.Modbus.{fc_16_frame}
use mathlib.Core.Path.{subst}
use ur5_ros.Common.{
  ℕ, ◌+◌, ◌≡◌, refl, Bool, true, false, Option, some, none, ◌∷◌, List, ◌∙◌, if◌then◌else◌, [], ◌%◌,
  ◌^◌, leb, ltb, ◌++◌, by_false, by_true,
}
use ur5_ros.Common.Double.{ℤ}
use ur5_ros.Sensor.Listen.{Sensor, listen_stream}
use ur5_ros.Sensor.Machine.{
  State, init, read_info, start_stream, run, Driver, Meets, Reads, rq_sensor_state, put_sensor,
  wait_for_stream, after_request, com_start_stream, send_fc_16, state_init, state_run,
  state_start_stream, by_state, fc_16_frame,
}

-- The successors of a state, with whether the call reports success.
pub data Next : State → Bool → State → Type 0 where
  not_connected : Next init false init
  now_connected : Next init true read_info
  info_read : Next read_info true start_stream
  started : Next start_stream true run
  running : Next run true run
  stopped : Next run true init

module _ {F : Type 0} (quotient : ℤ → ℕ → F) where
  -- The sensor after listening to each of the reads.
  unfoldable pub listened : Reads → Sensor F → Sensor F
  listened [] s = s
  listened (r ∷ rs) s = listened rs (listen_stream quotient r s)

  -- After none of the reads is a stream detected.
  unfoldable pub Unheard : Reads → Sensor F → Type 0
  Unheard [] s = Unit {0}
  Unheard (r ∷ rs) s =
      ((listen_stream quotient r s).stream_detected ≡ false)
      × Unheard rs (listen_stream quotient r s)

  wait_for_stream-none :
      (reads : Reads) (s : Sensor F) → Unheard reads s → wait_for_stream quotient 0 reads s ≡ none
  unfolding wait_for_stream Unheard ltb
  wait_for_stream-none [] s u = refl
  wait_for_stream-none (r ∷ rs) s u =
      let heard : Sensor F = listen_stream quotient r s in
      by_false heard.stream_detected (some (true, heard)) (wait_for_stream quotient 0 rs heard) u.0
      ∙ wait_for_stream-none rs heard u.1

  wait_for_stream-some :
      (reads : Reads) (r : Option (List ℕ)) (rest : Reads) (s : Sensor F)
      → Unheard reads s
      → (listen_stream quotient r (listened reads s)).stream_detected ≡ true
      → wait_for_stream quotient 0 (reads ++ r ∷ rest) s
        ≡ some (true, listen_stream quotient r (listened reads s))
  unfolding wait_for_stream Unheard listened ltb
  wait_for_stream-some [] r rest s u h =
      let heard : Sensor F = listen_stream quotient r s in
      by_true heard.stream_detected (some (true, heard)) (wait_for_stream quotient 0 rest heard) h
  wait_for_stream-some (x ∷ xs) r rest s u h =
      let heard : Sensor F = listen_stream quotient x s in
      by_false heard.stream_detected (some (true, heard))
        (wait_for_stream quotient 0 (xs ++ r ∷ rest) heard) u.0
      ∙ wait_for_stream-some xs r rest heard u.1 h

  -- `com_start_stream` whose request is not answered listens until a stream is detected: while none
  -- is, it has not returned, however many reads there were, and at the first read with one it
  -- returns 0, with the request written and with what the listens have left.
  pub com_start_stream-unbounded :
      (answers : ℕ → List ℕ) (reads : Reads) (d : Driver F)
      → (send_fc_16 answers d.echo_16).0 ≡ false
      → Unheard reads d.sensor
      → (com_start_stream quotient answers reads d ≡ none)
        × ((r : Option (List ℕ)) (rest : Reads)
            → (listen_stream quotient r (listened reads d.sensor)).stream_detected ≡ true
            → com_start_stream quotient answers (reads ++ r ∷ rest) d
              ≡ some (
                true,
                record d {
                  sensor = listen_stream quotient r (listened reads d.sensor);
                  echo_16 = (send_fc_16 answers d.echo_16).1;
                  written = d.written ++ fc_16_frame 410 2 (0x0200 ∷ []);
                },
              ))
  unfolding com_start_stream after_request put_sensor
  com_start_stream-unbounded answers reads d a u = (
    rw (a, wait_for_stream-none reads d.sensor u),
    λ r rest h. rw (a, wait_for_stream-some reads r rest d.sensor u h),
  )

  Follows : State → Option (Bool × Driver F) → Type 0
  Follows s none = Unit {0}
  Follows s (some (b, d)) = Next s b d.current_state

  init-Follows :
      (m : Meets quotient) (d : Driver F)
      → d.current_state ≡ init
      → Follows init (some (state_init quotient m d))
  unfolding Follows state_init
  init-Follows m d e = by_result m.connected
    where
      by_result :
          (c : Bool)
          → Follows init (
              some (
                if c
                then (
                  true,
                  record m.connected_driver { current_state = read_info; retries = d.retries },
                )
                else (
                  false,
                  record m.connected_driver {
                    current_state = d.current_state;
                    retries = d.retries;
                  },
                )))
      by_result true = now_connected
      by_result false = rw (e) not_connected

  run-Follows :
      (max_retries : ℕ) (read : Option (List ℕ)) (d : Driver F)
      → d.current_state ≡ run
      → Next run true (state_run quotient max_retries read d).current_state
  unfolding state_run
  run-Follows max_retries read d e =
      by_stream (listen_stream quotient read d.sensor).valid_stream
        (leb max_retries ((d.retries + 1) % 2 ^ 32))
    where
      by_stream :
          (valid many : Bool)
          → Next run true
              (if valid
                then record d { sensor = listen_stream quotient read d.sensor; retries = 0 }
                else if many
                then record d {
                  sensor = listen_stream quotient read d.sensor;
                  current_state = init;
                  retries = 0;
                }
                else record d {
                  sensor = listen_stream quotient read d.sensor;
                  retries = (d.retries + 1) % 2 ^ 32;
                }).current_state
      by_stream true many = rw (e) running
      by_stream false true = stopped
      by_stream false false = rw (e) running

  start-Follows :
      (o : Option (Bool × Driver F)) → Follows start_stream (state_start_stream quotient o)
  unfolding Follows state_start_stream
  start-Follows none = tt
  start-Follows (some (false, d)) = started
  start-Follows (some (true, d)) = started

  by_state-Follows :
      (s : State) (m : Meets quotient) (d : Driver F)
      → d.current_state ≡ s
      → Follows s (by_state quotient s m d)
  unfolding by_state Follows
  by_state-Follows init m d e = init-Follows m d e
  by_state-Follows read_info m d e = info_read
  by_state-Follows start_stream m d e =
      start-Follows (com_start_stream quotient m.answers m.reads d)
  by_state-Follows run m d e = run-Follows m.max_retries m.read d e

  -- A call of `rq_sensor_state` that returns follows the order of the states: the search of the ports
  -- until it succeeds, the information, the start of the stream and the run, which leads back to the
  -- search. Only a search without success is reported as a failure; the start of the stream always leads to
  -- the run.
  pub rq_sensor_state-Next :
      (m : Meets quotient) (d d' : Driver F) (b : Bool)
      → rq_sensor_state quotient m d ≡ some (b, d')
      → Next d.current_state b d'.current_state
  unfolding rq_sensor_state Follows
  rq_sensor_state-Next m d d' b h =
      rewritten (by_state quotient d.current_state m d) h
        (by_state-Follows d.current_state m d refl)
    where
      rewritten :
          (o : Option (Bool × Driver F))
          → o ≡ some (b, d')
          → Follows d.current_state o
          → Next d.current_state b d'.current_state
      rewritten o e f = subst (Follows d.current_state) e f
