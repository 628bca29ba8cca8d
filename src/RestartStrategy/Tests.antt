-- ===== src/RestartStrategy/Tests.antt =====
-- At most two restarts in ten seconds.
use klein.Base.{◌≡◌, refl, false, List, [], ◌∷◌, ok, arith}
use klein.Base.Int.{pos}
use klein.RestartStrategy.{
  FixedDelayRestartStrategy, fixed_delay_restart_strategy, record_and_should_suppress, window_view,
  popleft_expired,
}
use klein.RestartStrategy.Window.{
  Call, restarted, viewed, step, run, record_and_should_suppress-run,
}

abbrev strategy : FixedDelayRestartStrategy
strategy = record { max_attempts = 2; count_interval = 10000000; delay = 500000; window = [] }

made : fixed_delay_restart_strategy (pos 2) (pos 10000000) (pos 500000) ≡ ok strategy
unfolding fixed_delay_restart_strategy
made = refl

abbrev calls : List Call
calls = restarted 100 ∷ viewed 103 ∷ restarted 108 ∷ []

-- The restart of 100 has expired at 111.
third : (record_and_should_suppress (run strategy calls) 111).0 ≡ (false, 2)
unfolding run step record_and_should_suppress window_view popleft_expired
third = refl

record_and_should_suppress-run_example :
    (record_and_should_suppress (run strategy calls) 111).0 ≡ (false, 2)
record_and_should_suppress-run_example =
    record_and_should_suppress-run (pos 2) (pos 10000000) (pos 500000) strategy calls 111 made
      (omega arith, (omega arith, omega arith))
