-- ===== src/Flows/Cycle/Total.antt =====
-- collector.py, `cycle`: how it ends.
use home_lab.Flows.Runtime.{Config, Python, Outcome, ok, raised, Result, Env}
use home_lab.Flows.Io.{Io}
use home_lab.Flows.Times.{IsTimeError}

module _ (python : Python) (env : Env) (config : Config) where
  -- A result, or an error that nothing catches
  abbrev Finishes : Outcome Result → Type 0
  Finishes (ok r) = Unit
  Finishes (raised e) = IsTimeError e
