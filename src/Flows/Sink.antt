-- ===== src/Flows/Sink.antt =====
-- collector.py, `class Sink`: VictoriaLogs' JSON lines endpoint and the checkpoint query.
use home_lab.Prelude.{
  ℕ, Bool, false, ◌&&◌, Option, none, some, List, [], ◌∷◌, leb, ltb, ◌==◌, if◌then◌else◌,
}
use home_lab.Flows.Runtime.{
  Outcome, ok, raised, ingest_failed, state_unavailable, unexpected, Line, Delivery, status, Stored,
  blank, watermark, invalid, wrong_type, Found, found, Env, ingested, queried,
}
use home_lab.Flows.Io.{Io}
use home_lab.Flows.Console.{Link}

-- `200 <= status < 300`
abbrev pub is_accepted : Delivery → Bool
is_accepted (status n) = leb 200 n && ltb n 300
is_accepted Delivery.os_error = false

-- The first line that is not blank; `int` and the lookup raise ValueError or KeyError, which are
-- caught here, or a TypeError, which is not.
abbrev pub first_watermark : List Stored → Outcome (Option ℕ)
first_watermark [] = ok none
first_watermark (blank ∷ lines) = first_watermark lines
first_watermark (watermark n ∷ lines) = ok (some n)
first_watermark (invalid ∷ lines) = raised state_unavailable
first_watermark (wrong_type ∷ lines) = raised unexpected

-- The end of `last_watermark`, from VictoriaLogs' answer.
abbrev pub watermark_of : Found → Outcome (Option ℕ)
watermark_of (found n lines) = if n == 200 then first_watermark lines else raised state_unavailable
watermark_of Found.os_error = raised state_unavailable

module _ (env : Env) where
  unfoldable pub write : List Line → Io Link (Unit {0})
  write lines l =
      let delivery = env.ingest lines l.history in
      (
        if is_accepted delivery then ok tt else raised ingest_failed,
        record l { history = ingested lines delivery ∷ l.history },
      )

  unfoldable pub last_watermark : Io Link (Option ℕ)
  last_watermark l =
      let answer = env.query l.history in
      (watermark_of answer, record l { history = queried answer ∷ l.history })
