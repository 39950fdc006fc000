-- ===== src/Readiness/Tests.antt =====
-- The readiness gate at concrete inputs: a server of the Zig kind with two lanes, that renders "high"
-- and "low".
use home_lab.Prelude.{◌≡◌, refl, ℕ, true, false, none, some, String, List, [], ◌∷◌, str_eq, arith}
use home_lab.Prelude.Int.{pos}
use home_lab.Program.{ok}
use home_lab.Json.{Json, bool, int, str, arr, obj, nil, cons, end, field, Fields}
use home_lab.Readiness.Nearest.{
  Effort, max, xhigh, high, medium, low, minimal, no_effort, is_ranked, is_in, best, nearest,
}
use home_lab.Readiness.Nearest.Nearer.{IsNearer, nearest-IsNearer}
use home_lab.Readiness.Server.{
  Server, Python, Request, Reply, body, failed, ask_health, ask_models, ask_smoke, ask_weather,
  ask_render, ask_warmup, check_all, fetch,
}
use home_lab.Readiness.Health.{Profile, check_health, check_zig, check_spill, check_tier, health}
use home_lab.Readiness.Health.Healthy.{IsHealthy, check_health-IsHealthy}
use home_lab.Readiness.Models.{check_models, with_id, reported_by}
use home_lab.Readiness.Models.Listed.{Lists, IsPromised, check_models-Lists}
use home_lab.Readiness.Replies.{
  requests, smoke, warmup, warmed, pool, results, smoke_usage, chosen, is_right, tool_call,
  tool_calls, check_call,
}
use home_lab.Readiness.Replies.Smoked.{IsRight, smoke-IsRight}
use home_lab.Readiness.Renders.{
  Rendered, Mapped, check_renders, gather, try_render, render, check_prompts, map_names,
}
use home_lab.Readiness.Renders.Faithful.{IsFaithful, check_renders-IsFaithful}
use home_lab.Readiness.Main.{Arguments, main, warm_all}

abbrev advertised : List Effort
advertised = no_effort ∷ high ∷ low ∷ []

tie_goes_higher : nearest medium advertised ≡ some high
unfolding nearest best
tie_goes_higher = refl

nearest-IsNearer_example :
    (t : Effort) × (nearest minimal advertised ≡ some t)
    × (is_in t advertised ≡ true)
    × ((k : Effort) → is_ranked k ≡ true → is_in k advertised ≡ true → IsNearer minimal t k)
nearest-IsNearer_example = nearest-IsNearer minimal high advertised refl refl refl

abbrev toy_python : Python
toy_python = record {
  same_floats = str_eq;
  float_is_int = λ _ _. false;
  strip = λ s. s;
  lower = λ s. s;
  is_within = str_eq;
  text_of = λ _. "oslo";
  loads = λ _. some (obj end);
}

abbrev toy_profile : Profile
toy_profile = record {
  model = "toy";
  lanes = pos 2;
  context = pos 4096;
  min_pool_tokens = pos 0;
  require_spill = true;
}

abbrev tier_body : Json
tier_body = obj (
    field "format" (str "blocks")
      (field "cap_bytes" (int (pos 9)) (field "block_tokens" (int (pos 16)) end)))

abbrev health_body : Json
health_body = obj (
    field "status" (str "ok") (
      field "warming" (bool false) (
        field "model" (str "toy")
          (field "max_batch_size" (int (pos 2)) (field "spill" tier_body end)))))

abbrev entry_fields : Fields
entry_fields = field "id" (str "toy") (
    field "owned_by" (str "tensorfold") (
      field "context_length" (int (pos 4096)) (
        field "max_model_len" (int (pos 4096)) (
          field "reasoning"
            (obj (field "supported_efforts" (arr (cons (str "high") (cons (str "low") nil))) end))
            end))))

abbrev models_body : Json
models_body = obj (field "data" (arr (cons (obj entry_fields) nil)) end)

abbrev reply_with : String → Fields → Json
reply_with reason message = obj (
    field "choices"
      (arr
        (cons (obj (field "finish_reason" (str reason) (field "message" (obj message) end))) nil))
      (field "usage"
        (obj (field "prompt_tokens" (int (pos 20)) (field "completion_tokens" (int (pos 3)) end)))
        end))

abbrev smoke_body : Json
smoke_body = reply_with "stop" (field "content" (str "323") end)

abbrev call_body : Json
call_body = obj (
    field "function" (obj (field "name" (str "get_weather") (field "arguments" (str "oslo") end)))
      end)

abbrev tool_body : Json
tool_body = reply_with "tool_calls" (field "tool_calls" (arr (cons call_body nil)) end)

abbrev tokens_body : ℕ → Json
tokens_body n = obj (field "tokens" (arr (cons (int (pos n)) nil)) end)

-- "max", "xhigh", "high" and "medium" as one prompt, the others as another
abbrev rendered_as : Effort → ℕ
rendered_as low = 2
rendered_as minimal = 2
rendered_as _ = 1

abbrev reply_to : Request → Reply
reply_to ask_health = body health_body
reply_to ask_models = body models_body
reply_to ask_weather = body tool_body
reply_to (ask_smoke _) = body smoke_body
reply_to (ask_warmup _ _) = body smoke_body
reply_to (ask_render none) = failed
reply_to (ask_render (some effort)) = body (tokens_body (rendered_as effort))

abbrev toy_server : Server
toy_server = record { answer = λ r _. reply_to r; in_pool = λ _ _ _ r. reply_to r }

abbrev toy_efforts : List Effort
toy_efforts = high ∷ low ∷ []

abbrev toy_mapped : Mapped
toy_mapped = (minimal, low) ∷ (medium, high) ∷ (xhigh, high) ∷ (max, high) ∷ []

abbrev toy_arguments : Arguments
toy_arguments = record { profile = toy_profile; efforts = toy_efforts; warmup_words = pos 100 ∷ [] }

-- The whole gate opens, with the table of the names that are not advertised.
gate_opens : (main toy_server toy_python toy_arguments []).0 ≡ ok (some toy_mapped)
unfolding main warm_all health fetch check_health check_zig check_spill check_tier check_all
    check_models with_id reported_by smoke warmup warmed pool results smoke_usage chosen is_right
    tool_call tool_calls check_call check_renders gather try_render render check_prompts map_names
    nearest best
gate_opens = refl

check_health-IsHealthy_example : IsHealthy toy_python toy_profile health_body
unfolding check_health check_zig check_spill check_tier check_all
check_health-IsHealthy_example =
    check_health-IsHealthy toy_python toy_profile health_body [] [] refl

check_models-Lists_example :
    Lists toy_python toy_profile toy_efforts models_body entry_fields
    × IsPromised toy_python toy_profile toy_efforts entry_fields
unfolding check_models with_id reported_by check_all
check_models-Lists_example =
    check_models-Lists toy_python toy_profile toy_efforts models_body [] entry_fields [] refl

abbrev usage_body : Json
usage_body =
    obj (field "prompt_tokens" (int (pos 20)) (field "completion_tokens" (int (pos 3)) end))

smoke-IsRight_example :
    (v : Json) × (toy_server.in_pool 2 (requests ask_smoke 2) [] (ask_smoke 1) ≡ body v)
    × IsRight toy_python v
unfolding smoke pool results smoke_usage chosen is_right check_all
smoke-IsRight_example =
    smoke-IsRight toy_server toy_python 1 [] (usage_body ∷ usage_body ∷ [])
      (smoke toy_server toy_python (pos 2) []).1 refl 1 (omega arith)

check_renders-IsFaithful_example :
    (rendered : Rendered) × IsFaithful toy_python toy_efforts
      (check_renders toy_server toy_python toy_efforts []).1
      toy_mapped
      rendered
unfolding check_renders gather try_render render fetch check_prompts map_names nearest best
check_renders-IsFaithful_example =
    check_renders-IsFaithful toy_server toy_python toy_efforts [] toy_mapped
      (check_renders toy_server toy_python toy_efforts []).1 refl
