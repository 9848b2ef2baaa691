-- ===== src/Tests/Retry.antt =====
-- The retry interceptor and its tables, for one policy of three attempts and a service that is down.
use hyperway.Prelude.{ℕ, ◌+◌, ◌≡◌, ◌↔◌, refl, inr, Option, none, some, [], ◌∷◌, All}
use hyperway.Prelude.Int.{ℤ, pos}
use hyperway.Prelude.Str.{Str, str, str_eq, lookup}
use hyperway.Float.{thousandths}
use hyperway.Rpc.Codes.{code_unavailable, grpc_status_code_map}
use hyperway.Rpc.Errors.{GoError, rpc, new_error}
use hyperway.Rpc.Retry.{
  RetryPolicy, RetryThrottling, MethodConfig, ServiceConfig, is_status_code, validate_retry_policy,
  parse_service_config, validate_methods, validate_retry_throttling, validate_codes, duration_ok,
}
use hyperway.Rpc.Retry.Policy.{
  IsValidPolicy, IsValidThrottling, HasValidPolicy, validate_retry_policy_iff,
  parse_service_config_sound,
}
use hyperway.Rpc.Interceptor.{find_retry_policy}
use hyperway.Rpc.RetryLoop.{State, World, intercept}
use hyperway.Rpc.RetryLoop.Calls.{Costs, intercept_calls}

abbrev no_durations : Str → Option ℤ
no_durations s = none

abbrev policy : RetryPolicy ℤ
policy = record {
  max_attempts = pos 3;
  initial_backoff = [];
  max_backoff = [];
  backoff_multiplier = pos 2000;
  retryable_status_codes = str "UNAVAILABLE" ∷ [];
}

abbrev for_users : RetryPolicy ℤ → MethodConfig ℤ
for_users p = record {
  name = record { service = str "Users"; method = [] } ∷ [];
  timeout = [];
  retry_policy = some p;
}

abbrev throttling : RetryThrottling ℤ
throttling = record { max_tokens = pos 10; token_ratio = pos 100 }

abbrev config_of : RetryPolicy ℤ → ServiceConfig ℤ
config_of p = record { method_config = for_users p ∷ []; retry_throttling = some throttling }

abbrev unmarshal : Str → Option (ServiceConfig ℤ)
unmarshal json = some (config_of policy)

abbrev down : GoError
down = rpc (new_error code_unavailable (str "down"))

-- a handler that counts its calls and always fails
abbrev world_of : GoError → World thousandths ℕ ℕ
world_of e = record {
  handler = λ s. ((none, some e), record s { world = s.world + 1 });
  done = λ s. none;
  wait = λ d s. (none, s);
  random = λ n s. (none, s);
}

abbrev idle : State thousandths ℕ ℕ
idle = record { throttle = none; world = 0 }

intercept_calls_example :
    Costs
      (find_retry_policy (some (config_of policy)) (str "/Users/Get"))
      0
      (intercept thousandths no_durations
        (world_of down)
        (some (config_of policy))
        (str "/Users/Get")
        idle).1.world
intercept_calls_example =
    intercept_calls thousandths no_durations (world_of down) (λ n. n) (some (config_of policy))
      (str "/Users/Get") idle
      (record { call = λ s. refl; wait = λ d s. refl; random = λ n s. refl })

-- half full, and a tenth of a token for each success
abbrev bucket : State thousandths ℕ ℕ
bucket = record {
  throttle = some (record { max_tokens = pos 10000; tokens = pos 5000; token_ratio = pos 100 });
  world = 0;
}

validate_retry_policy_iff_example :
    (validate_retry_policy thousandths no_durations (some policy) ≡ none)
    ↔ IsValidPolicy thousandths no_durations policy
validate_retry_policy_iff_example = validate_retry_policy_iff thousandths no_durations policy

parses : parse_service_config thousandths no_durations unmarshal (str "{}") ≡ inr (config_of policy)
unfolding parse_service_config validate_methods validate_retry_policy duration_ok validate_codes
    is_status_code str_eq validate_retry_throttling
parses = refl

parse_service_config_sound_example :
    All (HasValidPolicy thousandths no_durations) (config_of policy).method_config
    × ((t : RetryThrottling ℤ)
        → some throttling ≡ some t
        → IsValidThrottling thousandths no_durations t)
parse_service_config_sound_example =
    parse_service_config_sound thousandths no_durations unmarshal (str "{}") (config_of policy)
      parses

unavailable_number : lookup code_unavailable grpc_status_code_map ≡ some 14
unfolding grpc_status_code_map lookup str_eq
unavailable_number = refl
