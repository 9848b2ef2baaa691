-- ===== src/Rpc/Throttle/Bounds.antt =====
-- The bucket never holds more than its maximum, nor less than nothing.
use hyperway.Prelude.{refl, ℕ, ◌≡◌, true, false, Bool-cases, inl, inr, Option, none, some, arith}
use hyperway.Prelude.Int.{ℤ, pos, negsuc}
use hyperway.Float.{Float, IsOrdered}
use hyperway.Prelude.Str.{Str}
use hyperway.Rpc.Retry.{RetryThrottling, ServiceConfig, parse_service_config}
use hyperway.Rpc.Retry.Policy.{IsValidThrottling, parse_service_config_sound}
use hyperway.Rpc.Throttle.{initial_throttle, RetryThrottle, new_throttle, consume_token, add_tokens}

module _ (f : Float) (laws : IsOrdered f) where
  pub record IsBounded (t : RetryThrottle f) : Type 0 where
    pub not_above : f.lt t.max_tokens t.tokens ≡ false
    pub not_below : f.lt t.tokens (f.of_int (pos 0)) ≡ false
    pub room : f.lt t.max_tokens (f.of_int (pos 0)) ≡ false
    pub ratio : f.lt (f.of_int (pos 0)) t.token_ratio ≡ true

  -- what holds of a throttle, if there is one
  abbrev pub HasBounds : Option (RetryThrottle f) → Type 0
  HasBounds none = Unit
  HasBounds (some t) = IsBounded t

  pub consume_token-HasBounds :
      (t : Option (RetryThrottle f)) → HasBounds t → HasBounds (consume_token f t).1
  unfolding consume_token
  consume_token-HasBounds none h = tt
  consume_token-HasBounds (some t) h = elim (Bool-cases (f.lt t.tokens (f.of_int (pos 1)))) [
    | inl short ↦ rw short h
    | inr enough ↦ rw enough (record {
      not_above = laws.sub_one_le t.tokens t.max_tokens h.not_above;
      not_below = laws.sub_one_nonneg t.tokens enough;
      room = h.room;
      ratio = h.ratio;
    })
  ]

  pub add_tokens-HasBounds :
      (t : Option (RetryThrottle f)) → HasBounds t → HasBounds (add_tokens f t)
  unfolding add_tokens
  add_tokens-HasBounds none h = tt
  add_tokens-HasBounds (some t) h =
      elim (Bool-cases (f.lt t.max_tokens (f.add t.tokens t.token_ratio))) [
        | inl over ↦ rw over (record {
          not_above = laws.irrefl t.max_tokens;
          not_below = h.room;
          room = h.room;
          ratio = h.ratio;
        })
        | inr within ↦ rw within (record {
          not_above = within;
          not_below = laws.add_nonneg t.tokens t.token_ratio h.not_below h.ratio;
          room = h.room;
          ratio = h.ratio;
        })
      ]

  new_throttle-IsBounded :
      (n : ℕ) (r : f.F)
      → f.lt (f.of_int (pos 0)) r ≡ true
      → IsBounded (new_throttle f (record { max_tokens = pos n; token_ratio = r }))
  unfolding new_throttle
  new_throttle-IsBounded n r h = record {
    not_above = (laws.half n).0;
    not_below = (laws.half n).1;
    room = laws.of_int_nonneg n;
    ratio = h;
  }

  throttling-IsBounded :
      (parse_duration : Str → Option ℤ) (m : ℤ) (r : f.F)
      → IsValidThrottling f parse_duration (record { max_tokens = m; token_ratio = r })
      → IsBounded (new_throttle f (record { max_tokens = m; token_ratio = r }))
  throttling-IsBounded parse_duration (pos n) r h = new_throttle-IsBounded n r h.ratio
  throttling-IsBounded parse_duration (negsuc n) r h = absurd (omega (arith, h.some_tokens))

-- Over ordered numbers, the bucket made from a configuration that parsed starts within its
-- bounds: with no more tokens than the maximum, and no fewer than none.
pub initial_throttle-HasBounds :
    (f : Float) (parse_duration : Str → Option ℤ) (unmarshal : Str → Option (ServiceConfig f.F))
    (json : Str) (config : ServiceConfig f.F) (laws : IsOrdered f)
    → parse_service_config f parse_duration unmarshal json ≡ inr config
    → HasBounds f laws (initial_throttle f (some config))
unfolding initial_throttle
initial_throttle-HasBounds f parse_duration unmarshal json config laws e =
    by_throttling config.retry_throttling
      (parse_service_config_sound f parse_duration unmarshal json config e).1
  where
    by_throttling :
        (o : Option (RetryThrottling f.F))
        → ((t : RetryThrottling f.F) → o ≡ some t → IsValidThrottling f parse_duration t)
        → HasBounds f laws (elim o [ none ↦ none | some t ↦ some (new_throttle f t) ])
    by_throttling none valid = tt
    by_throttling (some t) valid =
        throttling-IsBounded f laws parse_duration t.max_tokens t.token_ratio (valid t refl)
