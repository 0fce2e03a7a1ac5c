-- ===== src/Limiter.antt =====
-- internal/bff/security.go, `memoryLoginLimiter`: failed logins are counted in a window, and too many
-- lock the key. Times and durations are numbers, 0 the zero time; the map of attempts is a function,
-- `none` for a missing key. The clock's reading is an argument. Each operation holds the mutex from
-- its start to its end, so a history is a sequence. The metrics are left out.
pub mod Lockout
use servicer.Prelude.{
  ℕ, suc, ◌+◌, ◌-◌, String, Bool, true, false, ◌&&◌, ◌||◌, not, Option, none, some, ◌==◌, ltb, leb,
  eqb, if◌then◌else◌,
}

pub record LoginAttempt : Type 0 where
  pub count : ℕ
  pub window_ends : ℕ
  pub locked_until : ℕ

pub record Config : Type 0 where
  pub limit : ℕ
  pub window : ℕ
  pub lockout : ℕ
  pub retain : ℕ
  pub cleanup : ℕ

pub record Limiter : Type 0 where
  pub attempts : String → Option LoginAttempt
  pub last_sweep : ℕ

-- A missing key reads as the zero value.
pub attempt_of : Option LoginAttempt → LoginAttempt
attempt_of none = record { count = 0; window_ends = 0; locked_until = 0 }
attempt_of (some attempt) = attempt

-- The test of `Allow`.
pub is_unlocked : ℕ → LoginAttempt → Bool
is_unlocked now attempt = eqb attempt.locked_until 0 || ltb attempt.locked_until now

module _ (config : Config) where
  pub expiry : LoginAttempt → ℕ
  expiry attempt =
      let ends =
        if ltb attempt.window_ends attempt.locked_until
        then attempt.locked_until
        else attempt.window_ends in
      if ltb 0 config.retain then ends + config.retain else ends

  pub is_expired : ℕ → LoginAttempt → Bool
  unfolding expiry
  is_expired now attempt = not (eqb (expiry attempt) 0) && ltb (expiry attempt) now

  pub evict : ℕ → Option LoginAttempt → Option LoginAttempt
  unfolding is_expired
  evict now none = none
  evict now (some attempt) = if is_expired now attempt then none else some attempt

  pub cleanup_expired : ℕ → Limiter → Limiter
  unfolding evict
  cleanup_expired now l =
      if ltb 0 config.cleanup && not (eqb l.last_sweep 0) && ltb (now - l.last_sweep) config.cleanup
      then l
      else record {
        attempts = λ key. evict now (l.attempts key);
        last_sweep = if ltb 0 config.cleanup then now else l.last_sweep;
      }

  pub set_attempt : String → Option LoginAttempt → Limiter → Limiter
  set_attempt key value l = record l { attempts = λ k. if k == key then value else l.attempts k }

  pub allow : ℕ → String → Limiter → Bool × Limiter
  unfolding cleanup_expired is_unlocked attempt_of
  allow now key l =
      let l1 = cleanup_expired now l in (is_unlocked now (attempt_of (l1.attempts key)), l1)

  -- One more failure in the window of `attempt`, or the first in a new one.
  pub count_failure : ℕ → LoginAttempt → LoginAttempt
  count_failure now attempt =
      let current =
        if eqb attempt.window_ends 0 || ltb attempt.window_ends now
        then record { count = 0; window_ends = now + config.window; locked_until = 0 }
        else attempt in
      record current {
        count = suc current.count;
        locked_until =
            if leb config.limit (suc current.count)
            then now + config.lockout
            else current.locked_until;
      }

  pub record_failure : ℕ → String → Limiter → Limiter
  unfolding cleanup_expired attempt_of count_failure set_attempt
  record_failure now key l =
      let l1 = cleanup_expired now l in
      set_attempt key (some (count_failure now (attempt_of (l1.attempts key)))) l1

  pub reset : ℕ → String → Limiter → Limiter
  unfolding cleanup_expired set_attempt
  reset now key l = cleanup_expired now (set_attempt key none l)
