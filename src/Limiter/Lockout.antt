-- ===== src/Limiter/Lockout.antt =====
-- internal/bff/security.go: when a key is locked, after any history of operations on any keys.
use servicer.Prelude.{
  ℕ, suc, ◌+◌, ◌-◌, ◌≤◌, String, true, false, ◌&&◌, ◌||◌, not, List, [], ◌∷◌, Option, none, some,
  ◌==◌, ◌≡◌, refl, ◌∙◌, ap, arith, ltb, leb, eqb, if◌then◌else◌, Bool-cases, inl, inr, eq_iff,
  eq_refl,
}
use servicer.Limiter.{
  LoginAttempt, Config, Limiter, attempt_of, is_unlocked, expiry, is_expired, evict,
  cleanup_expired, set_attempt, allow, count_failure, record_failure, reset,
}

pub data Operation : Type 0 where
  fails succeeds asks : String → Operation

-- How often `key` fails.
abbrev pub failures : String → List (ℕ × Operation) → ℕ
failures key [] = 0
failures key ((now, fails k) ∷ ops) =
    let rest = failures key ops in if k == key then suc rest else rest
failures key ((now, _) ∷ ops) = failures key ops

-- When it last fails, if it failed at `t` before.
abbrev pub last_failure : String → ℕ → List (ℕ × Operation) → ℕ
last_failure key t [] = t
last_failure key t ((now, fails k) ∷ ops) = last_failure key (if k == key then now else t) ops
last_failure key t ((now, _) ∷ ops) = last_failure key t ops

abbrev pub NotReset : String → Operation → Type 0
NotReset key (succeeds k) = (k == key) ≡ false
NotReset key _ = Unit

-- No operation is later than `ends`, and none resets the key.
abbrev pub Undisturbed : String → ℕ → List (ℕ × Operation) → Type 0
Undisturbed key ends [] = Unit
Undisturbed key ends ((now, op) ∷ ops) = (now ≤ ends) × NotReset key op × Undisturbed key ends ops

module _ (config : Config) where
  pub apply : ℕ → Operation → Limiter → Limiter
  apply now (fails key) l = record_failure config now key l
  apply now (succeeds key) l = reset config now key l
  apply now (asks key) l = (allow config now key l).1

  pub applies : List (ℕ × Operation) → Limiter → Limiter
  unfolding apply
  applies [] l = l
  applies ((now, op) ∷ ops) l = applies ops (apply now op l)

  -- An attempt is evicted only where it no longer locks.
  evict-unlocked :
      (now now' : ℕ) (o : Option LoginAttempt)
      → now ≤ now'
      → is_unlocked now' (attempt_of (evict config now o)) ≡ is_unlocked now' (attempt_of o)
  unfolding evict is_unlocked attempt_of is_expired expiry
  evict-unlocked now now' none h = refl
  evict-unlocked now now' (some attempt) h = ground arith

  -- The sweep does not change whether a key is locked.
  pub allow_lem :
      (now : ℕ) (key : String) (l : Limiter)
      → (allow config now key l).0 ≡ is_unlocked now (attempt_of (l.attempts key))
  unfolding allow cleanup_expired
  allow_lem now key l =
      elim (Bool-cases (
        ltb 0 config.cleanup
        && not (eqb l.last_sweep 0)
        && ltb (now - l.last_sweep) config.cleanup)) [
          | inl e ↦ rw e refl
          | inr e ↦ rw e (evict-unlocked now now (l.attempts key) (omega arith))
        ]

  -- Within its window an attempt is kept.
  cleanup-kept :
      (now : ℕ) (key : String) (l : Limiter) (attempt : LoginAttempt)
      → l.attempts key ≡ some attempt
      → now ≤ attempt.window_ends
      → (cleanup_expired config now l).attempts key ≡ some attempt
  unfolding cleanup_expired evict is_expired expiry
  cleanup-kept now key l attempt h le =
      elim (Bool-cases (
        ltb 0 config.cleanup
        && not (eqb l.last_sweep 0)
        && ltb (now - l.last_sweep) config.cleanup)) [
          | inl e ↦ rw e h
          | inr e ↦ rw (e, h) (ground arith)
        ]

  cleanup-none :
      (now : ℕ) (key : String) (l : Limiter)
      → l.attempts key ≡ none
      → (cleanup_expired config now l).attempts key ≡ none
  unfolding cleanup_expired evict
  cleanup-none now key l h =
      elim (Bool-cases (
        ltb 0 config.cleanup
        && not (eqb l.last_sweep 0)
        && ltb (now - l.last_sweep) config.cleanup)) [ inl e ↦ rw e h | inr e ↦ rw (e, h) refl ]

  module _ (key : String) (ends : ℕ) (started : 1 ≤ ends) where
    -- After `n` failures, the last at `t`.
    abbrev held : ℕ → ℕ → LoginAttempt
    held n t = record {
      count = n;
      window_ends = ends;
      locked_until = if leb config.limit n then t + config.lockout else 0;
    }

    count_failure-held :
        (n t now : ℕ) → now ≤ ends → count_failure config now (held n t) ≡ held (suc n) now
    unfolding count_failure
    count_failure-held n t now le = elim (Bool-cases (eqb ends 0 || ltb ends now)) [
      | inl e ↦ absurd (late e)
      | inr e ↦ elim (Bool-cases (leb config.limit (suc n))) [
        | inl f ↦ rw (e, f) refl
        | inr f ↦ rw (e, f, below f) refl
      ]
    ]
      where
        late : (eqb ends 0 || ltb ends now) ≡ true → ⊥
        late e = ground arith

        below : leb config.limit (suc n) ≡ false → leb config.limit n ≡ false
        below f = ground arith

    set_same :
        (o : Option LoginAttempt) (l : Limiter) → (set_attempt config key o l).attempts key ≡ o
    unfolding set_attempt
    set_same o l = rw (eq_refl key) refl

    set_other :
        (k : String) (o : Option LoginAttempt) (l : Limiter)
        → (k == key) ≡ false
        → (set_attempt config k o l).attempts key ≡ l.attempts key
    unfolding set_attempt
    set_other k o l h = elim (Bool-cases (key == k)) [
      | inl e ↦ absurd (other e)
      | inr e ↦ rw e refl
    ]
      where
        other : (key == k) ≡ true → ⊥
        other e = ground (arith, eq_iff key k, eq_iff k key)

    applies-held :
        (ops : List (ℕ × Operation)) (n t : ℕ) (l : Limiter)
        → Undisturbed key ends ops
        → l.attempts key ≡ some (held n t)
        → (applies ops l).attempts key ≡ some (held (n + failures key ops) (last_failure key t ops))
    unfolding applies apply record_failure reset allow
    applies-held [] n t l u h = rw (plus_zero n) h
      where
        plus_zero : (n : ℕ) → n + 0 ≡ n
        plus_zero n = omega arith
    applies-held ((now, fails k) ∷ ops) n t l (le, u, us) h =
        let kept = cleanup-kept now key l (held n t) h le in
        elim (Bool-cases (k == key)) [
          | inl e ↦
              rw (e, (eq_iff k key).0 e, plus_suc n (failures key ops))
                (applies-held ops (suc n) now _ us (
                  set_same _ (cleanup_expired config now l)
                  ∙ ap some (
                      ap (λ o. count_failure config now (attempt_of o)) kept
                      ∙ count_failure-held n t now le)))
          | inr e ↦
              rw e
                (applies-held ops n t _ us (set_other k _ (cleanup_expired config now l) e ∙ kept))
        ]
      where
        plus_suc : (n m : ℕ) → n + suc m ≡ suc n + m
        plus_suc n m = omega arith
    applies-held ((now, succeeds k) ∷ ops) n t l (le, u, us) h =
        applies-held ops n t _ us (cleanup-kept now key _ (held n t) (set_other k none l u ∙ h) le)
    applies-held ((now, asks k) ∷ ops) n t l (le, u, us) h =
        applies-held ops n t _ us (cleanup-kept now key l (held n t) h le)

    unlocked-held :
        (n t now : ℕ)
        → 1 ≤ config.lockout
        → is_unlocked now (held n t) ≡ not (leb config.limit n && leb now (t + config.lockout))
    unfolding is_unlocked
    unlocked-held n t now long = ground arith

  first_failure :
      (key : String) (t : ℕ) (l : Limiter)
      → 1 ≤ t + config.window
      → l.attempts key ≡ none
      → (record_failure config t key l).attempts key
        ≡ some (record {
          count = 1;
          window_ends = t + config.window;
          locked_until = if leb config.limit 1 then t + config.lockout else 0;
        })
  unfolding record_failure count_failure attempt_of
  first_failure key t l started fresh =
      set_same key (t + config.window) started _ (cleanup_expired config t l)
      ∙ rw (cleanup-none t key l fresh) refl

  -- A key without an attempt fails at `start`, and in its window any operations on any keys follow
  -- but a reset of the key. Then, at any time, the key is refused exactly where its failures have
  -- reached the limit and the time is not past the lockout after the last of them. The clock and the
  -- lockout are not zero.
  pub allow_after_failures :
      (key : String) (start now : ℕ) (ops : List (ℕ × Operation)) (l : Limiter)
      → 1 ≤ start
      → 1 ≤ config.lockout
      → l.attempts key ≡ none
      → Undisturbed key (start + config.window) ops
      → (allow config now key (applies ops (record_failure config start key l))).0
        ≡ not (
            leb config.limit (1 + failures key ops)
            && leb now (last_failure key start ops + config.lockout))
  unfolding attempt_of
  allow_after_failures key start now ops l running long fresh quiet =
      let ends = start + config.window in
      let started : 1 ≤ ends = omega arith in
      let after =
        applies-held key ends started ops 1 start (record_failure config start key l) quiet
          (first_failure key start l started fresh) in
      allow_lem now key (applies ops (record_failure config start key l))
      ∙ ap (λ o. is_unlocked now (attempt_of o)) after
      ∙ unlocked-held key ends started (1 + failures key ops) (last_failure key start ops) now long
