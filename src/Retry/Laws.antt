-- ===== src/Retry/Laws.antt =====
-- What request_with_retries sends, and how it ends.
use istanbulmcp.Prelude.{
  ℕ, zero, suc, ◌+◌, ◌-◌, ◌≤◌, ◌<◌, String, Bool, true, false, ◌≡◌, ◌≢◌, refl, arith, str_eq,
  eq_refl, if◌then◌else◌, length,
}
use istanbulmcp.Prelude.Dict
use istanbulmcp.Prelude.Dict.{Dict}
use istanbulmcp.Retry.{
  Answer, response, connect_timeout, transport_error, other_error, Result, raised, exhausted,
  Effects, note_status, note_unreachable, sleep, sends, attempts_left, fresh, is_cooling,
  request_with_retries, cooldown, recently_unreachable, unreachable,
}

module _ (retry : ℕ → Bool) (raises : ℕ → Bool) (limited : Bool) (host : String) where
  abbrev run : ℕ → (ℕ → Answer) → (ℕ → ℕ) → ℕ → Effects → Effects × Result
  run = attempts_left retry raises limited host

  -- What the loop adds to the effects before it, with one attempt left and `more` behind it.
  pub record IsBounded (more : ℕ) (fx : Effects) (r : Effects × Result) : Type 0 where
    pub some_sent : fx.sent + 1 ≤ r.0.sent
    pub sent_within : r.0.sent ≤ fx.sent + suc more
    pub sleeps_between : length r.0.sleeps + fx.sent + 1 ≡ length fx.sleeps + r.0.sent
    pub one_penalty : length r.0.penalties ≤ length fx.penalties + (if fx.penalized then 0 else 1)
    pub decided : r.1 ≢ raised exhausted

  attempts_left-IsBounded :
      (more : ℕ) (answer : ℕ → Answer) (clock : ℕ → ℕ) (n : ℕ) (fx : Effects)
      → IsBounded more fx (run (suc more) answer clock n fx)
  unfolding attempts_left note_status note_unreachable
  attempts_left-IsBounded zero answer clock n fx = go (answer n) refl
    where
      go : (a : Answer) → answer n ≡ a → IsBounded zero fx (run 1 answer clock n fx)
      go connect_timeout e = ground arith
      go transport_error e = ground arith
      go other_error e = ground arith
      go (response status header) e = ground arith
  attempts_left-IsBounded (suc more) answer clock n fx =
      go (answer n) refl (λ f. attempts_left-IsBounded more answer clock (n + 1) f)
    where
      go :
          (a : Answer)
          → answer n ≡ a
          → ((f : Effects) → IsBounded more f (run (suc more) answer clock (n + 1) f))
          → IsBounded (suc more) fx (run (suc (suc more)) answer clock n fx)
      go connect_timeout e ih = ground arith
      go transport_error e ih = ground (arith, ih (sleep 0 (sends fx)))
      go other_error e ih = ground arith
      go (response status header) e ih =
          let noted = note_status limited status header (sends fx) in
          ground (arith, ih (sleep noted.1 noted.0))

  abbrev pub request : ℕ → (ℕ → Answer) → (ℕ → ℕ) → Dict ℕ → ℕ → Effects × Result
  request = request_with_retries retry raises limited host

  -- Whatever the answers, a call with at least one attempt sends no more requests than that, sleeps
  -- once between two requests and never after the last, penalizes its rate limiter once at most, and
  -- never falls out of its loop.
  pub request_bounds :
      (attempts : ℕ) (answer : ℕ → Answer) (clock : ℕ → ℕ) (hosts : Dict ℕ) (now : ℕ)
      → 0 < attempts
      → ((request attempts answer clock hosts now).0.sent ≤ attempts)
        × (length (request attempts answer clock hosts now).0.sleeps
            ≡ (request attempts answer clock hosts now).0.sent - 1)
        × (length (request attempts answer clock hosts now).0.penalties ≤ 1)
        × ((request attempts answer clock hosts now).1 ≢ raised exhausted)
  unfolding request_with_retries
  request_bounds zero answer clock hosts now h = absurd (omega arith)
  request_bounds (suc more) answer clock hosts now h =
      let b = attempts_left-IsBounded more answer clock 0 (fresh hosts) in
      (ground (arith, b), ground (arith, b), ground (arith, b), λ e. ground (arith, b.decided))

  module _ (start later : ℕ) (soon : later < start + cooldown)
      (named : str_eq host "" ≡ false) where
    note_unreachable-cooling :
        (now : ℕ) (fx : Effects)
        → start ≤ now
        → is_cooling host (note_unreachable host now fx).unreachable_until later ≡ true
    unfolding note_unreachable is_cooling
    note_unreachable-cooling now fx h =
        ground (arith, Dict.get-put host host (now + cooldown) fx.unreachable_until, eq_refl host)

    attempts_left-cooling :
        (left : ℕ) (answer : ℕ → Answer) (clock : ℕ → ℕ) (n : ℕ) (fx : Effects)
        → ((m : ℕ) → start ≤ clock m)
        → (run left answer clock n fx).1 ≡ raised unreachable
        → is_cooling host (run left answer clock n fx).0.unreachable_until later ≡ true
    unfolding attempts_left note_status
    attempts_left-cooling zero answer clock n fx h e = absurd (cc)
    attempts_left-cooling (suc left) answer clock n fx h e =
        go (answer n) refl (λ f. attempts_left-cooling left answer clock (n + 1) f h)
      where
        go :
            (a : Answer)
            → answer n ≡ a
            → ((f : Effects)
                → (run left answer clock (n + 1) f).1 ≡ raised unreachable
                → is_cooling host (run left answer clock (n + 1) f).0.unreachable_until later
                  ≡ true)
            → is_cooling host (run (suc left) answer clock n fx).0.unreachable_until later ≡ true
        go connect_timeout q ih =
            ground (arith, note_unreachable-cooling (clock n) (sends fx) (h n))
        go transport_error q ih = ground (arith, ih (sleep 0 (sends fx)))
        go other_error q ih = ground arith
        go (response status header) q ih =
            let noted = note_status limited status header (sends fx) in
            ground (arith, ih (sleep noted.1 noted.0))

    -- After a call that could not connect, a call to the same host within the cooldown sends nothing.
    pub cooldown_holds :
        (attempts more : ℕ) (answer again : ℕ → Answer) (clock clock' : ℕ → ℕ) (hosts : Dict ℕ)
        (now : ℕ)
        → ((m : ℕ) → start ≤ clock m)
        → (request attempts answer clock hosts now).1 ≡ raised unreachable
        → 0 < more
        → (let hosts' = (request attempts answer clock hosts now).0.unreachable_until in
            ((request more again clock' hosts' later).1 ≡ raised recently_unreachable)
            × ((request more again clock' hosts' later).0.sent ≡ 0))
    unfolding request_with_retries
    cooldown_holds attempts more answer again clock clock' hosts now h e p =
        let c : is_cooling host (request attempts answer clock hosts now).0.unreachable_until later
            ≡ true =
          first e in
        (ground (arith, c), ground (arith, c))
      where
        first :
            (request attempts answer clock hosts now).1 ≡ raised unreachable
            → is_cooling host (request attempts answer clock hosts now).0.unreachable_until later
              ≡ true
        first q = ground (arith, attempts_left-cooling attempts answer clock 0 (fresh hosts) h)
