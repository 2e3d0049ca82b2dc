-- ===== src/Auth/Gateway/Strikes.antt =====
-- Five forged writes within ten minutes close the gateway to their client.
use native.Mathlib.Nat.{add-zero, add-suc, suc-add}
use vorliq.Common.{
  ℕ, suc, ◌+◌, ◌≤◌, ◌<◌, String, true, false, ◌≡◌, refl, none, some, List, [], ◌∷◌, map, length,
  arith, ap, ◌∙◌,
}
use vorliq.Common.Dict
use vorliq.Auth.Lockout.{
  Code, is_credential_failure, failure_limit, lock_ms, locked_seconds_remaining, remaining_of,
  record_failure, next_entry,
}
use vorliq.Auth.Lockout.Laws.{remaining-pos, get-record_failure_self}
use vorliq.Auth.Lockout.Runs.{counted, next_entry-counted, InWindow, last_time}
use vorliq.Auth.Signed.Crypto.{Runtime}
use vorliq.Auth.Signed.Envelope.{fail}
use vorliq.Auth.Gateway.{
  Gateway, Reply, locked, Request, is_authority_write, answer, require_signed_authority_write,
}
use vorliq.Auth.Gateway.Laws.{verified, locked_refused, unlocked_answer}

next_entry-none : (now : ℕ) → next_entry none now ≡ counted 1 now now
unfolding next_entry
next_entry-none now = ground arith

module _ (run : Runtime) (client : String) where
  abbrev pub step : Gateway → Request → Gateway
  step g r = (require_signed_authority_write run false g r).0

  pub after_all : Gateway → List Request → Gateway
  after_all g [] = g
  after_all g (r ∷ rs) = after_all (step g r) rs

  -- An authority write of the client whose verification ends in a credential failure.
  pub record IsForged (g : Gateway) (r : Request) : Type 0 where
    pub sender : r.client ≡ client
    pub write : is_authority_write r ≡ true
    pub code : Code
    pub failed : (verified run false g r).1 ≡ fail code
    pub credential : is_credential_failure code ≡ true

  -- Each request of the list is forged when its turn comes.
  abbrev pub AllForged : Gateway → List Request → Type 0
  AllForged g [] = Unit
  AllForged g (r ∷ rs) = IsForged g r × AllForged (step g r) rs

  abbrev pub times : List Request → List ℕ
  times = map (λ (r : Request). r.now)

  answer-failed :
      (g : Gateway) (r : Request) (f : IsForged g r)
      → (answer false g r (verified run false g r)).0.attempts
        ≡ (record_failure false g.attempts r.client f.code r.now).0
  unfolding answer
  answer-failed g r f = ground (arith, f.failed)

  get-step :
      (g : Gateway) (r : Request)
      → IsForged g r
      → locked_seconds_remaining false g.attempts r.client r.now ≡ 0
      → Dict.get (step g r).attempts client ≡ some (next_entry (Dict.get g.attempts client) r.now)
  get-step g r f free =
      ap (λ (p : Gateway × Reply). Dict.get p.0.attempts client)
        (unlocked_answer run false g r f.write free)
      ∙ (rw (answer-failed g r f, f.sender)
          (get-record_failure_self g.attempts client f.code r.now f.credential))

  free_of_counted :
      (g : Gateway) (r : Request) (n first last : ℕ)
      → Dict.get g.attempts client ≡ some (counted n first last)
      → n < failure_limit
      → r.client ≡ client
      → locked_seconds_remaining false g.attempts r.client r.now ≡ 0
  unfolding locked_seconds_remaining
  free_of_counted g r n first last found few same = rw (same, found) (ground arith)

  get-after_all :
      (g : Gateway) (rs : List Request) (n first last : ℕ)
      → Dict.get g.attempts client ≡ some (counted (suc n) first last)
      → suc n + length rs ≤ failure_limit
      → AllForged g rs
      → InWindow first (times rs)
      → Dict.get (after_all g rs).attempts client
        ≡ some (counted (suc n + length rs) first (last_time last (times rs)))
  unfolding after_all
  get-after_all g [] n first last found few forged w = rw (found, add-zero)
  get-after_all g (r ∷ rs) n first last found few (f, forged) (here, w) =
      rw (add-suc (suc n) (length rs), ← suc-add)
        (get-after_all (step g r) rs (suc n) first r.now
          (rw
            (
              get-step g r f (free_of_counted g r (suc n) first last found (omega arith) f.sender),
              found,
            )
            (ap some (next_entry-counted (suc n) first last r.now here)))
          (omega arith) forged w)

  -- A client without failures sends an authority write at `r.now` and four more within ten minutes
  -- of it, and the verification of each ends in a credential failure. Then for ten minutes after
  -- the last of them every authority write of the client is answered with a lock, whatever
  -- authorization it carries, and changes nothing.
  pub five_strikes :
      (g : Gateway) (r : Request) (rs : List Request) (q : Request)
      → Dict.get g.attempts client ≡ none
      → AllForged g (r ∷ rs)
      → length rs ≡ 4
      → InWindow r.now (times rs)
      → q.client ≡ client
      → is_authority_write q ≡ true
      → q.now < last_time r.now (times rs) + lock_ms
      → require_signed_authority_write run false (after_all g (r ∷ rs)) q ≡ (
        after_all g (r ∷ rs),
        locked (locked_seconds_remaining false (after_all g (r ∷ rs)).attempts client q.now),
      )
        × (0 < locked_seconds_remaining false (after_all g (r ∷ rs)).attempts client q.now)
  five_strikes g r rs q fresh (f, forged) four w same write soon =
      let done = after_all g (r ∷ rs) in
      let free : locked_seconds_remaining false g.attempts r.client r.now ≡ 0 =
        unfold locked_seconds_remaining remaining_of in rw (f.sender, fresh) refl in
      let first : Dict.get (step g r).attempts client ≡ some (counted 1 r.now r.now) =
        get-step g r f free
        ∙ ap some (ap (λ o. next_entry o r.now) fresh ∙ next_entry-none r.now) in
      let held : Dict.get done.attempts client
          ≡ some (counted 5 r.now (last_time r.now (times rs))) =
        unfold after_all in
        get-after_all (step g r) rs 0 r.now r.now first (omega arith) forged w
        ∙ ap (λ n. some (counted n r.now (last_time r.now (times rs)))) (omega arith) in
      let waits : 0 < locked_seconds_remaining false done.attempts client q.now =
        unfold locked_seconds_remaining in
        rw held ((remaining-pos (counted 5 r.now (last_time r.now (times rs))) q.now).1 soon) in
      (
        locked_refused run false done q write (rw same waits)
            ∙ ap (λ k. (done, locked (locked_seconds_remaining false done.attempts k q.now))) same,
        waits,
      )
