-- ===== src/JsonStore/Lock/Race.antt =====
-- Two processes that find the same stale lock file.
use vorliq.Common.{ℕ, true, false, ◌≡◌, ◌≢◌, refl, some, List, [], ◌∷◌, arith, ◌==◌}
use vorliq.JsonStore.Lock.{
  LockFile, opening, holding, dead, World, Event, turn, happens, happen_all,
}

-- p and q find the lock file stale; p removes it, creates its own and writes its pid; then q does the same.
abbrev pub both_break : ℕ → ℕ → ℕ → List Event
both_break p q now =
    turn p now
    ∷ turn q now
    ∷ turn p now
    ∷ turn q now
    ∷ turn p now
    ∷ turn p now
    ∷ turn p now
    ∷ turn q now
    ∷ turn q now
    ∷ turn q now
    ∷ []

pub record Orphaned (w : World) (p q now : ℕ) : Type 0 where
  pub file : LockFile
  pub there : w.lock ≡ some file
  pub has_pid : file.written ≡ true
  pub is_dead : w.stage file.owner ≡ dead
  pub first : w.stage p ≡ opening now
  pub second : w.stage q ≡ opening now
  pub two : p ≢ q

-- If two processes wait for a lock whose holder died with its pid in the file, there is an order of their
-- system calls after which both are inside, each with its callback still to run.
pub both_break-holding :
    (w : World) (p q now : ℕ)
    → Orphaned w p q now
    → ((happen_all w (both_break p q now)).stage p ≡ holding)
      × ((happen_all w (both_break p q now)).stage q ≡ holding)
unfolding happen_all happens
both_break-holding w p q now h =
    let pp : (p == p) ≡ true = ground arith in
    let qq : (q == q) ≡ true = ground arith in
    let pq : (p == q) ≡ false = ground (arith, h.two) in
    let qp : (q == p) ≡ false = ground (arith, h.two) in
    let op : (h.file.owner == p) ≡ false = ground (arith, h.is_dead, h.first) in
    let oq : (h.file.owner == q) ≡ false = ground (arith, h.is_dead, h.second) in
    simp (pp, qq, pq, qp, op, oq, h.there, h.has_pid, h.is_dead, h.first, h.second) (refl, refl)
