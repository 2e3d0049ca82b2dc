-- ===== src/Faucet/Claims.antt =====
-- The claims of one address within the last day, as they are recorded, pruned and grow old.
use vorliq.Common.{
  ℕ, ◌≤◌, String, Bool, true, false, ◌≡◌, refl, Option, none, some, List, [], ◌∷◌, ◌++◌, map,
  str_eq, eq_refl, arith, if◌then◌else◌, filter, Bool-cases, inl, inr, sym, ◌∙◌,
}
use vorliq.Common.Dict
use vorliq.Common.Dict.{get-put, get-revise}
use vorliq.Faucet.{
  Store, Claim, prune, norm_ip, recent_claim, unless_empty, listed, set_of, record_faucet_claim,
}
use vorliq.Faucet.Sets.{has, Covers, has-set_of}

abbrev pub claims_of : Store → String → List Claim
claims_of s key = listed (Dict.get s.ip_claims key)

-- The wallets of the claims that are less than a day old.
abbrev pub recent_wallets : ℕ → List Claim → List String
recent_wallets now l = map (λ (c : Claim). c.wallet) (filter (recent_claim now) l)

listed-unless_empty : (xs : List Claim) → listed (some xs) ≡ listed (unless_empty xs)
listed-unless_empty [] = refl
listed-unless_empty (x ∷ xs) = refl

pub claims_of-prune :
    (s : Store) (key : String) (now : ℕ)
    → claims_of (prune s now) key ≡ filter (recent_claim now) (claims_of s key)
unfolding prune
claims_of-prune s key now = rw get-revise (by_option (Dict.get s.ip_claims key))
  where
    by_option :
        (o : Option (List Claim))
        → listed
            (elim o [ none ↦ none | some list ↦ unless_empty (filter (recent_claim now) list) ])
          ≡ filter (recent_claim now) (listed o)
    by_option none = refl
    by_option (some list) = sym (listed-unless_empty (filter (recent_claim now) list))

abbrev pub new_claim : String → String → ℕ → Claim
new_claim wallet fingerprint now = record { wallet = wallet; fingerprint = fingerprint; at = now }

pub claims_of-record_faucet_claim :
    (s : Store) (ip wallet fingerprint key : String) (now : ℕ)
    → claims_of (record_faucet_claim s ip wallet fingerprint now) key
      ≡ filter (recent_claim now) (
          if str_eq (norm_ip ip) key
          then claims_of s (norm_ip ip) ++ new_claim wallet fingerprint now ∷ []
          else claims_of s key)
unfolding record_faucet_claim
claims_of-record_faucet_claim s ip wallet fingerprint key now =
    rw (claims_of-prune, get-put) (by_test (str_eq (norm_ip ip) key))
  where
    by_test :
        (b : Bool)
        → filter (recent_claim now) (
            listed (
              if b
              then some (claims_of s (norm_ip ip) ++ new_claim wallet fingerprint now ∷ [])
              else Dict.get s.ip_claims key))
          ≡ filter (recent_claim now) (
              if b
              then claims_of s (norm_ip ip) ++ new_claim wallet fingerprint now ∷ []
              else claims_of s key)
    by_test true = refl
    by_test false = refl

true_and_false : {b : Bool} → b ≡ true → b ≡ false → ⊥
true_and_false h k = cc

module _ (ws : List String) where
  Covers-cons :
      (t : ℕ) (x : Claim) (l : List Claim)
      → (recent_claim t x ≡ true → has ws x.wallet ≡ true)
      → Covers ws (recent_wallets t l)
      → Covers ws (recent_wallets t (x ∷ l))
  Covers-cons t x l h c = elim (Bool-cases (recent_claim t x)) [
    | inl live ↦ rw live (h live, c)
    | inr gone ↦ rw gone c
  ]

  Covers-cons_inv :
      (t : ℕ) (x : Claim) (l : List Claim)
      → Covers ws (recent_wallets t (x ∷ l))
      → (recent_claim t x ≡ true → has ws x.wallet ≡ true) × Covers ws (recent_wallets t l)
  Covers-cons_inv t x l c = elim (Bool-cases (recent_claim t x)) [
    | inl live ↦ let d : Covers ws (x.wallet ∷ recent_wallets t l) = rw live at c in (λ e. d.0, d.1)
    | inr gone ↦ (λ e. absurd (true_and_false e gone), rw gone at c)
  ]

  -- As time goes on fewer claims are recent.
  pub Covers-later :
      (t u : ℕ) (l : List Claim)
      → t ≤ u
      → Covers ws (recent_wallets t l)
      → Covers ws (recent_wallets u l)
  Covers-later t u [] h c = tt
  Covers-later t u (x ∷ l) h c =
      let (here, rest) = Covers-cons_inv t x l c in
      Covers-cons u x l (λ live. here (ground arith)) (Covers-later t u l h rest)

  pub Covers-pruned :
      (now u : ℕ) (l : List Claim)
      → Covers ws (recent_wallets u l)
      → Covers ws (recent_wallets u (filter (recent_claim now) l))
  Covers-pruned now u [] c = tt
  Covers-pruned now u (x ∷ l) c =
      let (here, rest) = Covers-cons_inv u x l c in
      elim (Bool-cases (recent_claim now x)) [
        | inl live ↦
            rw live
              (Covers-cons u x (filter (recent_claim now) l) here (Covers-pruned now u l rest))
        | inr gone ↦ rw gone (Covers-pruned now u l rest)
      ]

  pub Covers-concat :
      (u : ℕ) (l : List Claim) (c : Claim)
      → Covers ws (recent_wallets u l)
      → has ws c.wallet ≡ true
      → Covers ws (recent_wallets u (l ++ c ∷ []))
  Covers-concat u [] c h k = Covers-cons u c [] (λ live. k) tt
  Covers-concat u (x ∷ l) c h k =
      let (here, rest) = Covers-cons_inv u x l h in
      Covers-cons u x (l ++ c ∷ []) here (Covers-concat u l c rest k)

-- A set covers the list that it is made of, and so does any list that holds the set.
pub Covers-weaken :
    (ws vs xs : List String)
    → ((x : String) → has ws x ≡ true → has vs x ≡ true)
    → Covers ws xs
    → Covers vs xs
Covers-weaken ws vs [] h c = tt
Covers-weaken ws vs (x ∷ xs) h (here, c) = (h x here, Covers-weaken ws vs xs h c)

Covers-self : (xs : List String) → Covers xs xs
Covers-self [] = tt
Covers-self (x ∷ xs) =
    (ground (arith, eq_refl x), Covers-weaken xs (x ∷ xs) xs (λ y h. ground arith) (Covers-self xs))

pub Covers-set_of : (xs : List String) → Covers (set_of xs) xs
Covers-set_of xs = Covers-weaken xs (set_of xs) xs (λ x h. has-set_of xs x ∙ h) (Covers-self xs)
