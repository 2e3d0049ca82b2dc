-- ===== src/Faucet/Views.antt =====
-- backend/faucetAbuse.js: what the admin pages show of the store. The entries of an object stand in
-- the order of its dictionary.
use vorliq.Common.{
  ℕ, String, Bool, true, false, ◌&&◌, ◌||◌, ◌≡◌, refl, ◌↔◌, Option, none, some, List, [], ◌∷◌, map,
  str_eq, ltb, leb, if◌then◌else◌, filter, length, any, take, arith, ap, sym, ◌∙◌, ceil_div,
}
use vorliq.Common.Dict
use vorliq.Common.Dict.{Dict}
use vorliq.Faucet.{
  Store, Claim, Ban, recent_claim, set_of, faucet_ip_wallet_limit, day_ms, ip_distinct_wallets,
  ip_faucet_decision, listed, norm_ip, denied,
}

pub record IpRow : Type 0 where
  pub ip : String
  pub claims : ℕ
  pub distinct_wallets : ℕ

pub record WalletRow : Type 0 where
  pub wallet : String
  pub claims : ℕ

-- `.sort((a, b) => b.key - a.key)`: the rows that are level keep their order.
module _ {A : Type 0} (key : A → ℕ) where
  unfoldable insert_by : A → List A → List A
  insert_by x [] = x ∷ []
  insert_by x (y ∷ ys) =
      let rest = insert_by x ys in if leb (key y) (key x) then x ∷ y ∷ ys else y ∷ rest

  unfoldable pub sort_by : List A → List A
  unfolding insert_by
  sort_by [] = []
  sort_by (x ∷ xs) = insert_by x (sort_by xs)

-- The claims of the last day, counted.
abbrev ip_row : ℕ → String × List Claim → IpRow
ip_row now (ip, list) = record {
  ip = ip;
  claims = length (filter (recent_claim now) list);
  distinct_wallets =
      length (set_of (map (λ (c : Claim). c.wallet) (filter (recent_claim now) list)));
}

unfoldable pub top_ips_by_claims_24h : Store → ℕ → ℕ → List IpRow
unfolding sort_by
top_ips_by_claims_24h s limit now = take limit (
    sort_by (λ (r : IpRow). r.claims)
      (filter (λ (r : IpRow). ltb 0 r.claims) (map (ip_row now) s.ip_claims.entries)))

unfoldable pub top_wallets_by_claims : Store → ℕ → List WalletRow
unfolding sort_by
top_wallets_by_claims s limit = take limit (
    sort_by (λ (r : WalletRow). r.claims)
      (map (λ (e : String × ℕ). record { wallet = e.0; claims = e.1 })
        s.wallet_claim_counts.entries))

abbrev is_at_limit : IpRow → Bool
is_at_limit r = leb faucet_ip_wallet_limit r.distinct_wallets

unfoldable pub ips_at_multi_wallet_limit : Store → ℕ → List IpRow
unfolding sort_by
ips_at_multi_wallet_limit s now =
    sort_by (λ (r : IpRow). r.distinct_wallets)
      (filter is_at_limit (map (ip_row now) s.ip_claims.entries))

-- The banned addresses and the banned wallets, each with its ban.
unfoldable pub list_bans : Store → List (String × Ban) × List (String × Ban)
list_bans s = (s.banned_ips.entries, s.banned_wallets.entries)

module _ {A : Type 0} (key : A → ℕ) (p : A → Bool) where
  any-insert_by : (x : A) (xs : List A) → any p (insert_by key x xs) ≡ (p x || any p xs)
  unfolding insert_by
  any-insert_by x [] = refl
  any-insert_by x (y ∷ ys) = ground (arith, any-insert_by x ys)

  any-sort_by : (xs : List A) → any p (sort_by key xs) ≡ any p xs
  unfolding sort_by
  any-sort_by [] = refl
  any-sort_by (x ∷ xs) = any-insert_by x (sort_by key xs) ∙ ap (λ b. p x || b) (any-sort_by xs)

-- The rows of an address.
abbrev pub shows : String → List IpRow → Bool
shows ip rows = any (λ (r : IpRow). str_eq r.ip ip) rows

any-filtered :
    (now : ℕ) (ip : String) (es : List (String × List Claim))
    → shows ip (filter is_at_limit (map (ip_row now) es))
      ≡ any (λ e. str_eq e.0 ip && is_at_limit (ip_row now e)) es
any-filtered now ip [] = refl
any-filtered now ip (e ∷ es) = ground (arith, any-filtered now ip es)

at_limit :
    (now : ℕ) (ip : String) (o : Option (List Claim))
    → elim o [ none ↦ false | some list ↦ is_at_limit (ip_row now (ip, list)) ]
      ≡ leb faucet_ip_wallet_limit
          (length (set_of (map (λ (c : Claim). c.wallet) (filter (recent_claim now) (listed o)))))
unfolding set_of
at_limit now ip none = refl
at_limit now ip (some list) = refl

shows-ips_at_multi_wallet_limit :
    (s : Store) (ip : String) (now : ℕ)
    → norm_ip ip ≡ ip
    → shows ip (ips_at_multi_wallet_limit s now)
      ≡ leb faucet_ip_wallet_limit (length (ip_distinct_wallets s ip now))
unfolding ips_at_multi_wallet_limit ip_distinct_wallets
shows-ips_at_multi_wallet_limit s ip now normal =
    any-sort_by (λ (r : IpRow). r.distinct_wallets) (λ (r : IpRow). str_eq r.ip ip)
      (filter is_at_limit (map (ip_row now) s.ip_claims.entries))
    ∙ any-filtered now ip s.ip_claims.entries
    ∙ Dict.any-entries (λ list. is_at_limit (ip_row now (ip, list))) s.ip_claims ip
    ∙ at_limit now ip (Dict.get s.ip_claims ip)
    ∙ ap
        (λ k. leb faucet_ip_wallet_limit (
          length (
            set_of (
              map (λ (c : Claim). c.wallet)
                (filter (recent_claim now) (listed (Dict.get s.ip_claims k)))))))
        (sym normal)

-- An address, as the store names it, is shown as one at the limit exactly if a claim from it for a
-- wallet that it has not claimed for within the day is denied.
pub at_limit-denied :
    (s : Store) (ip wallet : String) (now : ℕ)
    → norm_ip ip ≡ ip
    → any (str_eq wallet) (ip_distinct_wallets s ip now) ≡ false
    → (shows ip (ips_at_multi_wallet_limit s now) ≡ true)
      ↔ (ip_faucet_decision false s ip wallet now ≡ denied (ceil_div day_ms 1000) "ip_wallet_limit")
unfolding ip_faucet_decision
at_limit-denied s ip wallet now normal new =
    let e = shows-ips_at_multi_wallet_limit s ip now normal in
    (λ shown. ground arith, λ refused. ground arith)
