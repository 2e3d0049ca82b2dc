-- ===== src/Validation/Ballot.antt =====
-- What a vote that is passed on is, on the three routes of votes.
use vorliq.Common.{
  String, Bool, true, false, not, ◌≡◌, refl, Option, none, some, List, [], ◌∷◌, arith, str_eq,
  str_eq-eq, eq_iff, if◌then◌else◌, ap, sym, ◌∙◌, Bool-cases, inl, inr,
}
use mathlib.Core.Path.{subst}
use mathlib.Core.Option.{some-injective}
use vorliq.Common.Text.{one_of}
use vorliq.Json.Defs.{Json, str, Fields, lookup}
use vorliq.Address.Laws.{IsWallet, valid_iff}
use vorliq.Validation.Check.{Env, passed, and_then, done, ◌>>◌, set_field, get, is_given}
use vorliq.Validation.Field.{
  is_system_controlled, validate_public_wallet, require_enum, require_text, reject_supplied,
}
use vorliq.Validation.FieldLaws.{
  lookup-set_field, and_then-elim, passed-out, passed-parts, reject_if-passed, reject_then-passed,
  IsAddress, public_wallet-IsAddress, IsWord, enum-IsWord, supplied-passed,
}
use vorliq.Validation.Body.{validate_body, check_route}
use vorliq.Validation.Routes.Money.{require_actor, same_wallet_if, require_same_wallet}
use vorliq.Validation.Routes.Votes.{
  yes_no, lending_balance_names, governance_balance_names, treasury_vote_names, check_ballot,
  check_lending_vote, check_governance_vote, check_treasury_vote,
}

-- A vote of a public wallet, yes or no, with none of the fields `names`.
pub record IsBallot (names : List String) (out : Fields) : Type 0 where
  pub voter : String
  pub vote : String
  pub voter_field : lookup "voter_address" out ≡ some (str voter)
  pub vote_field : lookup "vote" out ≡ some (str vote)
  pub voter_wallet : IsWallet voter
  pub yes_or_no : one_of yes_no vote ≡ true
  pub no_balance : is_given (get out names) ≡ false

get-set_field :
    (names : List String) (name : String) (value : Json) (body : Fields)
    → one_of names name ≡ false
    → get (set_field name value body) names ≡ get body names
unfolding get
get-set_field [] name value body h = refl
get-set_field (n ∷ names) name value body h =
    let apart : str_eq name n ≡ false = ground (arith, eq_iff n name, eq_iff name n) in
    rw (lookup-set_field, apart, get-set_field names name value body (ground arith)) refl

actor-IsAddress :
    (name : String) (others : List String) (label message : String) (body : Fields) (actor : String)
    (out : Fields)
    → require_actor name others label message body ≡ passed actor out
    → IsAddress false name body actor out × (is_system_controlled actor ≡ false)
unfolding require_actor
actor-IsAddress name others label message body actor out h =
    and_then-elim (validate_public_wallet false name others label body) _ h λ value mid p q.
      let (free, last) =
        reject_then-passed (is_system_controlled value) _ (λ b. passed value b) mid q in
      let (e, f) = passed-parts last in
      (
        subst (λ v. IsAddress false name body v out) e
            (subst (IsAddress false name body value) f
              (public_wallet-IsAddress false name others label body value mid p)),
        subst (λ v. is_system_controlled v ≡ false) e free,
      )

-- The second wallet address changes no field but its own.
same_wallet-keeps :
    (again : Bool) (name : String) (others : List String) (label actor message : String)
    (body out : Fields)
    → same_wallet_if again name others label actor message body ≡ passed tt out
    → (other : String) → str_eq name other ≡ false
    → lookup other out ≡ lookup other body
unfolding same_wallet_if
same_wallet-keeps false name others label actor message body out h other differ =
    ap (lookup other) (sym (passed-out h))
same_wallet-keeps true name others label actor message body out h other differ =
    and_then-elim (validate_public_wallet false name others label body) _ h λ wallet mid p q.
      let a = public_wallet-IsAddress false name others label body wallet mid p in
      let (same, last) = reject_if-passed (not (str_eq wallet actor)) _ mid q in
      ap (lookup other) (sym last ∙ a.put) ∙ (rw (lookup-set_field, lookup-set_field, differ) refl)

-- The body of a ballot, put together from its parts.
IsBallot-of :
    (names : List String) (b0 b1 b2 out : Fields) (voter vote : String)
    → IsAddress false "voter_address" b0 voter b1
    → lookup "voter_address" b2 ≡ lookup "voter_address" b1
    → is_given (get b2 names) ≡ false
    → one_of names "vote" ≡ false
    → IsWord "vote" yes_no b2 vote out
    → IsBallot names out
IsBallot-of names b0 b1 b2 out voter vote a kept bare other w = record {
  voter = voter;
  vote = vote;
  voter_field =
      ap (lookup "voter_address") w.put
      ∙ (simp lookup-set_field kept)
      ∙ ap (lookup "voter_address") a.put
      ∙ (simp lookup-set_field);
  vote_field = rw w.put (simp lookup-set_field);
  voter_wallet = subst IsWallet (sym a.is_normal) ((valid_iff a.given).0 a.valid);
  yes_or_no = w.listed;
  no_balance = rw w.put (
      rw
        (
          get-set_field names "vote" (str vote) _ other,
          get-set_field names "vote" (str w.given) b2 other,
        )
        bare);
}

check_ballot-IsBallot :
    (message : String) (names : List String) (body : Fields) (voter : String) (out : Fields)
    → one_of names "vote" ≡ false
    → check_ballot message names body ≡ passed voter out
    → IsBallot names out
unfolding check_ballot require_same_wallet
check_ballot-IsBallot message names body voter out other h =
    and_then-elim (require_actor "voter_address" ("voterAddress" ∷ []) "voter address" message body)
      _ h
      λ actor b1 p1 h1.
        and_then-elim
          (require_same_wallet "voter_wallet_address" ("voterWalletAddress" ∷ [])
            "voter wallet address" actor "voter wallet address must match voter address." b1)
          _ h1
          λ same b2 p2 h2.
            and_then-elim (reject_supplied names "voter balance is derived by the server." b2) _ h2
              λ supplied b3 p3 h3.
                and_then-elim (require_enum "vote" [] "vote" yes_no b3) _ h3 λ vote b4 p4 h4.
                  let (a, free) =
                    actor-IsAddress "voter_address" ("voterAddress" ∷ []) "voter address" message
                      body actor b1 p1 in
                  let (bare, left) = supplied-passed names _ b2 b3 p3 in
                  let w = enum-IsWord "vote" [] "vote" yes_no b3 vote b4 p4 in
                  subst (IsBallot names) (passed-parts h4).1 (
                    IsBallot-of names body b1 b3 b4 actor vote a
                      (ap (lookup "voter_address") (sym left)
                        ∙ same_wallet-keeps
                            (is_given (get b1 ("voter_wallet_address" ∷ "voterWalletAddress" ∷ [])))
                            "voter_wallet_address" ("voterWalletAddress" ∷ [])
                            "voter wallet address" actor
                            "voter wallet address must match voter address." b1 b2 p2
                            "voter_address" refl)
                      (subst (λ b. is_given (get b names) ≡ false) left bare) other w)

-- The fields by which a client could claim a balance or a weight, of which each route of votes refuses
-- its own: voting with vote_weight or balance is refused for loans and the treasury, not for proposals.
abbrev pub refused_names : String → Option (List String)
refused_names path =
    if str_eq path "/api/lending/vote"
    then some (
        "voter_balance" ∷ "voterBalance" ∷ "vote_weight" ∷ "voteWeight" ∷ "voting_balance"
        ∷ "votingBalance" ∷ "balance" ∷ [])
    else if str_eq path "/api/governance/vote"
    then some ("voter_balance" ∷ "voterBalance" ∷ [])
    else if str_eq path "/api/treasury/vote"
    then some (
        "voter_balance" ∷ "voterBalance" ∷ "vote_weight" ∷ "voteWeight" ∷ "voting_balance"
        ∷ "votingBalance" ∷ "balance" ∷ "source_balance" ∷ "sourceBalance" ∷ [])
    else none

vote-IsBallot :
    (id_name : String) (id_others : List String) (id_label message : String) (names : List String)
    (body out : Fields)
    → one_of names "vote" ≡ false
    → and_then
        (require_text id_name id_others id_label 128 body)
        (λ id. check_ballot message names >> done)
      ≡ passed tt out
    → IsBallot names out
vote-IsBallot id_name id_others id_label message names body out other h =
    and_then-elim (require_text id_name id_others id_label 128 body) _ h λ id b1 p1 h1.
      and_then-elim (check_ballot message names b1) _ h1 λ voter b2 p2 h2.
        subst (IsBallot names) (passed-out h2)
          (check_ballot-IsBallot message names b1 voter b2 other p2)

-- A body that is passed on to a route of votes is a ballot: it names the wallet of a voter that is not
-- reserved and a vote, yes or no, and has none of the fields that its route refuses: for a vote on a loan
-- voter_balance, vote_weight, voting_balance and balance, for a vote on a proposal of governance only
-- voter_balance, and for a vote on the treasury source_balance besides those of a loan, each also in its
-- other spelling.
pub validate_body-IsBallot :
    (env : Env) (method path : String) (address : Option Json) (names : List String)
    (body out : Fields)
    → refused_names path ≡ some names
    → validate_body env method path address body ≡ passed tt out
    → IsBallot names out
unfolding validate_body check_route check_lending_vote check_governance_vote check_treasury_vote
validate_body-IsBallot env method path address names body out route h =
    elim (Bool-cases (str_eq path "/api/lending/vote")) [
      | inl lending ↦
          let e = str_eq-eq path "/api/lending/vote" lending in
          let same : lending_balance_names ≡ names =
            some-injective _ _ (ap refused_names (sym e) ∙ route) in
          subst (λ ns. IsBallot ns out) same
            (vote-IsBallot "loan_id" ("loanId" ∷ []) "loan ID"
              "system-controlled addresses cannot cast public lending votes." lending_balance_names
              body out refl
              (subst (λ p. check_route env method p address body ≡ passed tt out) e h))
      | inr a ↦ elim (Bool-cases (str_eq path "/api/governance/vote")) [
        | inl governance ↦
            let e = str_eq-eq path "/api/governance/vote" governance in
            let same : governance_balance_names ≡ names =
              some-injective _ _ (ap refused_names (sym e) ∙ route) in
            subst (λ ns. IsBallot ns out) same
              (vote-IsBallot "proposal_id" ("proposalId" ∷ []) "proposal ID"
                "system-controlled addresses cannot cast public governance votes."
                governance_balance_names body out refl
                (subst (λ p. check_route env method p address body ≡ passed tt out) e h))
        | inr b ↦
            let treasury : str_eq path "/api/treasury/vote" ≡ true = ground arith in
            let e = str_eq-eq path "/api/treasury/vote" treasury in
            let same : treasury_vote_names ≡ names =
              some-injective _ _ (ap refused_names (sym e) ∙ route) in
            subst (λ ns. IsBallot ns out) same
              (vote-IsBallot "proposal_id" ("proposalId" ∷ []) "proposal ID"
                "system-controlled addresses cannot cast public treasury votes." treasury_vote_names
                body out refl
                (subst (λ p. check_route env method p address body ≡ passed tt out) e h))
      ]
    ]
