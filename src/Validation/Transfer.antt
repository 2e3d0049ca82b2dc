-- ===== src/Validation/Transfer.antt =====
-- What a transaction that is passed on is.
use vorliq.Common.{
  ◌≤◌, String, true, false, ◌≡◌, Option, some, [], ◌∷◌, arith, str_eq, ap, sym, ◌∙◌,
}
use mathlib.Core.Path.{subst}
use vorliq.Common.Text.{size, codes, one_of}
use vorliq.Json.Defs.{Json, str, Fields, lookup}
use vorliq.Address.{is_reserved_address}
use vorliq.Address.Laws.{IsWallet, valid_iff, allowed-IsWallet}
use vorliq.Validation.Check.{Env, passed, set_field}
use vorliq.Validation.Field.{
  all_hex, is_system_controlled, validate_public_wallet, require_number, validate_signature,
  require_text,
}
use vorliq.Validation.FieldLaws.{
  lookup-set_field, and_then-elim, passed-out, passed-parts, reject_then-passed, IsText,
  require_text-IsText, IsAddress, public_wallet-IsAddress, system_controlled-reserved,
  signature-IsText, IsAmount, number-IsAmount,
}
use vorliq.Validation.Body.{validate_body, check_route}
use vorliq.Validation.Routes.Money.{
  require_sender, admit_receiver, require_receiver, check_payment, check_transaction,
}

sender-IsAddress :
    (body : Fields) (sender : String) (out : Fields)
    → require_sender body ≡ passed sender out
    → IsAddress true "sender_address" body sender out × (is_system_controlled sender ≡ false)
unfolding require_sender
sender-IsAddress body sender out h =
    and_then-elim
      (validate_public_wallet true "sender_address" ("senderAddress" ∷ "sender" ∷ [])
        "sender address" body)
      _ h
      λ value mid p q.
        let (free, last) =
          reject_then-passed (is_system_controlled value) _ (λ b. passed value b) mid q in
        let (e, f) = passed-parts last in
        (
          subst (λ v. IsAddress true "sender_address" body v out) e
              (subst (IsAddress true "sender_address" body value) f (
                public_wallet-IsAddress true "sender_address" ("senderAddress" ∷ "sender" ∷ [])
                  "sender address" body value mid p)),
          subst (λ v. is_system_controlled v ≡ false) e free,
        )

admitted :
    (sender value receiver : String) (mid out : Fields)
    → admit_receiver sender value mid ≡ passed receiver out
    → (str_eq sender value ≡ false) × ((value ≡ receiver) × (mid ≡ out))
unfolding admit_receiver
admitted sender value receiver mid out h = ground arith

receiver-IsAddress :
    (sender : String) (body : Fields) (receiver : String) (out : Fields)
    → require_receiver sender body ≡ passed receiver out
    → IsAddress false "receiver_address" body receiver out × (str_eq sender receiver ≡ false)
unfolding require_receiver
receiver-IsAddress sender body receiver out h =
    and_then-elim
      (validate_public_wallet false "receiver_address" ("receiverAddress" ∷ "receiver" ∷ [])
        "receiver address" body)
      _ h
      λ value mid p q.
        let (differ, (e, f)) = admitted sender value receiver mid out q in
        (
          subst (λ v. IsAddress false "receiver_address" body v out) e
              (subst (IsAddress false "receiver_address" body value) f (
                public_wallet-IsAddress false "receiver_address"
                  ("receiverAddress" ∷ "receiver" ∷ []) "receiver address" body value mid p)),
          subst (λ v. str_eq sender v ≡ false) e differ,
        )

module _ (env : Env) where
  open env use {Number, number_json, of_nat, less}

  -- The body of a transaction: two different wallets, an amount above 0 and at most 21 million, a
  -- signature in hexadecimal and a public key, each under its first name; all else is as it was.
  pub record IsTransfer (body out : Fields) : Type 0 where
    pub sender : String
    pub receiver : String
    pub amount : Number
    pub signature : String
    pub public_key : String
    pub sender_field : lookup "sender_address" out ≡ some (str sender)
    pub receiver_field : lookup "receiver_address" out ≡ some (str receiver)
    pub amount_field : lookup "amount" out ≡ some (number_json amount)
    pub signature_field : lookup "signature" out ≡ some (str signature)
    pub key_field : lookup "sender_public_key" out ≡ some (str public_key)
    pub sender_wallet : IsWallet sender
    pub receiver_wallet : IsWallet receiver
    pub two_wallets : str_eq sender receiver ≡ false
    pub positive : less (of_nat 0) amount ≡ true
    pub bounded : less (of_nat 21_000_000) amount ≡ false
    pub hex : all_hex (codes signature) ≡ true
    pub short_signature : size signature ≤ 512
    pub has_key : str_eq public_key "" ≡ false
    pub short_key : size public_key ≤ 3000
    pub rest :
        (name : String)
        → one_of
            ("sender_address" ∷ "receiver_address" ∷ "amount" ∷ "signature" ∷ "sender_public_key"
              ∷ [])
            name
          ≡ false
        → lookup name out ≡ lookup name body

  -- The body that a transaction leaves, with its values.
  abbrev written : Fields → String → String → String → String → Number → String → String → Fields
  written body s0 sender r0 receiver amount signature key =
      set_field "sender_public_key" (str key) (
        set_field "signature" (str signature) (
          set_field "amount" (number_json amount) (
            set_field "receiver_address" (str receiver) (
              set_field "receiver_address" (str r0) (
                set_field "sender_address" (str sender)
                  (set_field "sender_address" (str s0) body))))))

  written-rest :
      (body : Fields) (s0 sender r0 receiver : String) (amount : Number)
      (signature key name : String)
      → one_of
          ("sender_address" ∷ "receiver_address" ∷ "amount" ∷ "signature" ∷ "sender_public_key"
            ∷ [])
          name
        ≡ false
      → lookup name (written body s0 sender r0 receiver amount signature key) ≡ lookup name body
  written-rest body s0 sender r0 receiver amount signature key name other =
      simp lookup-set_field (ground arith)

  -- The facts that the checks leave, put together.
  assembled :
      (body b1 b2 b3 b4 out : Fields) (sender receiver : String) (amount : Number)
      (signature key : String)
      → IsAddress true "sender_address" body sender b1
      → is_system_controlled sender ≡ false
      → IsAddress false "receiver_address" b1 receiver b2
      → str_eq sender receiver ≡ false
      → IsAmount env "amount" 21_000_000 b2 amount b3
      → IsText "signature" 512 b3 signature b4
      → all_hex (codes signature) ≡ true
      → IsText "sender_public_key" 3000 b4 key out
      → IsTransfer body out
  assembled body b1 b2 b3 b4 out sender receiver amount signature key s free r differ a g hex k =
      let final : out ≡ written body s.given sender r.given receiver amount signature key =
        ground (arith, s.put, r.put, a.put, g.put, k.put) in
      record {
        sender = sender;
        receiver = receiver;
        amount = amount;
        signature = signature;
        public_key = key;
        sender_field = rw final (simp lookup-set_field);
        receiver_field = rw final (simp lookup-set_field);
        amount_field = rw final (simp lookup-set_field);
        signature_field = rw final (simp lookup-set_field);
        key_field = rw final (simp lookup-set_field);
        sender_wallet = subst IsWallet (sym s.is_normal) (
            allowed-IsWallet s.given s.valid
              (ap is_reserved_address (sym s.is_normal) ∙ system_controlled-reserved sender free));
        receiver_wallet = subst IsWallet (sym r.is_normal) ((valid_iff r.given).0 r.valid);
        two_wallets = differ;
        positive = a.positive;
        bounded = a.bounded;
        hex = hex;
        short_signature = g.short;
        has_key = k.not_blank;
        short_key = k.short;
        rest = λ name other.
            rw final
              (written-rest body s.given sender r.given receiver amount signature key name other);
      }

  payment-IsTransfer :
      (body b1 b2 out : Fields) (sender receiver : String)
      → IsAddress true "sender_address" body sender b1
      → is_system_controlled sender ≡ false
      → IsAddress false "receiver_address" b1 receiver b2
      → str_eq sender receiver ≡ false
      → check_payment env b2 ≡ passed tt out
      → IsTransfer body out
  unfolding check_payment
  payment-IsTransfer body b1 b2 out sender receiver s free r differ h =
      and_then-elim (require_number env "amount" [] "amount" 21_000_000 b2) _ h λ amount b3 p3 h3.
        and_then-elim (validate_signature "signature" [] "signature" b3) _ h3 λ signature b4 p4 h4.
          and_then-elim
            (require_text "sender_public_key" ("senderPublicKey" ∷ []) "sender public key" 3000 b4)
            _ h4
            λ key b5 p5 h5.
              let (g, hex) = signature-IsText "signature" [] "signature" b3 signature b4 p4 in
              subst (IsTransfer body) (passed-out h5) (
                assembled body b1 b2 b3 b4 b5 sender receiver amount signature key s free r differ
                  (number-IsAmount env "amount" [] "amount" 21_000_000 b2 amount b3 p3) g hex
                  (require_text-IsText "sender_public_key" ("senderPublicKey" ∷ [])
                    "sender public key" 3000 b4 key b5 p5))

  -- A transaction that passes its check is passed on with a body of this form.
  pub transaction-IsTransfer :
      (body out : Fields) → check_transaction env body ≡ passed tt out → IsTransfer body out
  unfolding check_transaction
  transaction-IsTransfer body out h = and_then-elim (require_sender body) _ h λ sender b1 p1 h1.
      and_then-elim (require_receiver sender b1) _ h1 λ receiver b2 p2 h2.
        let (s, free) = sender-IsAddress body sender b1 p1 in
        let (r, differ) = receiver-IsAddress sender b1 receiver b2 p2 in
        payment-IsTransfer body b1 b2 out sender receiver s free r differ h2

  -- A body that is passed on to the route of transactions is that of a transaction: two different wallets
  -- of which neither is reserved, an amount above 0 and at most 21 million, a signature in hexadecimal and
  -- a public key of bounded sizes, and in all other fields the body that came in.
  pub validate_body-IsTransfer :
      (method : String) (address : Option Json) (body out : Fields)
      → validate_body env method "/api/transaction/send" address body ≡ passed tt out
      → IsTransfer body out
  unfolding validate_body check_route
  validate_body-IsTransfer method address body out h = transaction-IsTransfer body out h
