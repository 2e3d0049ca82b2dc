-- ===== src/Validation/Routes/Market.antt =====
-- Exchange offers, the registry of nodes and peers.
use vorliq.Common.{String, List, [], ◌∷◌}
use vorliq.Validation.Check.{Env, Check, ◌>>=◌, done}
use vorliq.Validation.Field.{
  require_text, require_number, require_enum, validate_wallet, validate_public_url,
}

abbrev pub offer_types : List String
offer_types = "buy" ∷ "sell" ∷ []

unfoldable pub check_offer : Env → Check (Unit {0})
check_offer env = do
  creator ← validate_wallet "creator_address" ("creatorAddress" ∷ []) "creator address"
  offer_type ← require_enum "offer_type" ("offerType" ∷ []) "offer type" offer_types
  amount ← require_number env "amount" [] "offer amount" 100000
  price ← require_text "price" [] "price" 160
  description ← require_text "description" [] "description" 1000
  done

unfoldable pub check_accept : Check (Unit {0})
check_accept = do
  offer ← require_text "offer_id" ("offerId" ∷ []) "offer ID" 128
  acceptor ← validate_wallet "acceptor_address" ("acceptorAddress" ∷ []) "acceptor address"
  done

-- complete, cancel and confirm-complete
unfoldable pub check_offer_call : Check (Unit {0})
check_offer_call = do
  offer ← require_text "offer_id" ("offerId" ∷ []) "offer ID" 128
  caller ← validate_wallet "caller_address" ("callerAddress" ∷ []) "caller address"
  done

unfoldable pub check_record_tx : Check (Unit {0})
check_record_tx = do
  offer ← require_text "offer_id" ("offerId" ∷ []) "offer ID" 128
  tx ← require_text "tx_id" ("txId" ∷ []) "transaction ID" 128
  caller ← validate_wallet "caller_address" ("callerAddress" ∷ []) "caller address"
  done

unfoldable pub check_dispute : Check (Unit {0})
check_dispute = do
  offer ← require_text "offer_id" ("offerId" ∷ []) "offer ID" 128
  caller ← validate_wallet "caller_address" ("callerAddress" ∷ []) "caller address"
  reason ← require_text "reason" [] "dispute reason" 1000
  done

unfoldable pub check_register : Env → Check (Unit {0})
check_register env = do
  node ← validate_public_url env "node_url" ("nodeUrl" ∷ []) "node URL"
  name ← require_text "display_name" ("displayName" ∷ []) "display name" 64
  done

-- heartbeat and announce
unfoldable pub check_heartbeat : Env → Check (Unit {0})
check_heartbeat env = do node ← validate_public_url env "node_url" ("nodeUrl" ∷ []) "node URL"; done

unfoldable pub check_peer : Env → Check (Unit {0})
check_peer env = do peer ← validate_public_url env "peer" [] "peer URL"; done
