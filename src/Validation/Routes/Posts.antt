-- ===== src/Validation/Routes/Posts.antt =====
-- The forum and the reports.
use vorliq.Common.{String, List, [], ◌∷◌}
use vorliq.Json.Defs.{obj}
use vorliq.Json.Stringify.{stringify}
use vorliq.Validation.Check.{Env, refused, Check, ◌>>=◌, ◌>>◌, done, reject_if}
use vorliq.Validation.Field.{require_text, require_enum, validate_wallet}
use vorliq.Validation.Secret.{has_secret}

abbrev pub forum_categories : List String
forum_categories = "general" ∷ "mining" ∷ "lending" ∷ "exchange" ∷ "governance" ∷ "technical" ∷ []

abbrev pub report_target_types : List String
report_target_types = "forum_post" ∷ "forum_reply" ∷ "chat_message" ∷ "profile" ∷ []

abbrev pub report_reasons : List String
report_reasons = "spam" ∷ "impersonation" ∷ "abuse" ∷ "scam" ∷ "illegal_content" ∷ "other" ∷ []

unfoldable pub check_forum_post : Check (Unit {0})
check_forum_post = do
  author ← validate_wallet "author_address" ("authorAddress" ∷ []) "author address"
  title ← require_text "title" [] "title" 140
  post ← require_text "body" [] "body" 5000
  category ← require_enum "category" [] "category" forum_categories
  done

unfoldable pub check_forum_reply : Check (Unit {0})
check_forum_reply = do
  post ← require_text "post_id" ("postId" ∷ []) "post ID" 128
  author ← validate_wallet "author_address" ("authorAddress" ∷ []) "author address"
  reply ← require_text "body" [] "reply" 3000
  done

unfoldable pub check_forum_upvote : Check (Unit {0})
check_forum_upvote = do
  post ← require_text "post_id" ("postId" ∷ []) "post ID" 128
  voter ← validate_wallet "address" [] "wallet address"
  done

unfoldable pub check_forum_feature : Check (Unit {0})
check_forum_feature = do
  post ← require_text "post_id" ("postId" ∷ []) "post ID" 128
  voter ← validate_wallet "voter_address" ("voterAddress" ∷ []) "voter address"
  done

unfoldable pub check_report : Env → Check (Unit {0})
check_report env = do
  λ body.
      reject_if (has_secret (stringify env.quote (obj body)))
        (refused "Report text must not include private keys, passwords, admin tokens, or secrets.")
        body
  target_type ← require_enum "target_type" ("targetType" ∷ []) "target type" report_target_types
  target ← require_text "target_id" ("targetId" ∷ []) "target ID" 160
  reason ← require_enum "reason" [] "reason" report_reasons
  description ← require_text "description" [] "description" 1000
  done
