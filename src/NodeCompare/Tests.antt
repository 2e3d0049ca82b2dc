-- ===== src/NodeCompare/Tests.antt =====
-- Runs of the comparison at concrete nodes.
use vorliq.Common.{ℕ, String, true, false, ◌||◌, ◌≡◌, refl, none, some, ◌↔◌}
use vorliq.NodeCompare.{
  Node, Trusted, synced, forked, classify_sync_status, active_from_last_seen, recently_seen,
  is_unreachable, is_set, same_height, same_latest_hash, is_other_hash, active_window_seconds,
  recent_window_seconds,
}
use vorliq.Json.Defs.{str, num, arr, obj, nil, cons, Fields, end, field, lookup}
use vorliq.Common.Text.{
  lower_codes, holds_word, trim, without_nul, codes_eq, size, units, is_space, trim_start, trim_end,
  drop_last_space,
}
use vorliq.NodeLifecycle.{cut}
use vorliq.NodeCompare.Raw.{Reader, normalized_node, has_forbidden_public_marker, has_user_folder}
use vorliq.NodeCompare.Verdict.{synced_iff, forked_iff}

abbrev node : String → ℕ → ℕ → Node
node hash height seen = record {
  node_url = "https://node.example";
  last_seen = some seen;
  active = none;
  chain_height = some height;
  latest_block_hash = hash;
  chain_valid = some true;
  reachable = none;
  last_diagnostics_status = "valid";
  last_history_status = "online";
}

abbrev trusted : Trusted
trusted = record {
  chain_height = some 70;
  latest_hash = "aa";
  now_seconds = 100000;
  active_window = active_window_seconds;
  recent_window = recent_window_seconds;
}

synced_iff_example : (classify_sync_status (node "aa" 70 99000) trusted ≡ synced) ↔ (
    (is_set "https://node.example" ≡ true)
    × ((active_from_last_seen (node "aa" 70 99000) trusted ≡ true)
        × ((is_unreachable (node "aa" 70 99000) ≡ false)
            × ((true ≡ true)
                × ((same_height (some 70) (some 70) ≡ true)
                    × (same_latest_hash (node "aa" 70 99000) trusted ≡ true))))))
synced_iff_example = synced_iff (node "aa" 70 99000) trusted

forked_iff_example : (classify_sync_status (node "bb" 70 90000) trusted ≡ forked) ↔ (
    (is_set "https://node.example" ≡ true)
    × ((same_height (some 70) (some 70) ≡ true)
        × ((is_other_hash (node "bb" 70 90000) trusted ≡ true)
            × ((active_from_last_seen (node "bb" 70 90000) trusted
                  || recently_seen (node "bb" 70 90000) trusted)
                ≡ true))))
forked_iff_example = forked_iff (node "bb" 70 90000) trusted

-- A raw node: the height is the last one of the history, the flags are words.
abbrev raw_node : Fields
raw_node = field "nodeUrl" (str " https://node.example ") (
    field "last_seen" (num "ninety") (
      field "chain_valid" (str "Yes") (
        field "reachable" (str "no") (
          field "status_history"
            (arr (
              cons (obj (field "chain_height" (num "7") end))
                (cons (obj (field "status" (str "online") end)) nil)))
            end))))

abbrev reader : Reader
reader = record {
  string_of = λ v. elim v [ str s ↦ s | _ ↦ "" ];
  number_of = λ v. elim v [ num s ↦ some (size s) | _ ↦ none ];
}

raw_read : normalized_node reader raw_node ≡ record {
  node_url = "https://node.example";
  last_seen = some 6;
  active = none;
  chain_height = some 1;
  latest_block_hash = "";
  chain_valid = some true;
  reachable = some false;
  last_diagnostics_status = "";
  last_history_status = "online";
}
unfolding normalized_node lookup trim trim_start trim_end drop_last_space without_nul cut size units
    is_space lower_codes codes_eq
raw_read = refl

-- A folder of a Windows user, as JSON writes it, is not seen.
user_folder_passes : has_forbidden_public_marker (some "\"C:\\\\Users\\\\me\"") ≡ false
unfolding has_forbidden_public_marker lower_codes holds_word has_user_folder
user_folder_passes = refl

bearer_seen : has_forbidden_public_marker (some "\"Bearer  abc\"") ≡ true
unfolding has_forbidden_public_marker lower_codes holds_word has_user_folder is_space
bearer_seen = refl
