-- ===== src/NodeCompare/Verdict.antt =====
-- When a node is said to be synced, or forked.
use vorliq.Common.{
  ℕ, true, false, not, ◌||◌, ◌≡◌, refl, Option, none, some, arith, Bool-cases, inl, inr, ◌↔◌,
}
use vorliq.NodeCompare.{
  Node, Trusted, active_from_last_seen, recently_seen, synced, forked, is_present, is_set,
  same_height, below, same_latest_hash, is_other_hash, is_unreachable, lacks_data, compare_heights,
  classify_sync_status, is_true,
}

same_height-present :
    (a b : Option ℕ) → same_height a b ≡ true → (is_present a ≡ true) × (is_present b ≡ true)
unfolding same_height
same_height-present (some a) (some b) h = (refl, refl)
same_height-present (some a) none h = ground arith
same_height-present none b h = ground arith

same_height-below :
    (a b : Option ℕ) → same_height a b ≡ true → (below a b ≡ false) × (below b a ≡ false)
unfolding same_height below
same_height-below (some a) (some b) h = (ground arith, ground arith)
same_height-below (some a) none h = ground arith
same_height-below none b h = ground arith

same_hash-set :
    (n : Node) (t : Trusted)
    → same_latest_hash n t ≡ true
    → (is_other_hash n t ≡ false)
      × ((is_set n.latest_block_hash ≡ true) × (is_set t.latest_hash ≡ true))
unfolding same_latest_hash is_other_hash
same_hash-set n t h = ground arith

-- What compare_heights needs, and what it then says.
compare_heights-synced :
    (n : Node) (t : Trusted)
    → compare_heights n t ≡ synced
    → (active_from_last_seen n t ≡ true)
      × ((same_height n.chain_height t.chain_height ≡ true) × (same_latest_hash n t ≡ true))
unfolding compare_heights
compare_heights-synced n t h = ground arith

-- A node is synced exactly if it has a URL, is active, is not known to be unreachable, reports a
-- valid chain, and has the trusted height and the trusted hash.
pub synced_iff :
    (n : Node) (t : Trusted)
    → (classify_sync_status n t ≡ synced) ↔ (
        (is_set n.node_url ≡ true)
        × ((active_from_last_seen n t ≡ true)
            × ((is_unreachable n ≡ false)
                × ((is_true n.chain_valid ≡ true)
                    × ((same_height n.chain_height t.chain_height ≡ true)
                        × (same_latest_hash n t ≡ true))))))
unfolding classify_sync_status lacks_data
synced_iff n t = (
  λ h. ground (arith, compare_heights-synced n t),
  λ (url, (active, (reached, (valid, (height, hash))))).
      let (bare, (set, trusted)) = same_hash-set n t hash in
      let (here, there) = same_height-present n.chain_height t.chain_height height in
      unfold compare_heights in ground arith,
)

other_hash-same :
    (n : Node) (t : Trusted)
    → is_set n.latest_block_hash ≡ true
    → is_set t.latest_hash ≡ true
    → is_other_hash n t ≡ not (same_latest_hash n t)
unfolding same_latest_hash is_other_hash
other_hash-same n t h k = ground arith

compare_heights-forked :
    (n : Node) (t : Trusted)
    → compare_heights n t ≡ forked
    → (same_height n.chain_height t.chain_height ≡ true)
      × ((same_latest_hash n t ≡ false) × ((active_from_last_seen n t || recently_seen n t) ≡ true))
unfolding compare_heights
compare_heights-forked n t h = ground arith

lacks_data-set :
    (n : Node) (t : Trusted)
    → lacks_data n t ≡ false
    → (is_set n.latest_block_hash ≡ true) × (is_set t.latest_hash ≡ true)
unfolding lacks_data
lacks_data-set n t h = ground arith

-- A node is forked exactly if it has a URL, has the trusted height with another hash, both hashes
-- being known, and is active or was seen recently. What else it reports does not matter.
pub forked_iff :
    (n : Node) (t : Trusted)
    → (classify_sync_status n t ≡ forked) ↔ (
        (is_set n.node_url ≡ true)
        × ((same_height n.chain_height t.chain_height ≡ true)
            × ((is_other_hash n t ≡ true)
                × ((active_from_last_seen n t || recently_seen n t) ≡ true))))
unfolding classify_sync_status
forked_iff n t = (
  λ h. elim (Bool-cases (lacks_data n t)) [
    | inl lacks ↦ ground arith
    | inr full ↦
        let (set, trusted) = lacks_data-set n t full in
        ground (arith, compare_heights-forked n t, other_hash-same n t set trusted)
  ],
  λ h. ground arith,
)
