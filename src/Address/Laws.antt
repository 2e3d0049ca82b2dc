-- ===== src/Address/Laws.antt =====
-- What a valid address is, with and without the strict length.
use vorliq.Common.{◌≤◌, String, Bool, true, false, ◌≡◌, arith, ◌↔◌}
use vorliq.Common.Text.{size}
use vorliq.Address.{
  base58_pattern, normalize_address, is_reserved_address, validate_address, is_bad_length,
  min_length, max_length,
}

-- An address of a public wallet: base58 characters, 16 to 96 of them, and no reserved name.
pub record IsWallet (s : String) : Type 0 where
  pub base58 : base58_pattern s ≡ true
  pub unreserved : is_reserved_address s ≡ false
  pub long_enough : min_length ≤ size s
  pub short_enough : size s ≤ max_length

-- Under the strict test and without reserved addresses, the valid addresses are exactly those that are
-- wallets once normalized.
pub valid_iff :
    (address : String)
    → ((validate_address false true address).valid ≡ true) ↔ IsWallet (normalize_address address)
unfolding validate_address is_bad_length base58_pattern
valid_iff address = (
  λ h. record {
    base58 = ground arith;
    unreserved = ground arith;
    long_enough = ground arith;
    short_enough = ground arith;
  },
  λ w. ground (arith, w.base58, w.unreserved, w.long_enough, w.short_enough),
)

-- An address that may be a reserved one is one, or is a wallet.
pub allowed-IsWallet :
    (address : String)
    → (validate_address true true address).valid ≡ true
    → is_reserved_address (normalize_address address) ≡ false
    → IsWallet (normalize_address address)
unfolding validate_address is_bad_length
allowed-IsWallet address h free = record {
  base58 = ground arith;
  unreserved = free;
  long_enough = ground arith;
  short_enough = ground arith;
}

pub address-normal :
    (allow_reserved strict : Bool) (address : String)
    → (validate_address allow_reserved strict address).address ≡ normalize_address address
unfolding validate_address
address-normal allow_reserved strict address = ground arith
