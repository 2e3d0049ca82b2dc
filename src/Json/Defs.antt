-- ===== src/Json/Defs.antt =====
-- JSON values, and the payload of a request (`bodyWithoutAuthorization` of
-- backend/middleware/signedAuthorization.js). A finite number is the text that JSON.stringify
-- prints for it; `infinite` is a literal too large for a double.
use vorliq.Common.{String, Bool, Option, none, some, str_eq, if◌then◌else◌}

mutual
  pub data Json : Type 0 where
    null : Json
    bool : Bool → Json
    num : String → Json
    infinite : Json
    str : String → Json
    arr : Items → Json
    obj : Fields → Json

  pub data Items : Type 0 where
    nil : Items
    cons : Json → Items → Items

  pub data Fields : Type 0 where
    end : Fields
    field : String → Json → Fields → Fields

-- The value of a field; `none` is `undefined`.
unfoldable pub lookup : String → Fields → Option Json
lookup k end = none
lookup k (field j v fs) = if str_eq j k then some v else lookup k fs

-- `bodyWithoutAuthorization`
unfoldable pub without_authorization : Fields → Fields
without_authorization end = end
without_authorization (field k v fs) =
    let rest = without_authorization fs in if str_eq k "authorization" then rest else field k v rest
