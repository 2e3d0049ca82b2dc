-- ===== src/Json/Stringify.antt =====
-- JSON.stringify without indentation, over JSON.stringify of a text.
use Prim.Native.String.{◌++◌ as join}
use vorliq.Common.{String, true, false}
use vorliq.Json.Defs.{
  Json, null, bool, num, infinite, str, arr, obj, Items, nil, cons, Fields, end, field,
}

module _ (quote : String → String) where
  unfoldable mutual
    pub stringify : Json → String
    stringify null = "null"
    stringify (bool true) = "true"
    stringify (bool false) = "false"
    stringify (num text) = text
    stringify infinite = "null"
    stringify (str s) = quote s
    stringify (arr nil) = "[]"
    stringify (arr (cons v vs)) = join "[" (join (stringify v) (stringify_items vs))
    stringify (obj end) = "{}"
    stringify (obj (field k v fs)) =
        join "{" (join (quote k) (join ":" (join (stringify v) (stringify_fields fs))))

    -- What follows the first item, and the first field.
    pub stringify_items : Items → String
    stringify_items nil = "]"
    stringify_items (cons v vs) = join "," (join (stringify v) (stringify_items vs))

    pub stringify_fields : Fields → String
    stringify_fields end = "}"
    stringify_fields (field k v fs) =
        join "," (join (quote k) (join ":" (join (stringify v) (stringify_fields fs))))
