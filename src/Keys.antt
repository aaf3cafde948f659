-- ===== src/Keys.antt =====
-- The keys of pkg/sdk/helpers.go: `FieldToKeyPart` and `JoinKeys`. How `fmt.Sprint` renders a value
-- that is neither a text nor bytes is a parameter.
pub mod Injective
use fluxrig.Prelude.{List, [], ◌∷◌, ◌++◌, Bytes, decimal, length}
use fluxrig.Message.{Value, text, binary, obj, other}

unfoldable pub field_to_key_part : (Value → Bytes) → Value → Bytes
field_to_key_part sprint (text s) = s
field_to_key_part sprint (binary b) = b
field_to_key_part sprint (obj fs) = sprint (obj fs)
field_to_key_part sprint (other n) = sprint (other n)

unfoldable pub join_keys : List Bytes → Bytes
unfolding decimal
join_keys [] = []
join_keys (p ∷ ps) = decimal (length p) ++ (b':' ∷ (p ++ join_keys ps))
