-- ===== src/Catalog/Kind.antt =====
-- crates/gems-catalog/src/kind.rs
use gems.Prelude.{ℕ, ◌≡◌, arith, ◌==◌, if◌then◌else◌}
use gems.Prelude.Results.{Result, Error, ok, err, invalid_value}

pub data EntityKind : Type 0 where
  plain_data entity_attribute entity_type subject layer layer_group variant_list role : EntityKind
  link_type link policy : EntityKind

unfoldable pub from_u8 : ℕ → Result Error EntityKind
from_u8 v =
    if v == 0
    then ok plain_data
    else if v == 1
    then ok entity_attribute
    else if v == 2
    then ok entity_type
    else if v == 3
    then ok subject
    else if v == 4
    then ok layer
    else if v == 5
    then ok layer_group
    else if v == 6
    then ok variant_list
    else if v == 7
    then ok role
    else if v == 8
    then ok link_type
    else if v == 9
    then ok link
    else if v == 10
    then ok policy
    else err (invalid_value "unknown entity kind")

-- `kind as u8`
unfoldable pub to_u8 : EntityKind → ℕ
to_u8 plain_data = 0
to_u8 entity_attribute = 1
to_u8 entity_type = 2
to_u8 subject = 3
to_u8 layer = 4
to_u8 layer_group = 5
to_u8 variant_list = 6
to_u8 role = 7
to_u8 link_type = 8
to_u8 link = 9
to_u8 policy = 10

pub from_u8-to_u8 : (k : EntityKind) → from_u8 (to_u8 k) ≡ ok k
unfolding from_u8 to_u8
from_u8-to_u8 k = ground arith
