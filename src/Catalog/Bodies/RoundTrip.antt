-- ===== src/Catalog/Bodies/RoundTrip.antt =====
-- The bodies of crates/gems-catalog taken together.
use gems.Prelude.{◌≡◌}
use gems.Prelude.Results.{ok}
use gems.Catalog.Bodies.EntityAttribute.{IsAttribute, attribute_round_trip}
use gems.Catalog.Bodies.EntityType.{IsEntityType, filled_type, entity_type_round_trip}
use gems.Catalog.Bodies.Layer.{
  Layer, VariantList, Role, IsLayer, IsVariantList, encode_layer, decode_layer, encode_variant_list,
  decode_variant_list, encode_role, decode_role, layer_round_trip, variant_list_round_trip,
  role_round_trip,
}
use gems.Catalog.Bodies.Link.{
  LinkType, IsLink, encode_link_type, decode_link_type, link_round_trip, link_type_round_trip,
}
use gems.Catalog.Bodies.Subject.{IsSubject, filled_subject, subject_round_trip}
use gems.Catalog.Bodies.EntityAttribute
use gems.Catalog.Bodies.EntityType
use gems.Catalog.Bodies.Link
use gems.Catalog.Bodies.Subject

pub data Body : Type 0 where
  attribute : EntityAttribute.EntityAttribute → Body
  entity_type : EntityType.EntityType → Body
  layer : Layer → Body
  variant_list : VariantList → Body
  role : Role → Body
  link : Link.Link → Body
  link_type : LinkType → Body
  subject : Subject.Subject → Body

-- Every number, text and list fits the field that it is written to.
abbrev pub IsBody : Body → Type 0
IsBody (attribute a) = IsAttribute a
IsBody (entity_type t) = IsEntityType t
IsBody (layer l) = IsLayer l
IsBody (variant_list l) = IsVariantList l
IsBody (role r) = Unit {0}
IsBody (link l) = IsLink l
IsBody (link_type t) = Unit {0}
IsBody (subject s) = IsSubject s

-- The body's own decoder gets it back from what its own encoder wrote, except that an optional byte string
-- (the default of an attribute in an entity type, a credential of a subject) that is there but empty is none.
abbrev pub IsReadBack : Body → Type 0
IsReadBack (attribute a) = EntityAttribute.decode (EntityAttribute.encode a) ≡ ok a
IsReadBack (entity_type t) = EntityType.decode (EntityType.encode t) ≡ ok (filled_type t)
IsReadBack (layer l) = decode_layer (encode_layer l) ≡ ok l
IsReadBack (variant_list l) = decode_variant_list (encode_variant_list l) ≡ ok l
IsReadBack (role r) = decode_role (encode_role r) ≡ ok r
IsReadBack (link l) = Link.decode (Link.encode l) ≡ ok l
IsReadBack (link_type t) = decode_link_type (encode_link_type t) ≡ ok t
IsReadBack (subject s) = Subject.decode (Subject.encode s) ≡ ok (filled_subject s)

-- The body of an attribute, an entity type, a layer, a variant list, a role, a link, a link type or a
-- subject whose parts fit their fields is read back from its encoding, except that an attribute's default in an
-- entity type or a credential of a subject that is there but empty is read back as none. An attribute's parts
-- fit if its template is a text of no more bytes than are stored.
pub body-IsReadBack : (b : Body) → IsBody b → IsReadBack b
body-IsReadBack (attribute a) fits = attribute_round_trip a fits
body-IsReadBack (entity_type t) fits = entity_type_round_trip t fits
body-IsReadBack (layer l) fits = layer_round_trip l fits
body-IsReadBack (variant_list l) fits = variant_list_round_trip l fits
body-IsReadBack (role r) fits = role_round_trip r
body-IsReadBack (link l) fits = link_round_trip l fits
body-IsReadBack (link_type t) fits = link_type_round_trip t
body-IsReadBack (subject s) fits = subject_round_trip s fits
