-- ===== src/Catalog/Bodies/Layer.antt =====
-- crates/gems-catalog/src/layer.rs
use gems.Prelude.{
  ℕ, ◌%◌, ◌^◌, ◌≡◌, refl, Bool, true, false, Option, none, some, List, [], ◌∷◌, ◌++◌, length, All,
  All-map,
}
use gems.Prelude.Results.{Result, Error, ok, err, invalid_value}
use gems.Prelude.Utf8.{IsText}
use gems.Codec.Bytes.{to_le}
use gems.Codec.Cursor.{Reader, ◌>>=◌, pure, repeat, run, Decodes}
use gems.Codec.Decodes.{
  bind-Decodes, last-Decodes, pure-Decodes, repeat-Decodes, run-Decodes, concat_map,
}
use gems.Codec.Fields.{read_flag, flag-Decodes}
use gems.Catalog.Header.{Tuid}
use gems.Catalog.Util.{
  read_u16, read_tuid, read_string_prefixed, write_string_prefixed, FitsU16, IsTuid, count-Decodes,
  read_tuid-Decodes, string-Decodes,
}

pub record Layer : Type 0 where
  pub group_ref : Tuid
  pub dynamic_query : Option (List ℕ)

pub data LayerGroup : Type 0 where
  layer_group : LayerGroup

pub record VariantList : Type 0 where
  pub values : List (List ℕ)

pub data Role : Type 0 where
  role : Role

unfoldable pub query_bytes : Option (List ℕ) → List ℕ
unfolding write_string_prefixed
query_bytes (some q) = (1 ∷ []) ++ write_string_prefixed q
query_bytes none = 0 ∷ []

unfoldable pub encode_layer : Layer → List ℕ
unfolding query_bytes
encode_layer l = l.group_ref ++ query_bytes l.dynamic_query

abbrev pub some_text : List ℕ → Option (List ℕ)
some_text q = some q

unfoldable pub read_query_if : Bool → Reader (Option (List ℕ))
unfolding read_string_prefixed
read_query_if true = read_string_prefixed >>= λ q. pure (some_text q)
read_query_if false = pure none

unfoldable pub read_query : Reader (Option (List ℕ))
unfolding read_query_if
read_query = read_flag "buffer truncated reading u8" >>= read_query_if

unfoldable pub read_layer : Reader Layer
unfolding read_tuid read_query
read_layer = do
  group_ref ← read_tuid
  dynamic_query ← read_query
  pure (record { group_ref = group_ref; dynamic_query = dynamic_query })

unfoldable pub decode_layer : List ℕ → Result Error Layer
unfolding read_layer
decode_layer = run read_layer

unfoldable pub encode_variant_list : VariantList → List ℕ
unfolding write_string_prefixed
encode_variant_list l =
    to_le 2 (length l.values % 2 ^ 16) ++ concat_map write_string_prefixed l.values

unfoldable pub read_variant_list : Reader VariantList
unfolding read_u16 read_string_prefixed
read_variant_list = do
  count ← read_u16
  values ← repeat count read_string_prefixed
  pure (record { values = values })

unfoldable pub decode_variant_list : List ℕ → Result Error VariantList
unfolding read_variant_list
decode_variant_list = run read_variant_list

-- Their bodies are empty; only a role's is tested to be so.
unfoldable pub encode_role : Role → List ℕ
encode_role role = []

unfoldable pub decode_role : List ℕ → Result Error Role
decode_role [] = ok role
decode_role (b ∷ bs) = err (invalid_value "Role body must be empty")

unfoldable pub encode_layer_group : LayerGroup → List ℕ
encode_layer_group layer_group = []

unfoldable pub decode_layer_group : List ℕ → Result Error LayerGroup
decode_layer_group buf = ok layer_group

abbrev pub IsQuery : Option (List ℕ) → Type 0
IsQuery none = Unit {0}
IsQuery (some q) = FitsU16 (length q) × IsText q

abbrev pub IsLayer : Layer → Type 0
IsLayer l = IsTuid l.group_ref × IsQuery l.dynamic_query

abbrev pub IsVariant : List ℕ → Type 0
IsVariant v = FitsU16 (length v) × IsText v

abbrev pub IsVariantList : VariantList → Type 0
IsVariantList l = FitsU16 (length l.values) × All IsVariant l.values

query-Decodes : (q : Option (List ℕ)) → IsQuery q → Decodes read_query (query_bytes q) q
unfolding read_query query_bytes read_query_if
query-Decodes none h = bind-Decodes _ (flag-Decodes _ false) pure-Decodes
query-Decodes (some q) (fits, text) =
    bind-Decodes _ (flag-Decodes _ true) (last-Decodes some_text (string-Decodes q fits text))

layer-Decodes : (l : Layer) → IsLayer l → Decodes read_layer (encode_layer l) l
unfolding read_layer encode_layer
layer-Decodes l (group, query) =
    bind-Decodes _ (read_tuid-Decodes group) (last-Decodes _ (query-Decodes l.dynamic_query query))

-- A layer is read back from its encoding.
pub layer_round_trip : (l : Layer) → IsLayer l → decode_layer (encode_layer l) ≡ ok l
unfolding decode_layer
layer_round_trip l fits = run-Decodes (layer-Decodes l fits)

-- A variant list is read back from its encoding.
pub variant_list_round_trip :
    (l : VariantList) → IsVariantList l → decode_variant_list (encode_variant_list l) ≡ ok l
unfolding decode_variant_list encode_variant_list read_variant_list
variant_list_round_trip l (fits, each) = run-Decodes (
    bind-Decodes _ (count-Decodes (length l.values) fits) (
      last-Decodes _ (
        repeat-Decodes read_string_prefixed write_string_prefixed l.values (
          All-map IsVariant (λ v. Decodes read_string_prefixed (write_string_prefixed v) v) l.values
            (λ v h. string-Decodes v h.0 h.1) each))))

-- The empty bodies are read back.
pub role_round_trip : (r : Role) → decode_role (encode_role r) ≡ ok r
unfolding decode_role encode_role
role_round_trip role = refl
