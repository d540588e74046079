-- ===== src/Catalog/PolicyCodec.antt =====
-- `encode` and `decode` of crates/gems-catalog/src/policy.rs.
use gems.Prelude.{
  ℕ, ◌%◌, ◌^◌, ◌<◌, ◌≡◌, refl, Bool, not, Option, none, some, List, [], ◌∷◌, ◌++◌, length, All,
  All-map, ◌==◌, if◌then◌else◌,
}
use gems.Prelude.Results.{Result, Error, ok, err, invalid_value}
use gems.Codec.Bytes.{to_le, from_le, le_bound}
use gems.Codec.Cursor.{read_le, Reader, ◌>>=◌, pure, lift, run, repeat, Decodes}
use gems.Codec.Decodes.{
  le-Decodes, bind-Decodes, check-Decodes, last-Decodes, lift-Decodes, repeat-Decodes, run-Decodes,
  concat_map,
}
use gems.Catalog.Kind.{EntityKind, from_u8, to_u8, from_u8-to_u8}
use gems.Catalog.Policy.{Effect, permit, deny, Policy}
use gems.Catalog.Util.{
  read_u8, read_u16, read_bytes, read_tuid, FitsU16, IsTuid, read_u8-Decodes, count-Decodes,
  read_tuid-Decodes,
}

unfoldable pub kind_bytes : Option EntityKind → List ℕ
unfolding to_u8
kind_bytes (some k) = 1 ∷ to_u8 k ∷ []
kind_bytes none = 0 ∷ 0 ∷ []

unfoldable pub effect_byte : Effect → ℕ
effect_byte permit = 0
effect_byte deny = 1

unfoldable pub encode : Policy → List ℕ
unfolding kind_bytes effect_byte
encode p =
    kind_bytes p.target.entity_kind
    ++ (p.target.schema_ref
        ++ (p.subject.subject_id
            ++ (p.subject.role_id
                ++ ((effect_byte p.effect ∷ [])
                    ++ (to_le 2 (length p.redact_attributes % 2 ^ 16)
                        ++ concat_map (to_le 4) p.redact_attributes)))))

abbrev some_kind : Result Error EntityKind → Result Error (Option EntityKind)
some_kind (ok k) = ok (some k)
some_kind (err e) = err e

unfoldable pub kind_from : Bool → ℕ → Result Error (Option EntityKind)
unfolding from_u8
kind_from has_kind kind_byte = if has_kind then some_kind (from_u8 kind_byte) else ok none

unfoldable pub effect_from : ℕ → Result Error Effect
effect_from b =
    if b == 0
    then ok permit
    else if b == 1
    then ok deny
    else err (invalid_value "unknown policy effect")

unfoldable pub read_kind : Reader (Option EntityKind)
unfolding kind_from read_u8
read_kind = do
  has_kind ← read_u8
  kind_byte ← read_u8
  lift (kind_from (not (has_kind == 0)) kind_byte)

unfoldable pub read_id : Reader ℕ
unfolding read_bytes from_le
read_id = do bytes ← read_bytes 4; pure (from_le bytes)

unfoldable pub read_policy : Reader Policy
unfolding read_kind read_tuid read_u8 effect_from read_u16 read_id
read_policy = do
  entity_kind ← read_kind
  schema_ref ← read_tuid
  subject_id ← read_tuid
  role_id ← read_tuid
  effect_byte ← read_u8
  effect ← lift (effect_from effect_byte)
  redact_count ← read_u16
  redact_attributes ← repeat redact_count read_id
  pure (record {
    target = record { entity_kind = entity_kind; schema_ref = schema_ref };
    subject = record { subject_id = subject_id; role_id = role_id };
    effect = effect;
    redact_attributes = redact_attributes;
  })

unfoldable pub decode : List ℕ → Result Error Policy
unfolding read_policy
decode = run read_policy

effect_from-effect_byte : (e : Effect) → effect_from (effect_byte e) ≡ ok e
unfolding effect_from effect_byte
effect_from-effect_byte permit = refl
effect_from-effect_byte deny = refl

kind-Decodes : (k : Option EntityKind) → Decodes read_kind (kind_bytes k) k
unfolding read_kind kind_bytes kind_from
kind-Decodes none =
    bind-Decodes _ read_u8-Decodes (bind-Decodes _ read_u8-Decodes (lift-Decodes refl))
kind-Decodes (some k) =
    bind-Decodes _ read_u8-Decodes
      (bind-Decodes _ read_u8-Decodes (lift-Decodes (rw (from_u8-to_u8 k) refl)))

id-Decodes : (id : ℕ) → id < 2 ^ 32 → Decodes read_id (to_le 4 id) id
unfolding read_id read_bytes le_bound read_le
id-Decodes id small = le-Decodes _ 4 id small

-- A policy whose identifiers are 24 bytes, whose attributes are 32-bit numbers and fewer than
-- 65536 is read back from its encoding.
pub decode-encode :
    (p : Policy)
    → IsTuid p.target.schema_ref
    → IsTuid p.subject.subject_id
    → IsTuid p.subject.role_id
    → FitsU16 (length p.redact_attributes)
    → All (λ id. id < 2 ^ 32) p.redact_attributes
    → decode (encode p) ≡ ok p
unfolding decode encode read_policy
decode-encode p schema subject role few small = run-Decodes (
    bind-Decodes _ (kind-Decodes p.target.entity_kind) (
      bind-Decodes _ (read_tuid-Decodes schema) (
        bind-Decodes _ (read_tuid-Decodes subject) (
          bind-Decodes _ (read_tuid-Decodes role) (
            bind-Decodes _ read_u8-Decodes (
              check-Decodes _ (lift-Decodes (effect_from-effect_byte p.effect)) (
                bind-Decodes _ (count-Decodes (length p.redact_attributes) few) (
                  last-Decodes _ (
                    repeat-Decodes read_id (to_le 4) p.redact_attributes (
                      All-map (λ id. id < 2 ^ 32) (λ id. Decodes read_id (to_le 4 id) id)
                        p.redact_attributes id-Decodes small))))))))))
