-- ===== src/Catalog/Policy.antt =====
-- crates/gems-catalog/src/policy.rs: which entities and subjects a policy is about.
use gems.Prelude.{
  ℕ, Bool, true, false, not, ◌&&◌, ◌||◌, Option, none, some, List, [], ◌∷◌, ◌==◌, if◌then◌else◌,
}
use gems.Catalog.Kind.{EntityKind, to_u8}
use gems.Catalog.Header.{Tuid, nil, tuid_eq}

pub data Effect : Type 0 where
  permit deny : Effect

pub record TargetPredicate : Type 0 where
  pub entity_kind : Option EntityKind
  pub schema_ref : Tuid

pub record SubjectPredicate : Type 0 where
  pub subject_id : Tuid
  pub role_id : Tuid

pub record Policy : Type 0 where
  pub target : TargetPredicate
  pub subject : SubjectPredicate
  pub effect : Effect
  pub redact_attributes : List ℕ

abbrev pub kind_eq : EntityKind → EntityKind → Bool
unfolding to_u8
kind_eq a b = to_u8 a == to_u8 b

abbrev pub admits_kind : Option EntityKind → EntityKind → Bool
unfolding kind_eq
admits_kind none kind = true
admits_kind (some k) kind = kind_eq k kind

-- subject_roles.contains(role)
unfoldable pub holds_role : Tuid → List Tuid → Bool
unfolding tuid_eq
holds_role role [] = false
holds_role role (r ∷ rs) = tuid_eq r role || holds_role role rs

unfoldable pub target_matches : TargetPredicate → EntityKind → Tuid → Bool
unfolding admits_kind nil tuid_eq
target_matches t entity_kind schema_ref =
    admits_kind t.entity_kind entity_kind
    && (tuid_eq t.schema_ref nil || tuid_eq t.schema_ref schema_ref)

unfoldable pub subject_matches : SubjectPredicate → Tuid → List Tuid → Bool
unfolding holds_role nil tuid_eq
subject_matches s acting_subject subject_roles =
    if tuid_eq s.subject_id nil && tuid_eq s.role_id nil
    then true
    else (not (tuid_eq s.subject_id nil) && tuid_eq s.subject_id acting_subject)
      || (not (tuid_eq s.role_id nil) && holds_role s.role_id subject_roles)

unfoldable pub applies : Policy → Tuid → List Tuid → EntityKind → Tuid → Bool
unfolding target_matches subject_matches
applies p acting_subject subject_roles entity_kind schema_ref =
    target_matches p.target entity_kind schema_ref
    && subject_matches p.subject acting_subject subject_roles
