-- ===== src/Abac/Decision.antt =====
-- The policy decision point (`evaluate` of crates/gems-abac/src/lib.rs).
use gems.Prelude.{Bool, true, false, List, [], ◌∷◌, ◌++◌, ◌||◌, if◌then◌else◌, ℕ}
use gems.Prelude.Ascending.{sort_unstable, dedup}
use gems.Catalog.Kind.{EntityKind}
use gems.Catalog.Header.{Tuid}
use gems.Catalog.Policy.{Effect, Policy, applies}

pub record SubjectContext : Type 0 where
  pub subject_id : Tuid
  pub roles : List Tuid

pub data Decision : Type 0 where
  deny : Decision
  permit : List ℕ → Decision

abbrev pub is_permit : Effect → Bool
is_permit Effect.permit = true
is_permit Effect.deny = false

abbrev pub is_deny : Effect → Bool
is_deny Effect.permit = false
is_deny Effect.deny = true

unfoldable pub filter_applicable : List Policy → SubjectContext → EntityKind → Tuid → List Policy
filter_applicable [] subject kind schema_ref = []
filter_applicable (p ∷ ps) subject kind schema_ref =
    let rest = filter_applicable ps subject kind schema_ref in
    if applies p subject.subject_id subject.roles kind schema_ref then p ∷ rest else rest

unfoldable pub any_deny : List Policy → Bool
any_deny [] = false
any_deny (p ∷ ps) = is_deny p.effect || any_deny ps

abbrev pub is_empty : List Policy → Bool
is_empty [] = true
is_empty (p ∷ ps) = false

-- The attributes that the permits among the policies hide, in order of appearance.
unfoldable pub permit_redactions : List Policy → List ℕ
permit_redactions [] = []
permit_redactions (p ∷ ps) =
    let rest = permit_redactions ps in
    if is_permit p.effect then p.redact_attributes ++ rest else rest

unfoldable pub evaluate : List Policy → SubjectContext → EntityKind → Tuid → Decision
unfolding filter_applicable any_deny permit_redactions sort_unstable dedup
evaluate policies subject entity_kind schema_ref =
    let applicable = filter_applicable policies subject entity_kind schema_ref in
    if any_deny applicable
    then deny
    else if is_empty applicable
    then deny
    else permit (dedup (sort_unstable (permit_redactions applicable)))
