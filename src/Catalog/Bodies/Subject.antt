-- ===== src/Catalog/Bodies/Subject.antt =====
-- crates/gems-catalog/src/subject.rs
use gems.Prelude.{
  ℕ, ◌≡◌, Bool, true, false, Option, none, some, List, [], ◌∷◌, ◌++◌, length, ◌==◌, if◌then◌else◌,
  All, arith,
}
use gems.Prelude.Results.{Result, Error, ok, err, invalid_value}
use gems.Codec.Cursor.{Reader, ◌>>=◌, pure, lift, run, Decodes}
use gems.Codec.Decodes.{
  bind-Decodes, check-Decodes, last-Decodes, lift-Decodes, pure-Decodes, run-Decodes,
}
use gems.Codec.Fields.{read_flag, flag-Decodes}
use gems.Catalog.Header.{Tuid}
use gems.Catalog.Util.{
  read_u8, read_tuid_list, read_optional_bytes, write_tuid_list, write_optional_bytes, FitsU16,
  IsTuid, IsOptional, filled, read_u8-Decodes, tuid_list-Decodes, optional-Decodes,
}

pub data SubjectKind : Type 0 where
  builtin_system builtin_anonymous builtin_everyone builtin_nobody : SubjectKind
  builtin_authorized user group organization service : SubjectKind

unfoldable pub subject_kind_to_u8 : SubjectKind → ℕ
subject_kind_to_u8 builtin_system = 0
subject_kind_to_u8 builtin_anonymous = 1
subject_kind_to_u8 builtin_everyone = 2
subject_kind_to_u8 builtin_nobody = 3
subject_kind_to_u8 builtin_authorized = 4
subject_kind_to_u8 user = 5
subject_kind_to_u8 group = 6
subject_kind_to_u8 organization = 7
subject_kind_to_u8 service = 8

unfoldable pub subject_kind_from_u8 : ℕ → Result Error SubjectKind
subject_kind_from_u8 v =
    if v == 0
    then ok builtin_system
    else if v == 1
    then ok builtin_anonymous
    else if v == 2
    then ok builtin_everyone
    else if v == 3
    then ok builtin_nobody
    else if v == 4
    then ok builtin_authorized
    else if v == 5
    then ok user
    else if v == 6
    then ok group
    else if v == 7
    then ok organization
    else if v == 8
    then ok service
    else err (invalid_value "unknown SubjectKind")

unfoldable pub accepts_credentials : SubjectKind → Bool
accepts_credentials user = true
accepts_credentials service = true
accepts_credentials _ = false

pub record Credentials : Type 0 where
  pub password_hash : Option (List ℕ)
  pub totp_secret : Option (List ℕ)

pub record Subject : Type 0 where
  pub kind : SubjectKind
  pub credentials : Option Credentials
  pub member_of : List Tuid

unfoldable pub credentials_bytes : Option Credentials → List ℕ
unfolding write_optional_bytes
credentials_bytes (some c) =
    (1 ∷ []) ++ (write_optional_bytes c.password_hash ++ write_optional_bytes c.totp_secret)
credentials_bytes none = 0 ∷ []

unfoldable pub encode : Subject → List ℕ
unfolding subject_kind_to_u8 credentials_bytes write_tuid_list
encode s =
    (subject_kind_to_u8 s.kind ∷ [])
    ++ (credentials_bytes s.credentials ++ write_tuid_list s.member_of)

unfoldable pub read_credentials_if : Bool → Reader (Option Credentials)
unfolding read_optional_bytes
read_credentials_if true = do
  password_hash ← read_optional_bytes
  totp_secret ← read_optional_bytes
  pure (some (record { password_hash = password_hash; totp_secret = totp_secret }))
read_credentials_if false = pure none

unfoldable pub read_credentials : Reader (Option Credentials)
unfolding read_credentials_if
read_credentials = read_flag "buffer truncated reading u8" >>= read_credentials_if

unfoldable pub read_subject : Reader Subject
unfolding read_u8 subject_kind_from_u8 read_credentials read_tuid_list
read_subject = do
  kind_byte ← read_u8
  kind ← lift (subject_kind_from_u8 kind_byte)
  credentials ← read_credentials
  member_of ← read_tuid_list
  pure (record { kind = kind; credentials = credentials; member_of = member_of })

unfoldable pub decode : List ℕ → Result Error Subject
unfolding read_subject
decode = run read_subject

abbrev pub IsCredentials : Option Credentials → Type 0
IsCredentials none = Unit {0}
IsCredentials (some c) = IsOptional c.password_hash × IsOptional c.totp_secret

pub record IsSubject (s : Subject) : Type 0 where
  pub credentials_fit : IsCredentials s.credentials
  pub groups_fit : FitsU16 (length s.member_of)
  pub each_group : All IsTuid s.member_of

kind-from_u8 : (k : SubjectKind) → subject_kind_from_u8 (subject_kind_to_u8 k) ≡ ok k
unfolding subject_kind_from_u8 subject_kind_to_u8
kind-from_u8 k = ground arith

abbrev filled_credentials : Option Credentials → Option Credentials
filled_credentials none = none
filled_credentials (some c) =
    some (record { password_hash = filled c.password_hash; totp_secret = filled c.totp_secret })

-- The subject with no credential that is empty.
abbrev pub filled_subject : Subject → Subject
filled_subject s = record s { credentials = filled_credentials s.credentials }

credentials-Decodes :
    (o : Option Credentials)
    → IsCredentials o
    → Decodes read_credentials (credentials_bytes o) (filled_credentials o)
unfolding read_credentials read_credentials_if credentials_bytes
credentials-Decodes none h = bind-Decodes _ (flag-Decodes _ false) pure-Decodes
credentials-Decodes (some c) (password, totp) = bind-Decodes _ (flag-Decodes _ true) (
    bind-Decodes _ (optional-Decodes c.password_hash password)
      (last-Decodes _ (optional-Decodes c.totp_secret totp)))

-- A subject is read back from its encoding, an empty credential as none.
pub subject_round_trip : (s : Subject) → IsSubject s → decode (encode s) ≡ ok (filled_subject s)
unfolding decode encode read_subject
subject_round_trip s fits = run-Decodes (
    bind-Decodes _ read_u8-Decodes (
      check-Decodes _ (lift-Decodes (kind-from_u8 s.kind)) (
        bind-Decodes _ (credentials-Decodes s.credentials fits.credentials_fit)
          (last-Decodes _ (tuid_list-Decodes s.member_of fits.groups_fit fits.each_group)))))
