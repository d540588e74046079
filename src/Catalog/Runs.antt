-- ===== src/Catalog/Runs.antt =====
-- A concrete policy, body and header, and the codecs at them.
use gems.Prelude.{ℕ, List, ◌≡◌, refl, some, none, [], ◌∷◌, ◌++◌, length, replicate, arith}
use gems.Prelude.Results.{ok}
use gems.Catalog.Kind.{plain_data}
use gems.Catalog.Header.{EntityHeader}
use gems.Catalog.HeaderCodec.{encoded_len}
use gems.Catalog.HeaderCodec
use gems.Catalog.HeaderTrip.{IsHeader, stored, header_round_trip}
use gems.Catalog.Policy.{permit, Policy}
use gems.Catalog.PolicyCodec.{encode, decode, decode-encode}
use gems.Catalog.Bodies.Subject.{Subject, service}
use gems.Catalog.Bodies.RoundTrip.{subject, IsReadBack, body-IsReadBack}
use gems.Prelude.Utf8.{from_utf8_lossy}
use gems.Catalog.Truncate.{truncate_utf8, IsCut}

abbrev auditors : Policy
auditors = record {
  target = record { entity_kind = some plain_data; schema_ref = replicate 24 2 };
  subject = record { subject_id = replicate 24 0; role_id = replicate 24 7 };
  effect = permit;
  redact_attributes = 9 ∷ 70000 ∷ [];
}

decode-encode_example : decode (encode auditors) ≡ ok auditors
decode-encode_example =
    decode-encode auditors refl refl refl (omega arith) (omega arith, (omega arith, tt))

abbrev mailer : Subject
mailer = record {
  kind = service;
  credentials = some (record { password_hash = some (5 ∷ 6 ∷ []); totp_secret = none });
  member_of = replicate 24 1 ∷ replicate 24 2 ∷ [];
}

body-IsReadBack_example : IsReadBack (subject mailer)
body-IsReadBack_example = body-IsReadBack (subject mailer) (record {
  credentials_fit = (omega arith, tt);
  groups_fit = omega arith;
  each_group = (refl, (refl, tt));
})

-- Its name has 64 bytes, of which the last two are one character.
abbrev widgets : EntityHeader
widgets = record {
  id = replicate 24 7;
  created_by = replicate 16 1;
  modified_by = replicate 16 2;
  modified_at_ns = 456;
  name = replicate 62 97 ++ (0xc3 ∷ 0xa9 ∷ []);
  description = 98 ∷ [];
  flags = 4;
  entity_kind = plain_data;
  schema_ref = replicate 24 9;
  body_offset = 512;
  body_len = 128;
}

widgets-IsHeader : IsHeader widgets
widgets-IsHeader = record {
  id_fits = refl;
  created_by_fits = refl;
  modified_by_fits = refl;
  modified_at_fits = omega arith;
  flags_fit = omega arith;
  schema_ref_fits = refl;
  body_offset_fits = omega arith;
  body_len_fits = omega arith;
}

header_round_trip_example :
    (length (HeaderCodec.encode widgets) ≡ encoded_len)
    × (name : List ℕ) × IsCut widgets.name 63 name
    × (description : List ℕ) × IsCut widgets.description 254 description
    × (HeaderCodec.decode (HeaderCodec.encode widgets ++ (1 ∷ 2 ∷ []))
        ≡ ok (record widgets {
          name = from_utf8_lossy name;
          description = from_utf8_lossy description;
        }))
header_round_trip_example = header_round_trip widgets (1 ∷ 2 ∷ []) widgets-IsHeader

-- The name is cut before the character that does not fit.
stored_test : (stored widgets).name ≡ replicate 62 97
unfolding from_utf8_lossy truncate_utf8
stored_test = refl
