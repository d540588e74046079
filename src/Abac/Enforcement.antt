-- ===== src/Abac/Enforcement.antt =====
-- The policy enforcement point (`enforce` of crates/gems-abac/src/lib.rs). `none` is a panic.
use gems.Prelude.{
  ℕ, ◌≡◌, ◌⊎◌, inl, inr, refl, Option, some, List, [], ◌∷◌, ◌>>=◌, All, Member, map, ap, ◌∙◌,
}
use gems.Prelude.Results.{Result, Error, ok, err}
use gems.Catalog.Header.{EntityHeader}
use gems.Catalog.Policy.{Policy}
use gems.Abac.Decision.{SubjectContext, Decision, deny, permit, evaluate}
use gems.Codec.Builder.{DirEntry, GbvBuilder, finish}
use gems.Codec.Reader.{GbvReader, open_reader}
use gems.Codec.Redact.{redact, redact-hides, IsShown, IsBuilt, directory, kept_of}

abbrev pub Entity : Type 0
Entity = EntityHeader × List ℕ

-- The body without the redacted attributes, or as it is where it is no GBV buffer.
abbrev pub redacted_body : List ℕ → List ℕ → Result Error GbvReader → Option (List ℕ)
unfolding redact
redacted_body body redact_attributes (ok r) = redact r redact_attributes
redacted_body body redact_attributes (err e) = some body

-- What is kept of an entity, put before what is kept of the rest.
unfoldable pub enforce_decision : Entity → Decision → List Entity → Option (List Entity)
unfolding redacted_body open_reader
enforce_decision (header, body) deny rest = some rest
enforce_decision (header, body) (permit []) rest = some ((header, body) ∷ rest)
enforce_decision (header, body) (permit (a ∷ more)) rest = do
  redacted ← redacted_body body (a ∷ more) (open_reader body)
  some ((header, redacted) ∷ rest)

unfoldable pub enforce : List Policy → SubjectContext → List Entity → Option (List Entity)
unfolding enforce_decision evaluate
enforce policies subject [] = some []
enforce policies subject ((header, body) ∷ more) = do
  rest ← enforce policies subject more
  enforce_decision (header, body) (evaluate policies subject header.entity_kind header.schema_ref)
      rest

-- `out` is a GBV buffer's body without its hidden fields: a builder, finished, that has no directory entry of
-- one, and holds exactly the fields that are to be kept of those in the buffer's directory.
abbrev pub IsRedacted : List ℕ → List ℕ → List ℕ → Type 0
IsRedacted hidden body out =
    (r : GbvReader) × (open_reader body ≡ ok r)
    × (es : List DirEntry) × (directory r.field_count 0 r ≡ some es)
    × (d : GbvBuilder) × (out ≡ finish d)
    × All (IsShown hidden) d.entries
    × IsBuilt (kept_of r hidden es) d

-- What may be returned of a body when `hidden` is to be redacted.
abbrev pub IsCleared : List ℕ → List ℕ → List ℕ → Type 0
IsCleared hidden body out =
    ((hidden ≡ []) × (out ≡ body))
    ⊎ (((e : Error) × (open_reader body ≡ err e) × (out ≡ body)) ⊎ IsRedacted hidden body out)

-- An entity that is returned: a permitted one of the given, with its body cleared.
abbrev pub IsReturned : List Policy → SubjectContext → List Entity → Entity → Type 0
IsReturned policies subject given (header, out) =
    (body : List ℕ) × (hidden : List ℕ) × Member (header, body) given
    × (evaluate policies subject header.entity_kind header.schema_ref ≡ permit hidden)
    × IsCleared hidden body out

abbrev pub header_of : Entity → EntityHeader
header_of (header, body) = header

abbrev pub put_permitted : EntityHeader → Decision → List EntityHeader → List EntityHeader
put_permitted header deny rest = rest
put_permitted header (permit hidden) rest = header ∷ rest

-- The headers of the entities that the policies permit, in order.
unfoldable pub permitted_headers : List Policy → SubjectContext → List Entity → List EntityHeader
permitted_headers policies subject [] = []
permitted_headers policies subject ((header, body) ∷ more) =
    put_permitted header (evaluate policies subject header.entity_kind header.schema_ref)
      (permitted_headers policies subject more)

module _ (policies : List Policy) (subject : SubjectContext) where
  later :
      (given : List Entity) (e : Entity) (kept : List Entity)
      → All (IsReturned policies subject given) kept
      → All (IsReturned policies subject (e ∷ given)) kept
  later given e [] h = tt
  later given e ((header, out) ∷ kept) ((body, hidden, m, permitted, cleared), h) =
      ((body, hidden, inr m, permitted, cleared), later given e kept h)

  body-IsCleared :
      (body : List ℕ) (a : ℕ) (more : List ℕ) (r : Result Error GbvReader)
      → open_reader body ≡ r
      → (out : List ℕ) × (redacted_body body (a ∷ more) r ≡ some out)
        × IsCleared (a ∷ more) body out
  unfolding redacted_body
  body-IsCleared body a more (err e) h = (body, refl, inr (inl (e, h, refl)))
  body-IsCleared body a more (ok r) h =
      let (es, listed, d, run, shown, built) = redact-hides body (a ∷ more) {r = r} h in
      (finish d, run, inr (inr (r, h, es, listed, d, refl, shown, built)))

  enforce_one :
      (header : EntityHeader) (body : List ℕ) (more rest : List Entity) (d : Decision)
      → evaluate policies subject header.entity_kind header.schema_ref ≡ d
      → All (IsReturned policies subject more) rest
      → (out : List Entity) × (enforce_decision (header, body) d rest ≡ some out)
        × All (IsReturned policies subject ((header, body) ∷ more)) out
        × (map header_of out ≡ put_permitted header d (map header_of rest))
  unfolding enforce_decision
  enforce_one header body more rest deny h kept =
      (rest, refl, later more (header, body) rest kept, refl)
  enforce_one header body more rest (permit []) h kept = (
    (header, body) ∷ rest,
    refl,
    ((body, [], inl refl, h, inl (refl, refl)), later more (header, body) rest kept),
    refl,
  )
  enforce_one header body more rest (permit (a ∷ hidden)) h kept =
      let (out, run, cleared) = body-IsCleared body a hidden (open_reader body) refl in
      (
        (header, out) ∷ rest,
        rw run refl,
        ((body, a ∷ hidden, inl refl, h, cleared), later more (header, body) rest kept),
        refl,
      )

  -- Whatever bytes the bodies hold, `enforce` does not panic, and it returns exactly the entities that the
  -- policies permit, in their order. Every one that it returns is one of the given, and its body is unchanged
  -- if nothing is hidden or if it is no GBV buffer; otherwise it is built anew, without a directory entry of a
  -- hidden attribute, from exactly the other fields of its directory that have a known tag and lie in the
  -- buffer, each with its key, its tag and its bytes, and from no other bytes.
  pub enforce-returns :
      (given : List Entity)
      → (out : List Entity) × (enforce policies subject given ≡ some out)
        × All (IsReturned policies subject given) out
        × (map header_of out ≡ permitted_headers policies subject given)
  unfolding enforce permitted_headers
  enforce-returns [] = ([], refl, tt, refl)
  enforce-returns ((header, body) ∷ more) =
      let (rest, run, kept, headers) = enforce-returns more in
      let (out, run', returned, added) =
        enforce_one header body more rest
          (evaluate policies subject header.entity_kind header.schema_ref) refl kept in
      (
        out,
        rw run run',
        returned,
        added
            ∙ ap
                (put_permitted header
                  (evaluate policies subject header.entity_kind header.schema_ref))
                headers,
      )
