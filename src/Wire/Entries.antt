-- ===== src/Wire/Entries.antt =====
-- Entries of Raft's log inside a longer encoding, as crates/gems-cluster/src/raft_state.rs and the
-- module `wire` of raft.rs both write and read them.
use Prim.Native.String.{String}
use gems.Prelude.{
  ℕ, ◌+◌, ◌*◌, ◌≤◌, ◌<◌, ◌^◌, refl, Option, none, some, List, [], ◌∷◌, ◌++◌, length, drop, All,
  All-map, arith, length-append,
}
use gems.Prelude.Results.{Result, Error, ok, err, invalid_value}
use gems.Codec.Bytes.{to_le, length-to_le}
use gems.Codec.Cursor.{Reader, ◌>>=◌, pure, read_le, repeat, Decodes}
use gems.Codec.Decodes.{bind-Decodes, last-Decodes, repeat-Decodes, concat_map, Rest-append}
use gems.Codec.Fields.{u64-Decodes}
use gems.Record.{LogRecord}
use gems.Raft.State.{LogEntry}
use gems.Wire.Record.{IsRecord, decode-encode, length-encode}
use gems.Wire.Record

-- `LogRecord::decode(&buf[pos..])?.ok_or(e)?`, then `pos += consumed`
abbrev consume : String → ℕ → Result Error (Option (LogRecord × ℕ)) → Result Error (LogRecord × ℕ)
consume detail pos (err e) = err e
consume detail pos (ok none) = err (invalid_value detail)
consume detail pos (ok (some (command, consumed))) = ok (command, pos + consumed)

unfoldable pub read_command : String → Reader LogRecord
read_command detail buf pos = consume detail pos (Record.decode (drop pos buf))

abbrev entry_of : ℕ → LogRecord → LogEntry
entry_of term command = record { term = term; command = command }

unfoldable pub entry_bytes : LogEntry → List ℕ
entry_bytes entry = to_le 8 entry.term ++ Record.encode entry.command

-- The two details are those of a term and of a record that is cut off.
unfoldable pub read_entry : String → String → Reader LogEntry
unfolding read_command
read_entry detail torn = do
  entry_term ← read_le detail 8
  command ← read_command torn
  pure (entry_of entry_term command)

abbrev pub IsEntry : LogEntry → Type 0
IsEntry entry = (entry.term < 2 ^ 64) × IsRecord entry.command

command-Decodes :
    (detail : String) (r : LogRecord)
    → IsRecord r
    → Decodes (read_command detail) (Record.encode r) r
unfolding read_command
command-Decodes detail r fits = record {
  reads = λ buf pos post rest. (
    rw (rest.left) (rw (decode-encode r post fits) refl),
    Rest-append buf pos (Record.encode r) post rest,
  );
}

entry-Decodes :
    (detail torn : String) (entry : LogEntry)
    → IsEntry entry
    → Decodes (read_entry detail torn) (entry_bytes entry) entry
unfolding read_entry entry_bytes
entry-Decodes detail torn entry (term, command) =
    bind-Decodes _ (u64-Decodes detail entry.term term)
      (last-Decodes _ (command-Decodes torn entry.command command))

pub entries-Decodes :
    (detail torn : String) (log : List LogEntry)
    → All IsEntry log
    → Decodes (repeat (length log) (read_entry detail torn)) (concat_map entry_bytes log) log
entries-Decodes detail torn log each = repeat-Decodes (read_entry detail torn) entry_bytes log (
    All-map IsEntry (λ e. Decodes (read_entry detail torn) (entry_bytes e) e) log
      (entry-Decodes detail torn) each)

-- An entry takes at least twelve bytes.
pub length-entries :
    (log : List LogEntry) → All IsEntry log → length log * 12 ≤ length (concat_map entry_bytes log)
unfolding concat_map entry_bytes
length-entries [] each = omega arith
length-entries (e ∷ log) ((term, command), each) = omega (
  arith,
  length-entries log each,
  length-append (entry_bytes e) (concat_map entry_bytes log),
  length-append (to_le 8 e.term) (Record.encode e.command),
  length-to_le 8 e.term,
  length-encode e.command command,
)
