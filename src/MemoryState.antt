-- ===== src/MemoryState.antt =====
-- src/ray/klein/state/memory_state_backend.py: the snapshots by key group, from which the state of an
-- operator is dealt out again when its parallelism changes. Encoded keys and values are what
-- state_codec.py makes of them: a key is only compared, so that it is a number, and `key_group` is
-- `key_group_for_key` of the key that is decoded from an entry. Pickling gives a payload back as it
-- was.
pub mod Tables
pub mod KeyGroupSnapshots
pub mod Restored
pub mod Entries
mod Tests
use klein.Base.{ℕ, Bool, List, [], ◌∷◌, Option, none, some, if◌then◌else◌}
use klein.Base.Dict.{Dict, insert, lookup, lookup_or}
use klein.Base.Predicates.{contains}

-- The three dicts of the backend, and of a payload.
pub record Contents (Bytes : Type 0) : Type 0 where
  pub state : Dict Bytes
  pub expiry : Dict Bytes
  pub timers : Dict Bytes

pub data Table : Type 0 where
  state expiry timers : Table

module _ {Bytes : Type 0} where
  -- The dict under one of the names, and a new entry in it.
  abbrev pub table_of : Table → Contents Bytes → Dict Bytes
  table_of Table.state c = c.state
  table_of Table.expiry c = c.expiry
  table_of Table.timers c = c.timers

  abbrev pub put_entry : Table → ℕ → Bytes → Contents Bytes → Contents Bytes
  put_entry Table.state key value c = record c { state = insert key value c.state }
  put_entry Table.expiry key value c = record c { expiry = insert key value c.expiry }
  put_entry Table.timers key value c = record c { timers = insert key value c.timers }

  abbrev pub no_contents : Contents Bytes
  no_contents = record { state = []; expiry = []; timers = [] }

  -- One of the three loops of `snapshot_key_groups`, whose buckets are made when they are needed.
  pub bucket_entries :
      (Table → ℕ → Bytes → ℕ)
      → List ℕ
      → Table
      → Dict Bytes
      → Dict (Contents Bytes)
      → Dict (Contents Bytes)
  bucket_entries key_group requested t [] buckets = buckets
  bucket_entries key_group requested t (entry ∷ entries) buckets =
      let group = key_group t entry.0 entry.1 in
      let bucket = lookup_or group no_contents buckets in
      bucket_entries key_group requested t entries (
        if contains group requested
        then insert group (put_entry t entry.0 entry.1 bucket) buckets
        else buckets)

  -- `snapshot_key_groups`: the payload of each group that is asked for and has an entry.
  pub snapshot_key_groups :
      (Table → ℕ → Bytes → ℕ) → List ℕ → Contents Bytes → Dict (Contents Bytes)
  unfolding bucket_entries
  snapshot_key_groups key_group requested c =
      bucket_entries key_group requested Table.timers c.timers (
        bucket_entries key_group requested Table.expiry c.expiry
          (bucket_entries key_group requested Table.state c.state []))

  -- `dict.update`
  pub update : Dict Bytes → Dict Bytes → Dict Bytes
  update base [] = base
  update base (entry ∷ entries) = update (insert entry.0 entry.1 base) entries

  -- `restore_key_groups`, on payloads of the current format.
  pub restore_payloads : Contents Bytes → Dict (Contents Bytes) → Contents Bytes
  unfolding update
  restore_payloads base [] = base
  restore_payloads base (payload ∷ payloads) =
      restore_payloads
        (record {
          state = update base.state payload.1.state;
          expiry = update base.expiry payload.1.expiry;
          timers = update base.timers payload.1.timers;
        })
        payloads

  pub restore_key_groups : Dict (Contents Bytes) → Contents Bytes
  unfolding restore_payloads
  restore_key_groups snapshots = restore_payloads no_contents snapshots
