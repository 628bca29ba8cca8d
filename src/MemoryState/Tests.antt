-- ===== src/MemoryState/Tests.antt =====
-- A backend with three entries, whose key groups are the last digits of the keys, and a subtask that
-- takes over two groups.
use klein.Base.{
  ◌/◌, ◌<◌, ◌==◌, zero, suc, ◌+◌, ap, arith, true, if◌then◌else◌, ℕ, ◌≡◌, ◌%◌, refl, List, [], ◌∷◌,
  some, none, Option,
}
use klein.Base.Dict.{lookup}
use klein.MemoryState.{
  no_contents, Contents, Table, table_of, snapshot_key_groups, restore_key_groups, bucket_entries,
  restore_payloads, update,
}
use klein.MemoryState.Entries.{StateCodec, StateTtlConfig, IsCodec, get, put, get-put, IsRead}
use klein.MemoryState.Entries.Index.{
  IsIndexed, Use, reading, writing, deleting, cleaning, run, run-IsIndexed,
}
use klein.Base.Keys.{IsDict}
use klein.MemoryState.Restored.{wanted, restore_key_groups-snapshot_key_groups}

abbrev last_digit : Table → ℕ → ℕ → ℕ
last_digit t key value = key % 10

abbrev contents : Contents ℕ
contents = record { state = (12, 5) ∷ (23, 6) ∷ []; expiry = (13, 0) ∷ []; timers = [] }

contents-IsDict : (u : Table) → IsDict (table_of u contents)
contents-IsDict Table.state = (refl, (refl, tt))
contents-IsDict Table.expiry = (refl, tt)
contents-IsDict Table.timers = tt

restored_run :
    restore_key_groups (snapshot_key_groups last_digit (3 ∷ 4 ∷ []) contents)
    ≡ record { state = (23, 6) ∷ []; expiry = (13, 0) ∷ []; timers = [] }
unfolding restore_key_groups snapshot_key_groups bucket_entries restore_payloads update
restored_run = refl

restore_key_groups-snapshot_key_groups_example :
    lookup 23 (
      table_of Table.state
        (restore_key_groups (snapshot_key_groups last_digit (3 ∷ 4 ∷ []) contents)))
    ≡ wanted last_digit (3 ∷ 4 ∷ []) Table.state 23 (lookup 23 (table_of Table.state contents))
restore_key_groups-snapshot_key_groups_example =
    restore_key_groups-snapshot_key_groups last_digit (3 ∷ 4 ∷ []) contents Table.state 23
      contents-IsDict

-- Values are kept as they are, and an expiry key is an odd number doubled as often as the time says.
abbrev doubled : ℕ → ℕ → ℕ
doubled zero k = k + k + 1
doubled (suc e) k = doubled e k + doubled e k

abbrev halved : ℕ → ℕ → ℕ × ℕ
halved zero x = (0, 0)
halved (suc fuel) x =
    let rest = halved fuel (x / 2) in if x % 2 == 1 then (0, x / 2) else (suc rest.0, rest.1)

halved-doubled : (e k fuel : ℕ) → e < fuel → halved fuel (doubled e k) ≡ (e, k)
halved-doubled e k zero low = absurd (omega arith)
halved-doubled zero k (suc fuel) low =
    let odd : (k + k + 1) % 2 ≡ 1 = omega arith in
    let half : (k + k + 1) / 2 ≡ k = omega arith in rw (odd, half) refl
halved-doubled (suc e) k (suc fuel) low =
    let d = doubled e k in
    let even : (d + d) % 2 ≡ 0 = omega arith in
    let half : (d + d) / 2 ≡ d = omega arith in
    rw (even, half) (ap (λ p. (suc p.0, p.1)) (halved-doubled e k fuel (omega arith)))

lt-doubled : (e k : ℕ) → e < doubled e k
lt-doubled zero k = omega arith
lt-doubled (suc e) k = omega (arith, lt-doubled e k)

abbrev plain_codec : StateCodec (Option ℕ × ℕ) ℕ
plain_codec = record {
  encode_state_value = λ value expires_at. (expires_at, value);
  decode_state_value = λ bytes. bytes;
  encode_expiry_key = doubled;
  decode_expiry_key = λ x. halved x x;
  empty_bytes = (none, 0);
}

plain_codec-IsCodec : IsCodec plain_codec
unfolding IsCodec
plain_codec-IsCodec =
    (λ v expires_at. refl, λ e k. halved-doubled e k (doubled e k) (lt-doubled e k))

abbrev one_second : Option StateTtlConfig
one_second =
    some (record { ttl_milliseconds = 1000; never_return_expired = true; on_read_and_write = true })

abbrev uses : List (Use plain_codec)
uses =
    writing one_second 7 42 5 ∷ reading one_second 7 100 101 ∷ cleaning 900 none ∷ deleting 8 ∷ []

run-IsIndexed_example : IsIndexed plain_codec (run plain_codec uses no_contents)
run-IsIndexed_example = run-IsIndexed plain_codec uses plain_codec-IsCodec

get-put_example :
    ((get plain_codec none 7 900 901 (put plain_codec none 7 42 5 no_contents)).0 ≡ some 42)
    × ((config : StateTtlConfig)
        → IsRead plain_codec config 42 5 900
            (get plain_codec
              (some config)
              7
              900
              901
              (put plain_codec (some config) 7 42 5 no_contents)).0)
get-put_example = get-put plain_codec 7 42 5 900 901 no_contents plain_codec-IsCodec
