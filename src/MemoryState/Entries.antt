-- ===== src/MemoryState/Entries.antt =====
-- The entries of the state with their time to live: get, put, delete and the clean-up.
pub mod Index
use klein.Base.{
  ltb, ◌||◌, true, ◌<◌, ◌≤◌, arith, ℕ, ◌+◌, ◌≡◌, ◌≢◌, inl, inr, refl, sym, ◌∙◌, ap, subst, Bool,
  false, ◌&&◌, Option, none, some, List, [], ◌∷◌, leb, ◌==◌, if◌then◌else◌, Bool-cases, ==_iff,
  option-elim, if-elim,
}
use klein.Base.Dict.{
  Dict, insert, lookup, erase, lookup-insert, lookup-erase, lookup-insert_cases, lookup-erase_cases,
}
use klein.MemoryState.{Contents, no_contents}

-- What the backend uses of state_codec.py and of the serializer of a descriptor.
pub record StateCodec (Bytes Value : Type 0) : Type 0 where
  pub encode_state_value : Value → Option ℕ → Bytes
  pub decode_state_value : Bytes → Option ℕ × Value
  pub encode_expiry_key : ℕ → ℕ → ℕ
  pub decode_expiry_key : ℕ → ℕ × ℕ
  pub empty_bytes : Bytes

-- The time to live of a descriptor: how long, whether an expired value is never returned, and whether
-- a read renews it.
pub record StateTtlConfig : Type 0 where
  pub ttl_milliseconds : ℕ
  pub never_return_expired : Bool
  pub on_read_and_write : Bool

-- An encoded value and an encoded expiry key are decoded as they were.
unfoldable pub IsCodec : {Bytes Value : Type 0} → StateCodec Bytes Value → Type 0
IsCodec {Value = Value} codec =
    ((v : Value) (expires_at : Option ℕ)
      → codec.decode_state_value (codec.encode_state_value v expires_at) ≡ (expires_at, v))
    × ((e k : ℕ) → codec.decode_expiry_key (codec.encode_expiry_key e k) ≡ (e, k))

-- `sorted(...)`
abbrev pub insert_key : ℕ → List ℕ → List ℕ
insert_key k [] = k ∷ []
insert_key k (j ∷ js) = let rest = insert_key k js in if leb k j then k ∷ j ∷ js else j ∷ rest

module _ {Bytes Value : Type 0} (codec : StateCodec Bytes Value) where
  -- `_expiry_for`
  abbrev pub expiry_for : Option StateTtlConfig → ℕ → Option ℕ
  expiry_for none now = none
  expiry_for (some config) now = some (now + config.ttl_milliseconds)

  abbrev pub drop_expiry : ℕ → Option ℕ → Dict Bytes → Dict Bytes
  drop_expiry state_key none expiry = expiry
  drop_expiry state_key (some e) expiry = erase (codec.encode_expiry_key e state_key) expiry

  abbrev pub add_expiry : ℕ → Option ℕ → Dict Bytes → Dict Bytes
  add_expiry state_key none expiry = expiry
  add_expiry state_key (some e) expiry =
      insert (codec.encode_expiry_key e state_key) codec.empty_bytes expiry

  -- The expiry of the entry under a key, if there are both.
  abbrev pub expiry_of : ℕ → Dict Bytes → Option ℕ
  expiry_of state_key state = elim (lookup state_key state) [
    | none ↦ none
    | some encoded ↦ (codec.decode_state_value encoded).0
  ]

  -- `put`
  pub put : Option StateTtlConfig → ℕ → Value → ℕ → Contents Bytes → Contents Bytes
  put ttl state_key value now c = record c {
    state = insert state_key (codec.encode_state_value value (expiry_for ttl now)) c.state;
    expiry =
        add_expiry state_key (expiry_for ttl now)
          (drop_expiry state_key (expiry_of state_key c.state) c.expiry);
  }

  -- The condition under which `get` does not return a value any more.
  abbrev pub is_hidden : Option StateTtlConfig → Option ℕ → ℕ → Bool
  is_hidden ttl none now = false
  is_hidden none (some e) now = leb e now
  is_hidden (some config) (some e) now = leb e now && config.never_return_expired

  abbrev pub renews : Option StateTtlConfig → Bool
  renews none = false
  renews (some config) = config.on_read_and_write

  -- `get`, which reads the clock for the test at `now`, and again when it renews the entry
  pub get : Option StateTtlConfig → ℕ → ℕ → ℕ → Contents Bytes → Option Value × Contents Bytes
  unfolding put
  get ttl state_key now renewed_at c = elim (lookup state_key c.state) [
    | none ↦ (none, c)
    | some encoded ↦
        let (expires_at, value) = codec.decode_state_value encoded in
        if is_hidden ttl expires_at now
        then (none, record c { state = erase state_key c.state })
        else (some value, if renews ttl then put ttl state_key value renewed_at c else c)
  ]

  -- `delete`
  pub delete : ℕ → Contents Bytes → Contents Bytes
  delete state_key c = record c {
    state = erase state_key c.state;
    expiry = drop_expiry state_key (expiry_of state_key c.state) c.expiry;
  }

  get_lem :
      (ttl : Option StateTtlConfig) (k later renewed_at : ℕ) (c : Contents Bytes) (encoded : Bytes)
      (e : Option ℕ) (value : Value)
      → lookup k c.state ≡ some encoded
      → codec.decode_state_value encoded ≡ (e, value)
      → (get ttl k later renewed_at c).0 ≡ (if is_hidden ttl e later then none else some value)
  unfolding get
  get_lem ttl k later renewed_at c encoded e value at decoded =
      let expiry : is_hidden ttl (codec.decode_state_value encoded).0 later
          ≡ is_hidden ttl e later =
        ap (λ p. is_hidden ttl p.0 later) decoded in
      let read : (codec.decode_state_value encoded).1 ≡ value = ap (λ p. p.1) decoded in
      elim (Bool-cases (is_hidden ttl e later)) [
        | inl hidden ↦ let gone = expiry ∙ hidden in rw (get, at, gone, hidden) refl
        | inr seen ↦ let there = expiry ∙ seen in rw (get, at, there, seen) (ap some read)
      ]

  -- `expires_at == other`, which is False for an entry without an expiry
  abbrev pub expires_then : Option ℕ → ℕ → Bool
  expires_then none other = false
  expires_then (some e) other = e == other

  abbrev pub limit_reached : Option ℕ → ℕ → Bool
  limit_reached none processed = false
  limit_reached (some limit) processed = leb limit processed

  -- One round of the loop of `cleanup_expired`: whether it took an entry away, and the backend.
  pub cleanup_one : ℕ → Contents Bytes → Bool × Contents Bytes
  cleanup_one expiry_key c =
      let (expires_at, state_key) = codec.decode_expiry_key expiry_key in
      let stale = expires_then (expiry_of state_key c.state) expires_at in
      (
        stale,
        record c {
          state = if stale then erase state_key c.state else c.state;
          expiry = erase expiry_key c.expiry;
        },
      )

  -- The loop over the sorted keys of the index, and `cleanup_expired`.
  pub cleanup_loop : List ℕ → ℕ → ℕ → Option ℕ → Contents Bytes → ℕ × Contents Bytes
  unfolding cleanup_one
  cleanup_loop [] processed now limit c = (0, c)
  cleanup_loop (expiry_key ∷ keys) processed now limit c =
      let (removed, c') = cleanup_one expiry_key c in
      let rest = cleanup_loop keys (processed + 1) now limit c' in
      if ltb now (codec.decode_expiry_key expiry_key).0 || limit_reached limit processed
      then (0, c)
      else ((if removed then 1 else 0) + rest.0, rest.1)

  abbrev pub sorted_keys : Dict Bytes → List ℕ
  sorted_keys [] = []
  sorted_keys (entry ∷ entries) = insert_key entry.0 (sorted_keys entries)

  pub cleanup_expired : ℕ → Option ℕ → Contents Bytes → ℕ × Contents Bytes
  unfolding cleanup_loop
  cleanup_expired now limit c = cleanup_loop (sorted_keys c.expiry) 0 now limit c

  get-put_hidden :
      (ttl : Option StateTtlConfig) (k : ℕ) (value : Value) (now later renewed_at : ℕ)
      (c : Contents Bytes)
      → IsCodec codec
      → (get ttl k later renewed_at (put ttl k value now c)).0
        ≡ (if is_hidden ttl (expiry_for ttl now) later then none else some value)
  unfolding get put IsCodec
  get-put_hidden ttl k value now later renewed_at c (decoded, apart) =
      get_lem ttl k later renewed_at (put ttl k value now c)
        (codec.encode_state_value value (expiry_for ttl now)) (expiry_for ttl now) value
        (lookup-insert k k _ c.state ∙ rw ((==_iff k k).1 refl) refl)
        (decoded value (expiry_for ttl now))

  -- What a read returns of a value that was put at `now` with a time to live.
  abbrev pub IsRead : StateTtlConfig → Value → ℕ → ℕ → Option Value → Type 0
  IsRead config value now later answer =
      (later < now + config.ttl_milliseconds → answer ≡ some value)
      × (now + config.ttl_milliseconds ≤ later
          → (config.never_return_expired ≡ true → answer ≡ none)
            × (config.never_return_expired ≡ false → answer ≡ some value))

  -- A value that was put without a time to live is returned at any time. With one it is returned
  -- before that is over; from then on a configuration that never returns what has expired gives
  -- nothing, and any other still gives the value.
  pub get-put :
      (state_key : ℕ) (value : Value) (now later renewed_at : ℕ) (c : Contents Bytes)
      → IsCodec codec
      → ((get none state_key later renewed_at (put none state_key value now c)).0 ≡ some value)
        × ((config : StateTtlConfig)
            → IsRead config value now later
                (get
                  (some config)
                  state_key
                  later
                  renewed_at
                  (put (some config) state_key value now c)).0)
  get-put k value now later renewed_at c coded = (
    get-put_hidden none k value now later renewed_at c coded,
    λ config.
        let read = get-put_hidden (some config) k value now later renewed_at c coded in
        (
          λ early. ground (arith, read, early),
          λ over. (
            λ never. ground (arith, read, over, never),
            λ ever. ground (arith, read, over, ever),
          ),
        ),
  )
