-- ===== src/MemoryState/Restored.antt =====
-- Snapshots by key group are restored to exactly the entries of the groups.
use klein.Base.{
  ℕ, ◌≡◌, inl, inr, refl, sym, ◌∙◌, ap, subst, true, Option, none, some, List, [], ◌∷◌, arith, ◌==◌,
  if◌then◌else◌, Bool-cases, Option-cases,
}
use klein.Base.Dict.{Dict, lookup}
use klein.Base.Predicates.{contains, All}
use klein.MemoryState.{
  Contents, Table, table_of, no_contents, bucket_entries, snapshot_key_groups, update,
  restore_payloads, restore_key_groups,
}
use klein.Base.Keys.{keys_of, IsDict, lookup-none}
use klein.MemoryState.Tables.{All-entries, over, lookup-update}
use klein.MemoryState.KeyGroupSnapshots.{
  in_bucket, share, bucket_entries-same, bucket_entries-other, IsWell, bucket_entries-IsWell,
}

All-each {ℓ κ ι} :
    {A : Type ℓ} {P : A → Type κ} {Q : A → Type ι}
    → ((x : A) → P x → Q x)
    → (xs : List A) → All P xs
    → All Q xs
All-each f [] h = tt
All-each f (x ∷ xs) (here, rest) = (f x here, All-each f xs rest)

module _ {Bytes : Type 0} where
  -- What the payloads hold under a key, the last one that does; without one, the base.
  abbrev last_of : Table → ℕ → Option Bytes → Dict (Contents Bytes) → Option Bytes
  last_of t k base [] = base
  last_of t k base (p ∷ ps) = last_of t k (over (lookup k (table_of t p.1)) base) ps

  restore_payloads_lem :
      (t : Table) (k : ℕ) (ps : Dict (Contents Bytes)) (base : Contents Bytes)
      → All (λ p. (u : Table) → IsDict (table_of u p.1)) ps
      → lookup k (table_of t (restore_payloads base ps))
        ≡ last_of t k (lookup k (table_of t base)) ps
  unfolding restore_payloads
  restore_payloads_lem t k [] base h = refl
  restore_payloads_lem t k (p ∷ ps) base (here, rest) =
      restore_payloads_lem t k ps _ rest ∙ ap (λ o. last_of t k o ps) (one t)
    where
      one :
          (t : Table)
          → lookup k (
              table_of t (record {
                state = update base.state p.1.state;
                expiry = update base.expiry p.1.expiry;
                timers = update base.timers p.1.timers;
              }))
            ≡ over (lookup k (table_of t p.1)) (lookup k (table_of t base))
      one Table.state = lookup-update k base.state p.1.state (here Table.state)
      one Table.expiry = lookup-update k base.expiry p.1.expiry (here Table.expiry)
      one Table.timers = lookup-update k base.timers p.1.timers (here Table.timers)

  last_of-none :
      (t : Table) (k : ℕ) (base : Option Bytes) (ps : Dict (Contents Bytes))
      → All (λ p. lookup k (table_of t p.1) ≡ none) ps
      → last_of t k base ps ≡ base
  last_of-none t k base [] h = refl
  last_of-none t k base (p ∷ ps) (here, rest) = rw here (last_of-none t k base ps rest)

  last_of-one :
      (t : Table) (k g : ℕ) (v : Bytes) (ps : Dict (Contents Bytes)) (base : Option Bytes)
      → All (λ p. lookup k (table_of t p.1) ≡ (if g == p.0 then some v else none)) ps
      → last_of t k base ps ≡ (if contains g (keys_of ps) then some v else base)
  last_of-one t k g v [] base h = refl
  last_of-one t k g v (p ∷ ps) base (here, rest) = elim (Bool-cases (g == p.0)) [
    | inl hit ↦
        let there : lookup k (table_of t p.1) ≡ some v = here ∙ rw hit refl in
        ap (λ o. last_of t k (over o base) ps) there
        ∙ last_of-one t k g v ps (some v) rest
        ∙ rw hit (ground arith)
    | inr miss ↦
        let there : lookup k (table_of t p.1) ≡ none = here ∙ rw miss refl in
        ap (λ o. last_of t k (over o base) ps) there
        ∙ last_of-one t k g v ps base rest
        ∙ rw miss refl
  ]

  module _ (key_group : Table → ℕ → Bytes → ℕ) (requested : List ℕ) where
    -- What each bucket of a snapshot holds.
    snapshot_key_groups_lem :
        (c : Contents Bytes) (t : Table) (g k : ℕ)
        → ((u : Table) → IsDict (table_of u c))
        → lookup k (in_bucket t g (snapshot_key_groups key_group requested c))
          ≡ over (share key_group requested t g k (lookup k (table_of t c))) none
    unfolding snapshot_key_groups
    snapshot_key_groups_lem c Table.state g k h =
        bucket_entries-other key_group requested Table.timers Table.state c.timers _ g k (λ e. cc)
        ∙ bucket_entries-other key_group requested Table.expiry Table.state c.expiry _ g k (λ e. cc)
        ∙ bucket_entries-same key_group requested Table.state c.state [] g k (h Table.state)
    snapshot_key_groups_lem c Table.expiry g k h =
        let first = bucket_entries key_group requested Table.state c.state [] in
        bucket_entries-other key_group requested Table.timers Table.expiry c.timers _ g k (λ e. cc)
        ∙ bucket_entries-same key_group requested Table.expiry c.expiry first g k (h Table.expiry)
        ∙ ap (over (share key_group requested Table.expiry g k (lookup k c.expiry))) (
            bucket_entries-other key_group requested Table.state Table.expiry c.state [] g k
              (λ e. cc))
    snapshot_key_groups_lem c Table.timers g k h =
        let first = bucket_entries key_group requested Table.state c.state [] in
        let second = bucket_entries key_group requested Table.expiry c.expiry first in
        bucket_entries-same key_group requested Table.timers c.timers second g k (h Table.timers)
        ∙ ap (over (share key_group requested Table.timers g k (lookup k c.timers))) (
            bucket_entries-other key_group requested Table.expiry Table.timers c.expiry first g k
              (λ e. cc)
            ∙ bucket_entries-other key_group requested Table.state Table.timers c.state [] g k
                (λ e. cc))

    snapshot_key_groups-IsWell :
        (c : Contents Bytes)
        → IsWell key_group requested (snapshot_key_groups key_group requested c)
    unfolding snapshot_key_groups
    snapshot_key_groups-IsWell c =
        bucket_entries-IsWell key_group requested Table.timers c.timers _ (
          bucket_entries-IsWell key_group requested Table.expiry c.expiry _ (
            bucket_entries-IsWell key_group requested Table.state c.state []
              (tt, λ u g. no_contents-IsDict u)))
      where
        no_contents-IsDict : (u : Table) → IsDict (table_of u (no_contents {Bytes = Bytes}))
        no_contents-IsDict Table.state = tt
        no_contents-IsDict Table.expiry = tt
        no_contents-IsDict Table.timers = tt

    -- An entry whose key group is asked for.
    abbrev pub wanted : Table → ℕ → Option Bytes → Option Bytes
    wanted t k none = none
    wanted t k (some v) = if contains (key_group t k v) requested then some v else none

    no_contents-lookup :
        (u : Table) (k : ℕ) → lookup k (table_of u (no_contents {Bytes = Bytes})) ≡ none
    no_contents-lookup Table.state k = refl
    no_contents-lookup Table.expiry k = refl
    no_contents-lookup Table.timers k = refl

    -- A payload is the bucket of its group.
    in_bucket-lookup :
        (u : Table) (g : ℕ) (p : Contents Bytes) (ps : Dict (Contents Bytes))
        → lookup g ps ≡ some p
        → in_bucket u g ps ≡ table_of u p
    in_bucket-lookup u g p ps at =
        ap
          (λ o.
            table_of u
              (elim o as (λ _. Contents Bytes) [ none ↦ no_contents | some value ↦ value ]))
          at

    in_bucket-none :
        (u : Table) (g : ℕ) (ps : Dict (Contents Bytes))
        → lookup g ps ≡ none
        → in_bucket u g ps ≡ table_of u no_contents
    in_bucket-none u g ps at =
        ap
          (λ o.
            table_of u
              (elim o as (λ _. Contents Bytes) [ none ↦ no_contents | some value ↦ value ]))
          at

    -- What the payloads hold of a key with a value.
    payloads_lem :
        (c : Contents Bytes) (t : Table) (k : ℕ) (found : Option Bytes)
        → ((u : Table) → IsDict (table_of u c))
        → lookup k (table_of t c) ≡ found
        → let ps = snapshot_key_groups key_group requested c in
          All
            (λ p. lookup k (table_of t p.1) ≡ over (share key_group requested t p.0 k found) none)
            ps
    payloads_lem c t k found h at =
        let ps = snapshot_key_groups key_group requested c in
        All-entries
          (λ g p. lookup k (table_of t p) ≡ over (share key_group requested t g k found) none) ps
          (snapshot_key_groups-IsWell c).0
          (λ g p there.
            sym (ap (lookup k) (in_bucket-lookup t g p ps there))
            ∙ snapshot_key_groups_lem c t g k h
            ∙ ap (λ o. over (share key_group requested t g k o) none) at)

    restored_value :
        (c : Contents Bytes) (t : Table) (k : ℕ) (v : Bytes)
        → ((u : Table) → IsDict (table_of u c))
        → lookup k (table_of t c) ≡ some v
        → last_of t k none (snapshot_key_groups key_group requested c) ≡ wanted t k (some v)
    restored_value c t k v h there =
        let ps = snapshot_key_groups key_group requested c in
        let group = key_group t k v in
        let all_of = payloads_lem c t k (some v) h there in
        let split : (g : ℕ)
            → contains group requested ≡ true
            → over (share key_group requested t g k (some v)) none
              ≡ (if group == g then some v else none) =
          λ g asked. ground (arith, asked) in
        elim (Bool-cases (contains group requested)) [
          | inr unasked ↦
              last_of-none t k none ps (All-each (λ p at. at ∙ ground (arith, unasked)) ps all_of)
              ∙ rw unasked refl
          | inl asked ↦
              let own = All-each (λ p at. at ∙ split p.0 asked) ps all_of in
              let there' : contains group (keys_of ps) ≡ true =
                elim (Bool-cases (contains group (keys_of ps))) [
                  | inl known ↦ known
                  | inr lost ↦
                      let bucket =
                        snapshot_key_groups_lem c t group k h
                        ∙ ap (λ o. over (share key_group requested t group k o) none) there
                        ∙ split group asked in
                      absurd (
                        let gone = in_bucket-none t group ps (lookup-none group ps lost) in
                        let same : lookup k (in_bucket t group ps) ≡ none =
                          ap (lookup k) gone ∙ no_contents-lookup t k in
                        let clash : none ≡ some v = sym same ∙ bucket ∙ ground arith in cc)
                ] in
              last_of-one t k group v ps none own ∙ rw (asked, there') refl
        ]

    -- A backend that restores the snapshots of some key groups holds, in each of its tables, exactly
    -- the entries of the tables of the other backend whose key is in one of these groups, if in the
    -- tables of the other one each key stands once.
    pub restore_key_groups-snapshot_key_groups :
        (c : Contents Bytes) (t : Table) (k : ℕ)
        → ((u : Table) → IsDict (table_of u c))
        → lookup k (table_of t (restore_key_groups (snapshot_key_groups key_group requested c)))
          ≡ wanted t k (lookup k (table_of t c))
    unfolding restore_key_groups
    restore_key_groups-snapshot_key_groups c t k h =
        let ps = snapshot_key_groups key_group requested c in
        let (once, tables) = snapshot_key_groups-IsWell c in
        let dicts =
          All-entries (λ g p. (u : Table) → IsDict (table_of u p)) ps once
            (λ g p there u. subst IsDict (in_bucket-lookup u g p ps there) (tables u g)) in
        let held =
          restore_payloads_lem t k ps no_contents dicts
          ∙ ap (λ o. last_of t k o ps) (no_contents-lookup t k) in
        held ∙ elim (Option-cases (lookup k (table_of t c))) [
          | inl missing ↦
              last_of-none t k none ps (payloads_lem c t k none h missing)
              ∙ sym (ap (wanted t k) missing)
          | inr (v, there) ↦ restored_value c t k v h there ∙ sym (ap (wanted t k) there)
        ]
