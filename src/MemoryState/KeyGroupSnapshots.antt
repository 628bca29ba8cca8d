-- ===== src/MemoryState/KeyGroupSnapshots.antt =====
-- What a backend holds after it restored the snapshots that another one took by key group.
use klein.Base.{
  ℕ, ◌≡◌, ◌≢◌, inl, inr, refl, sym, ◌∙◌, ap, subst, ◌&&◌, Option, none, some, List, [], ◌∷◌, arith,
  ◌==◌, if◌then◌else◌, Bool-cases, ==_iff, if-elim,
}
use klein.Base.Dict.{Dict, insert, lookup, lookup_or, lookup-insert, lookup_or-insert}
use klein.Base.Predicates.{contains}
use klein.MemoryState.{Contents, Table, table_of, put_entry, no_contents, bucket_entries}
use klein.Base.Keys.{keys_of, IsDict, insert-IsDict, lookup-none}
use klein.MemoryState.Tables.{over}

module _ {Bytes : Type 0} where
  put_entry-same :
      (t : Table) (k : ℕ) (v : Bytes) (c : Contents Bytes)
      → table_of t (put_entry t k v c) ≡ insert k v (table_of t c)
  put_entry-same Table.state k v c = refl
  put_entry-same Table.expiry k v c = refl
  put_entry-same Table.timers k v c = refl

  put_entry-other :
      (t u : Table) (k : ℕ) (v : Bytes) (c : Contents Bytes)
      → t ≢ u
      → table_of u (put_entry t k v c) ≡ table_of u c
  put_entry-other Table.state Table.state k v c apart = absurd (apart refl)
  put_entry-other Table.state Table.expiry k v c apart = refl
  put_entry-other Table.state Table.timers k v c apart = refl
  put_entry-other Table.expiry Table.state k v c apart = refl
  put_entry-other Table.expiry Table.expiry k v c apart = absurd (apart refl)
  put_entry-other Table.expiry Table.timers k v c apart = refl
  put_entry-other Table.timers Table.state k v c apart = refl
  put_entry-other Table.timers Table.expiry k v c apart = refl
  put_entry-other Table.timers Table.timers k v c apart = absurd (apart refl)

  -- The dict under a name of the bucket of a group.
  abbrev pub in_bucket : Table → ℕ → Dict (Contents Bytes) → Dict Bytes
  in_bucket u g buckets = table_of u (lookup_or g no_contents buckets)

  module _ (key_group : Table → ℕ → Bytes → ℕ) (requested : List ℕ) where
    -- The value of a key that goes to the bucket of the group.
    abbrev pub share : Table → ℕ → ℕ → Option Bytes → Option Bytes
    share t g k none = none
    share t g k (some v) =
        if (g == key_group t k v) && contains (key_group t k v) requested then some v else none

    -- One more entry.
    abbrev one_more : Table → ℕ × Bytes → Dict (Contents Bytes) → Dict (Contents Bytes)
    one_more t e buckets =
        let group = key_group t e.0 e.1 in
        if contains group requested
        then insert group (put_entry t e.0 e.1 (lookup_or group no_contents buckets)) buckets
        else buckets

    one_more-same :
        (t : Table) (e : ℕ × Bytes) (buckets : Dict (Contents Bytes)) (g k : ℕ)
        → lookup k (in_bucket t g (one_more t e buckets))
          ≡ over
              (if k == e.0 then share t g e.0 (some e.1) else none)
              (lookup k (in_bucket t g buckets))
    one_more-same t e buckets g k =
        let group = key_group t e.0 e.1 in
        let new = put_entry t e.0 e.1 (lookup_or group no_contents buckets) in
        elim (Bool-cases (contains group requested)) [
          | inr unasked ↦ rw unasked (ground arith)
          | inl asked ↦
              let which =
                ap (λ c. lookup k (table_of t c))
                  (lookup_or-insert g group new no_contents buckets) in
              elim (Bool-cases (g == group)) [
                | inl hit ↦
                    let own = ap (λ x. lookup k (in_bucket t x buckets)) ((==_iff g group).0 hit) in
                    let put =
                      ap (lookup k) (put_entry-same t e.0 e.1 (lookup_or group no_contents buckets))
                      ∙ lookup-insert k e.0 e.1 (in_bucket t group buckets) in
                    rw asked (which ∙ rw hit (put ∙ ground (arith, own)))
                | inr miss ↦ rw asked (which ∙ rw miss (ground arith))
              ]
        ]

    one_more-other :
        (t u : Table) (e : ℕ × Bytes) (buckets : Dict (Contents Bytes)) (g k : ℕ)
        → t ≢ u
        → lookup k (in_bucket u g (one_more t e buckets)) ≡ lookup k (in_bucket u g buckets)
    one_more-other t u e buckets g k apart =
        let group = key_group t e.0 e.1 in
        let new = put_entry t e.0 e.1 (lookup_or group no_contents buckets) in
        elim (Bool-cases (contains group requested)) [
          | inr unasked ↦ rw unasked refl
          | inl asked ↦
              let which =
                ap (λ c. lookup k (table_of u c))
                  (lookup_or-insert g group new no_contents buckets) in
              elim (Bool-cases (g == group)) [
                | inl hit ↦
                    let own =
                      ap (λ x. lookup k (in_bucket u x buckets)) (sym ((==_iff g group).0 hit)) in
                    let kept =
                      ap (lookup k)
                        (put_entry-other t u e.0 e.1 (lookup_or group no_contents buckets) apart) in
                    rw asked (which ∙ rw hit (kept ∙ own))
                | inr miss ↦ rw asked (which ∙ rw miss refl)
              ]
        ]

    -- After one of the loops, each bucket of its table holds what it held and its share.
    pub bucket_entries-same :
        (t : Table) (d : Dict Bytes) (buckets : Dict (Contents Bytes)) (g k : ℕ)
        → IsDict d
        → lookup k (in_bucket t g (bucket_entries key_group requested t d buckets))
          ≡ over (share t g k (lookup k d)) (lookup k (in_bucket t g buckets))
    unfolding bucket_entries
    bucket_entries-same t [] buckets g k h = refl
    bucket_entries-same t (e ∷ d) buckets g k (new, rest) =
        let before = one_more-same t e buckets g k in
        bucket_entries-same t d (one_more t e buckets) g k rest ∙ elim (Bool-cases (k == e.0)) [
          | inl hit ↦
              let same = (==_iff k e.0).0 hit in
              let gone = lookup-none k d (ap (λ x. contains x (keys_of d)) same ∙ new) in
              let moved = ap (λ x. share t g x (some e.1)) same in
              ap (λ o. over (share t g k o) (lookup k (in_bucket t g (one_more t e buckets)))) gone
              ∙ before
              ∙ rw (hit, moved) refl
          | inr miss ↦ rw miss (ap (over (share t g k (lookup k d))) (before ∙ rw miss refl))
        ]

    pub bucket_entries-other :
        (t u : Table) (d : Dict Bytes) (buckets : Dict (Contents Bytes)) (g k : ℕ)
        → t ≢ u
        → lookup k (in_bucket u g (bucket_entries key_group requested t d buckets))
          ≡ lookup k (in_bucket u g buckets)
    unfolding bucket_entries
    bucket_entries-other t u [] buckets g k apart = refl
    bucket_entries-other t u (e ∷ d) buckets g k apart =
        bucket_entries-other t u d (one_more t e buckets) g k apart
        ∙ one_more-other t u e buckets g k apart

    -- The keys of the buckets and of their tables stand once.
    abbrev pub IsWell : Dict (Contents Bytes) → Type 0
    IsWell buckets = IsDict buckets × ((u : Table) (g : ℕ) → IsDict (in_bucket u g buckets))

    put_entry-IsDict :
        (t u : Table) (k : ℕ) (v : Bytes) (c : Contents Bytes)
        → ((w : Table) → IsDict (table_of w c))
        → IsDict (table_of u (put_entry t k v c))
    put_entry-IsDict Table.state Table.state k v c h = insert-IsDict k v c.state (h Table.state)
    put_entry-IsDict Table.expiry Table.expiry k v c h = insert-IsDict k v c.expiry (h Table.expiry)
    put_entry-IsDict Table.timers Table.timers k v c h = insert-IsDict k v c.timers (h Table.timers)
    put_entry-IsDict Table.state Table.expiry k v c h = h Table.expiry
    put_entry-IsDict Table.state Table.timers k v c h = h Table.timers
    put_entry-IsDict Table.expiry Table.state k v c h = h Table.state
    put_entry-IsDict Table.expiry Table.timers k v c h = h Table.timers
    put_entry-IsDict Table.timers Table.state k v c h = h Table.state
    put_entry-IsDict Table.timers Table.expiry k v c h = h Table.expiry

    pub bucket_entries-IsWell :
        (t : Table) (d : Dict Bytes) (buckets : Dict (Contents Bytes))
        → IsWell buckets
        → IsWell (bucket_entries key_group requested t d buckets)
    unfolding bucket_entries
    bucket_entries-IsWell t [] buckets h = h
    bucket_entries-IsWell t (e ∷ d) buckets (once, tables) =
        let group = key_group t e.0 e.1 in
        let new = put_entry t e.0 e.1 (lookup_or group no_contents buckets) in
        bucket_entries-IsWell t d (one_more t e buckets) (
          if-elim IsWell (contains group requested) _ _
            (λ asked. (
              insert-IsDict group new buckets once,
              λ u g.
                  subst (λ c. IsDict (table_of u c))
                    (sym (lookup_or-insert g group new no_contents buckets))
                    (if-elim (λ (c : Contents Bytes). IsDict (table_of u c)) (g == group) _ _
                      (λ _. put_entry-IsDict t u e.0 e.1 _ (λ w. tables w group))
                      (λ _. tables u g)),
            ))
            (λ unasked. (once, tables)))
