-- ===== src/MemoryState/Entries/Index.antt =====
-- The index of the entries that expire, by which the clean-up finds them.
use klein.Base.{
  true, ltb, ◌||◌, ℕ, ◌+◌, ◌≡◌, ◌≢◌, inl, inr, refl, sym, ◌∙◌, ap, subst, false, Option, none, some,
  List, [], ◌∷◌, ◌==◌, if◌then◌else◌, Bool-cases, ==_iff, option-elim, if-elim,
}
use klein.Base.Dict.{
  Dict, insert, lookup, erase, lookup-insert, lookup-erase, lookup-insert_cases, lookup-erase_cases,
}
use klein.MemoryState.{Contents, no_contents}
use klein.MemoryState.Entries.{
  StateCodec, StateTtlConfig, IsCodec, put, get, delete, cleanup_one, cleanup_loop, cleanup_expired,
  drop_expiry, add_expiry, expiry_of, expiry_for, is_hidden, renews, expires_then, limit_reached,
  sorted_keys,
}

module _ {Bytes Value : Type 0} (codec : StateCodec Bytes Value) where
  -- Every entry that expires is in the index by which it is cleaned up.
  pub IsIndexed : Contents Bytes → Type 0
  IsIndexed c =
      (k e : ℕ) (encoded : Bytes)
      → lookup k c.state ≡ some encoded
      → (codec.decode_state_value encoded).0 ≡ some e
      → lookup (codec.encode_expiry_key e k) c.expiry ≢ none

  -- The index after an entry gave up its expiry: all others are there.
  drop_expiry-keeps :
      (k j e : ℕ) (old : Option ℕ) (expiry : Dict Bytes)
      → IsCodec codec
      → (j == k) ≡ false
      → lookup (codec.encode_expiry_key e j) expiry ≢ none
      → lookup (codec.encode_expiry_key e j) (drop_expiry codec k old expiry) ≢ none
  unfolding IsCodec
  drop_expiry-keeps k j e none expiry law apart there gone = there gone
  drop_expiry-keeps k j e (some o) expiry (decoded, injective) apart there gone =
      let mine = codec.encode_expiry_key e j in
      let other = codec.encode_expiry_key o k in
      elim (Bool-cases (mine == other)) [
        | inl clash ↦
            let same : j ≡ k =
              ap (λ p. p.1)
                (sym (injective e j)
                  ∙ ap codec.decode_expiry_key ((==_iff mine other).0 clash)
                  ∙ injective o k) in
            let hit = (==_iff j k).1 same in absurd (cc)
        | inr miss ↦ there (sym (lookup-erase mine other expiry ∙ rw miss refl) ∙ gone)
      ]

  add_expiry-keeps :
      (k i : ℕ) (new : Option ℕ) (expiry : Dict Bytes)
      → lookup i expiry ≢ none
      → lookup i (add_expiry codec k new expiry) ≢ none
  add_expiry-keeps k i none expiry there gone = there gone
  add_expiry-keeps k i (some e) expiry there gone =
      let key = codec.encode_expiry_key e k in
      let at = sym (lookup-insert i key codec.empty_bytes expiry) ∙ gone in
      elim (Bool-cases (i == key)) [
        | inl hit ↦ let lost : some codec.empty_bytes ≡ none = sym (rw hit refl) ∙ at in absurd (cc)
        | inr miss ↦ there (sym (rw miss refl) ∙ at)
      ]

  add_expiry-own :
      (k e : ℕ) (new : Option ℕ) (expiry : Dict Bytes)
      → new ≡ some e
      → lookup (codec.encode_expiry_key e k) (add_expiry codec k new expiry) ≢ none
  add_expiry-own k e none expiry h gone = absurd (cc)
  add_expiry-own k e (some e') expiry h gone =
      let key = codec.encode_expiry_key e k in
      let same : e' ≡ e = cc in
      let at =
        ap (λ x. lookup key (insert (codec.encode_expiry_key x k) codec.empty_bytes expiry))
          (sym same)
        ∙ gone in
      let found =
        lookup-insert key key codec.empty_bytes expiry ∙ rw ((==_iff key key).1 refl) refl in
      let clash : some codec.empty_bytes ≡ none = sym found ∙ at in absurd (cc)

  put-IsIndexed :
      (ttl : Option StateTtlConfig) (k : ℕ) (value : Value) (now : ℕ) (c : Contents Bytes)
      → IsCodec codec
      → IsIndexed c
      → IsIndexed (put codec ttl k value now c)
  unfolding put IsIndexed IsCodec
  put-IsIndexed ttl k value now c law indexed j e encoded at expires =
      let fresh = codec.encode_state_value value (expiry_for codec ttl now) in
      elim (lookup-insert_cases j k fresh encoded c.state at) [
        | inl (same, new) ↦
            let stored = ap (λ p. p.0) (law.0 value (expiry_for codec ttl now)) in
            let its : expiry_for codec ttl now ≡ some e =
              sym stored ∙ ap (λ b. (codec.decode_state_value b).0) new ∙ expires in
            subst
              (λ x.
                lookup (codec.encode_expiry_key e x) (put codec ttl k value now c).expiry ≢ none)
              (sym same)
              (add_expiry-own k e (expiry_for codec ttl now)
                (drop_expiry codec k (expiry_of codec k c.state) c.expiry) its)
        | inr (other, before) ↦
            add_expiry-keeps k (codec.encode_expiry_key e j) (expiry_for codec ttl now) _ (
              drop_expiry-keeps k j e (expiry_of codec k c.state) c.expiry law other
                (indexed j e encoded before expires))
      ]

  delete-IsIndexed :
      (k : ℕ) (c : Contents Bytes) → IsCodec codec → IsIndexed c → IsIndexed (delete codec k c)
  unfolding delete IsIndexed
  delete-IsIndexed k c law indexed j e encoded at expires =
      let (other, before) = lookup-erase_cases j k encoded c.state at in
      drop_expiry-keeps k j e (expiry_of codec k c.state) c.expiry law other
        (indexed j e encoded before expires)

  erased-IsIndexed :
      (k : ℕ) (c : Contents Bytes) → IsIndexed c → IsIndexed (record c { state = erase k c.state })
  unfolding IsIndexed
  erased-IsIndexed k c indexed j e encoded at expires =
      indexed j e encoded (lookup-erase_cases j k encoded c.state at).1 expires

  get-IsIndexed :
      (ttl : Option StateTtlConfig) (k now renewed_at : ℕ) (c : Contents Bytes)
      → IsCodec codec
      → IsIndexed c
      → IsIndexed (get codec ttl k now renewed_at c).1
  unfolding get
  get-IsIndexed ttl k now renewed_at c law indexed =
      let P : Option Value × Contents Bytes → Type 0 = λ r. IsIndexed r.1 in
      option-elim P (lookup k c.state) _ _ (λ _. indexed)
        (λ encoded _.
          if-elim P (is_hidden codec ttl (codec.decode_state_value encoded).0 now) _ _
            (λ _. erased-IsIndexed k c indexed)
            (λ _.
              if-elim IsIndexed (renews codec ttl) _ _
                (λ _.
                  put-IsIndexed ttl k (codec.decode_state_value encoded).1 renewed_at c law indexed)
                (λ _. indexed)))

  cleanup_one-IsIndexed :
      (expiry_key : ℕ) (c : Contents Bytes)
      → IsCodec codec
      → IsIndexed c
      → IsIndexed (cleanup_one codec expiry_key c).1
  unfolding cleanup_one IsIndexed IsCodec
  cleanup_one-IsIndexed x c (decoded, inverse) indexed j e encoded at expires gone =
      let k = (codec.decode_expiry_key x).1 in
      let mine = codec.encode_expiry_key e j in
      let stale = expires_then codec (expiry_of codec k c.state) (codec.decode_expiry_key x).0 in
      let before : lookup j c.state ≡ some encoded =
        if-elim (λ (d : Dict Bytes). lookup j d ≡ some encoded → lookup j c.state ≡ some encoded)
          stale _ _ (λ _ h. (lookup-erase_cases j k encoded c.state h).1) (λ _ h. h) at in
      elim (Bool-cases (mine == x)) [
        | inr miss ↦
            indexed j e encoded before expires
              (sym (lookup-erase mine x c.expiry ∙ rw miss refl) ∙ gone)
        | inl hit ↦
            let pair : codec.decode_expiry_key x ≡ (e, j) =
              ap codec.decode_expiry_key (sym ((==_iff mine x).0 hit)) ∙ inverse e j in
            let its : expiry_of codec j c.state ≡ some e =
              ap
                (λ o. elim o as (λ _. Option ℕ) [
                  | none ↦ none
                  | some b ↦ (codec.decode_state_value b).0
                ])
                before
              ∙ expires in
            let taken : stale ≡ true =
              ap (λ p. expires_then codec (expiry_of codec p.1 c.state) p.0) pair
              ∙ ap (λ o. expires_then codec o e) its
              ∙ (==_iff e e).1 refl in
            let left : lookup j (erase k c.state) ≡ some encoded =
              ap (λ b. lookup j (if b then erase k c.state else c.state)) (sym taken) ∙ at in
            let other = (lookup-erase_cases j k encoded c.state left).0 in
            let same = (==_iff j k).1 (sym (ap (λ p. p.1) pair)) in absurd (cc)
      ]

  cleanup_loop-IsIndexed :
      (keys : List ℕ) (processed now : ℕ) (limit : Option ℕ) (c : Contents Bytes)
      → IsCodec codec
      → IsIndexed c
      → IsIndexed (cleanup_loop codec keys processed now limit c).1
  unfolding cleanup_loop
  cleanup_loop-IsIndexed [] processed now limit c law h = h
  cleanup_loop-IsIndexed (x ∷ keys) processed now limit c law h =
      if-elim (λ (r : ℕ × Contents Bytes). IsIndexed r.1)
        (ltb now (codec.decode_expiry_key x).0 || limit_reached codec limit processed) _ _ (λ _. h)
        (λ _.
          cleanup_loop-IsIndexed keys (processed + 1) now limit _ law
            (cleanup_one-IsIndexed x c law h))

  cleanup_expired-IsIndexed :
      (now : ℕ) (limit : Option ℕ) (c : Contents Bytes)
      → IsCodec codec
      → IsIndexed c
      → IsIndexed (cleanup_expired codec now limit c).1
  unfolding cleanup_expired
  cleanup_expired-IsIndexed now limit c law h =
      cleanup_loop-IsIndexed (sorted_keys codec c.expiry) 0 now limit c law h

  -- What a task does with its state.
  pub data Use : Type 0 where
    reading : Option StateTtlConfig → ℕ → ℕ → ℕ → Use
    writing : Option StateTtlConfig → ℕ → Value → ℕ → Use
    deleting : ℕ → Use
    cleaning : ℕ → Option ℕ → Use

  pub run : List Use → Contents Bytes → Contents Bytes
  unfolding get put delete cleanup_expired
  run [] c = c
  run (reading ttl k now renewed_at ∷ us) c = run us (get codec ttl k now renewed_at c).1
  run (writing ttl k value now ∷ us) c = run us (put codec ttl k value now c)
  run (deleting k ∷ us) c = run us (delete codec k c)
  run (cleaning now limit ∷ us) c = run us (cleanup_expired codec now limit c).1

  run-keeps :
      (us : List Use) (c : Contents Bytes) → IsCodec codec → IsIndexed c → IsIndexed (run us c)
  unfolding run
  run-keeps [] c law h = h
  run-keeps (reading ttl k now renewed_at ∷ us) c law h =
      run-keeps us _ law (get-IsIndexed ttl k now renewed_at c law h)
  run-keeps (writing ttl k value now ∷ us) c law h =
      run-keeps us _ law (put-IsIndexed ttl k value now c law h)
  run-keeps (deleting k ∷ us) c law h = run-keeps us _ law (delete-IsIndexed k c law h)
  run-keeps (cleaning now limit ∷ us) c law h =
      run-keeps us _ law (cleanup_expired-IsIndexed now limit c law h)

  -- Whatever a task reads, writes, deletes and cleans up in an empty backend, each entry that expires stays in
  -- the index by which it is cleaned up, if the codec is faithful.
  pub run-IsIndexed : (us : List Use) → IsCodec codec → IsIndexed (run us no_contents)
  unfolding IsIndexed
  run-IsIndexed us law = run-keeps us no_contents law (λ j e encoded at expires gone. absurd (cc))
