-- ===== src/DeliveryJournal/Lanes.antt =====
-- One lane against its history: what was delivered, numbered from 1, and the highest acknowledgement.
use klein.Base.{
  ℕ, ◌+◌, ◌≤◌, ◌<◌, ◌≡◌, refl, true, false, List, [], ◌∷◌, ◌++◌, map, map-append, append-nil, arith,
  length, length-append, if◌then◌else◌,
}
use klein.Base.Int.{ℤ, pos, negsuc, ltb_ℤ, leb_ℤ, max_ℤ, ◌≤ℤ◌}
use klein.DeliveryJournal.{ReplayEntry, Lane, drop_covered}

-- A delivered batch with its sequence.
abbrev pub Delivery : Type 0 → Type 0
Delivery R = ℕ × List R

pub record History (R : Type 0) : Type 0 where
  pub log : List (Delivery R)
  pub acked : ℤ

module _ {R : Type 0} where
  abbrev pub pair_of : ReplayEntry R → Delivery R
  pair_of e = (e.sequence, e.records)

  abbrev pub pairs : List (ReplayEntry R) → List (Delivery R)
  pairs = map pair_of

  -- The deliveries that no acknowledgement covers.
  abbrev pub uncovered : ℤ → List (Delivery R) → List (Delivery R)
  uncovered acked [] = []
  uncovered acked (d ∷ ds) =
      let rest = uncovered acked ds in if ltb_ℤ acked (pos d.0) then d ∷ rest else rest

  abbrev pub no_history : History R
  no_history = record { log = []; acked = negsuc 0 }

  -- Sequences rise along the list, from above `lo` and up to `hi`.
  abbrev pub Rising : ℕ → ℕ → List (ReplayEntry R) → Type 0
  Rising lo hi [] = Unit
  Rising lo hi (e ∷ es) = (lo < e.sequence) × (e.sequence ≤ hi) × Rising e.sequence hi es

  -- The lane is what its history makes it.
  pub record Follows (l : Lane R) (h : History R) : Type 0 where
    pub numbered : l.sequence ≡ length h.log
    pub acknowledged : l.forwarded ≡ h.acked
    pub retained : pairs l.buffer ≡ uncovered h.acked h.log
    pub rising : Rising 0 l.sequence l.buffer

  Rising-append :
      (lo hi : ℕ) (es : List (ReplayEntry R)) (e : ReplayEntry R)
      → Rising lo hi es
      → lo ≤ hi
      → e.sequence ≡ hi + 1
      → Rising lo e.sequence (es ++ e ∷ [])
  Rising-append lo hi [] e r h s = omega arith
  Rising-append lo hi (x ∷ xs) e (a, b, r) h s =
      (a, omega arith, Rising-append x.sequence hi xs e r b s)

  Rising-mono :
      (lo hi hi' : ℕ) (es : List (ReplayEntry R)) → Rising lo hi es → hi ≤ hi' → Rising lo hi' es
  Rising-mono lo hi hi' [] r h = tt
  Rising-mono lo hi hi' (x ∷ xs) (a, b, r) h =
      (a, omega arith, Rising-mono x.sequence hi hi' xs r h)

  Rising-lower :
      (lo lo' hi : ℕ) (es : List (ReplayEntry R)) → Rising lo hi es → lo' ≤ lo → Rising lo' hi es
  Rising-lower lo lo' hi [] r h = tt
  Rising-lower lo lo' hi (x ∷ xs) (a, b, r) h = (omega arith, b, r)

  uncovered-append :
      (a : ℤ) (ds : List (Delivery R)) (d : Delivery R)
      → uncovered a (ds ++ d ∷ []) ≡ uncovered a ds ++ (if ltb_ℤ a (pos d.0) then d ∷ [] else [])
  uncovered-append a [] d = refl
  uncovered-append a (x ∷ ds) d = ground (arith, uncovered-append a ds d)

  -- A later acknowledgement covers what an earlier one covers.
  uncovered-uncovered :
      (a b : ℤ) (ds : List (Delivery R)) → a ≤ℤ b → uncovered b (uncovered a ds) ≡ uncovered b ds
  uncovered-uncovered a b [] h = refl
  uncovered-uncovered a b (d ∷ ds) h = ground (arith, uncovered-uncovered a b ds h)

  -- Behind the first entry that is not covered none is.
  uncovered-Rising :
      (a : ℤ) (lo hi : ℕ) (es : List (ReplayEntry R))
      → Rising lo hi es
      → a ≤ℤ pos lo
      → uncovered a (pairs es) ≡ pairs es
  uncovered-Rising a lo hi [] r h = refl
  uncovered-Rising a lo hi (e ∷ es) (x, y, r) h =
      ground (arith, uncovered-Rising a e.sequence hi es r)

  -- So popping from the left drops exactly the covered entries.
  drop_covered-uncovered :
      (a : ℤ) (lo hi : ℕ) (es : List (ReplayEntry R))
      → Rising lo hi es
      → (pairs (drop_covered a es) ≡ uncovered a (pairs es)) × Rising lo hi (drop_covered a es)
  unfolding drop_covered
  drop_covered-uncovered a lo hi [] r = (refl, tt)
  drop_covered-uncovered a lo hi (e ∷ es) (x, y, r) =
      let (same, kept) = drop_covered-uncovered a e.sequence hi es r in
      ground (
        arith,
        same,
        Rising-lower e.sequence lo hi (drop_covered a es) kept,
        uncovered-Rising a e.sequence hi es r,
      )

  -- The history after one more delivery, and after an acknowledgement.
  abbrev pub delivered : History R → List R → History R
  delivered h records = record h { log = h.log ++ (length h.log + 1, records) ∷ [] }

  abbrev pub acknowledged : History R → ℤ → History R
  acknowledged h a = record h { acked = max_ℤ h.acked a }

  -- Committing the next sequence, with the entry or without it.
  pub delivered-Follows :
      (l : Lane R) (h : History R) (e : ReplayEntry R)
      → Follows l h
      → e.sequence ≡ l.sequence + 1
      → (ltb_ℤ l.forwarded (pos e.sequence) ≡ true
          → Follows
              (record l { buffer = l.buffer ++ e ∷ []; sequence = e.sequence })
              (delivered h e.records))
        × (ltb_ℤ l.forwarded (pos e.sequence) ≡ false
            → Follows (record l { sequence = e.sequence }) (delivered h e.records))
  delivered-Follows l h e f next =
      let d : Delivery R = (length h.log + 1, e.records) in
      let number : length h.log + 1 ≡ e.sequence = omega (arith, f.numbered) in
      let longer : e.sequence ≡ length (h.log ++ d ∷ []) =
        omega (arith, number, length-append h.log (d ∷ [])) in
      let more = uncovered-append h.acked h.log d in
      (
        λ kept. record {
          numbered = longer;
          acknowledged = f.acknowledged;
          retained = ground (
            arith,
            map-append pair_of l.buffer (e ∷ []),
            more,
            f.retained,
            f.acknowledged,
            number,
          );
          rising = Rising-append 0 l.sequence l.buffer e f.rising (omega arith) next;
        },
        λ covered. record {
          numbered = longer;
          acknowledged = f.acknowledged;
          retained = ground (
            arith,
            more,
            f.retained,
            f.acknowledged,
            number,
            append-nil (uncovered h.acked h.log),
          );
          rising = Rising-mono 0 l.sequence e.sequence l.buffer f.rising (omega arith);
        },
      )

  -- Dropping what a newer acknowledgement covers.
  pub acknowledged-Follows :
      (l : Lane R) (h : History R) (a : ℤ)
      → Follows l h
      → (leb_ℤ a l.forwarded ≡ true → Follows l (acknowledged h a))
        × (leb_ℤ a l.forwarded ≡ false
            → Follows
                (record l { buffer = drop_covered a l.buffer; forwarded = a })
                (acknowledged h a))
  acknowledged-Follows l h a f =
      let (same, kept) = drop_covered-uncovered a 0 l.sequence l.buffer f.rising in
      (
        λ stale. record {
          numbered = f.numbered;
          acknowledged = ground (arith, f.acknowledged);
          retained = ground (arith, f.retained, f.acknowledged);
          rising = f.rising;
        },
        λ newer. record {
          numbered = f.numbered;
          acknowledged = ground (arith, f.acknowledged);
          retained =
              ground (arith, same, f.retained, f.acknowledged, uncovered-uncovered h.acked a h.log);
          rising = kept;
        },
      )
