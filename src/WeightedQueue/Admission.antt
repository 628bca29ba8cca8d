-- ===== src/WeightedQueue/Admission.antt =====
-- What a successful call has done, in terms of the methods that it calls.
use klein.Base.{
  ℕ, ◌≡◌, ap, ◌∙◌, ◌⊎◌, inl, inr, Bool, true, false, some, ok, >>=-eq-ok, arith, Bool-cases,
}
use klein.WeightedQueue.{WeightedQueue, measure, can_admit, admit, put, try_put, put_control}

module _ {T X : Type 0} where
  -- `q'` is `q` after an item has been measured and admitted.
  pub record Added (q q' : WeightedQueue T X) (item : T) : Type 0 where
    pub weight : ℕ
    pub size : ℕ
    pub measured : measure q item ≡ ok (weight, size)
    pub result : q' ≡ admit q item weight size

  -- It was admitted because there was room.
  pub record Admitted (q q' : WeightedQueue T X) (item : T) : Type 0 where
    pub added : Added q q' item
    pub open added use *
    pub room : can_admit q added.weight added.size ≡ ok true

  pub put-Admitted :
      (q q' : WeightedQueue T X) (item : T) → put q item ≡ ok (some q') → Admitted q q' item
  unfolding put
  put-Admitted q q' item h =
      let ((w, s), measured, more) = >>=-eq-ok (measure q item) _ h in
      let (room, asked, answer) = >>=-eq-ok (can_admit q w s) _ more in
      let yes_room : room ≡ true = ground arith in
      record {
        added = record { weight = w; size = s; measured = measured; result = ground arith };
        room = asked ∙ ap ok yes_room;
      }

  -- `try_put` either admits the item or leaves the queue alone and says so.
  pub try_put-Admitted :
      (q q' : WeightedQueue T X) (item : T) (done : Bool)
      → try_put q item ≡ ok (done, q')
      → ((done ≡ true) × Admitted q q' item) ⊎ ((done ≡ false) × (q' ≡ q))
  unfolding try_put
  try_put-Admitted q q' item done h =
      let ((w, s), measured, more) = >>=-eq-ok (measure q item) _ h in
      let (room, asked, answer) = >>=-eq-ok (can_admit q w s) _ more in
      elim (Bool-cases room) [
        | inl has_room ↦ inl (
          ground arith,
          record {
            added = record { weight = w; size = s; measured = measured; result = ground arith };
            room = asked ∙ ap ok has_room;
          },
        )
        | inr full ↦ inr (ground arith, ground arith)
      ]

  pub put_control-Added :
      (q q' : WeightedQueue T X) (item : T) → put_control q item ≡ ok q' → Added q q' item
  unfolding put_control
  put_control-Added q q' item h =
      let ((w, s), measured, more) = >>=-eq-ok (measure q item) _ h in
      record { weight = w; size = s; measured = measured; result = ground arith }
