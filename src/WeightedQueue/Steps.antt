-- ===== src/WeightedQueue/Steps.antt =====
-- What callers and the consumer can do to a queue, one step at a time.
use klein.Base.{◌≡◌, Bool, some, ok}
use klein.WeightedQueue.{
  WeightedQueue, Reservation, bind, put, try_put, put_control, get, get_matching,
}

module _ {T X : Type 0} where
  -- Without `put_control`. In `outside` the consumer changes its own state.
  pub data DataStep (q q' : WeightedQueue T X) : Type 0 where
    putting : (item : T) → put q item ≡ ok (some q') → DataStep q q'
    trying : (item : T) (done : Bool) → try_put q item ≡ ok (done, q') → DataStep q q'
    getting : (item : T) → get q ≡ some (item, q') → DataStep q q'
    matching : (p : T → Bool) (item : T) → get_matching q p ≡ some (item, q') → DataStep q q'
    binding : (r : Reservation T X) → bind r q ≡ ok q' → DataStep q q'
    outside : (x : X) → q' ≡ record q { consumer = x } → DataStep q q'

  pub data Step (q q' : WeightedQueue T X) : Type 0 where
    plain : DataStep q q' → Step q q'
    controlling : (item : T) → put_control q item ≡ ok q' → Step q q'

  pub data DataReach (q : WeightedQueue T X) : WeightedQueue T X → Type 0 where
    here : DataReach q q
    next : {r s : WeightedQueue T X} → DataReach q r → DataStep r s → DataReach q s

  pub data Reach (q : WeightedQueue T X) : WeightedQueue T X → Type 0 where
    here : Reach q q
    next : {r s : WeightedQueue T X} → Reach q r → Step r s → Reach q s
