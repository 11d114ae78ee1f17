-- ===== src/Channel/Queue/Removal.antt =====
-- What `RemoveFrameFromRxQueue` of EIBCommNEO/CommBase.cpp does to the queue.
use edifice.Base.{
  ℕ, ◌≡◌, ◌⊎◌, refl, inl, inr, false, ◌==◌, List, [], ◌∷◌, All, ret, fault, Bool-cases,
}
use edifice.Channel.Queue.{RxData, remove_frame_from_rx_queue}

-- No call removes a frame and comes to its end: either the queue has no entry with the id and stays as it
-- is, or the iterator of a removed entry is moved on, which is undefined.
remove_frame_from_rx_queue-cases :
    (frame_id : ℕ) (xs : List RxData)
    → (remove_frame_from_rx_queue frame_id xs ≡ fault)
      ⊎ ((remove_frame_from_rx_queue frame_id xs ≡ ret xs)
          × All (λ x. (x.id == frame_id) ≡ false) xs)
unfolding remove_frame_from_rx_queue
remove_frame_from_rx_queue-cases frame_id [] = inr (refl, tt)
remove_frame_from_rx_queue-cases frame_id (x ∷ xs) = elim (Bool-cases (x.id == frame_id)) [
  | inl found ↦ inl (rw found refl)
  | inr other ↦ elim (remove_frame_from_rx_queue-cases frame_id xs) [
    | inl e ↦ inl (rw (other, e) refl)
    | inr (e, others) ↦ inr (rw (other, e) refl, (other, others))
  ]
]
