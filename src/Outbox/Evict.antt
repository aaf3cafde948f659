-- ===== src/Outbox/Evict.antt =====
-- Which emission a full outbox gives up, and what an emission may count on.
use fluxrig.Prelude.{
  ℕ, ◌≡◌, ◌<◌, ◌≤◌, true, false, List, [], ◌∷◌, ◌++◌, ◌⊎◌, inl, inr, arith, Bytes, length, refl,
  some, ap, ◌∙◌, Option-cases, if◌then◌else◌,
}
use fluxrig.Outbox.{
  Item, Outbox, held, park, has_events, contains, message, event_item, make_room, is_event,
  without_event, evict, increment,
}
use fluxrig.Outbox.Emit.{emit, publish_event, Published}
use fluxrig.Outbox.Order.{contains_mid}
use fluxrig.Outbox.Balance.{length-evict, length-without_event}

-- The parked messages, in order.
abbrev pub messages : List Item → List Item
messages [] = []
messages (it ∷ its) = if is_event it then messages its else it ∷ messages its

messages-append : (xs ys : List Item) → messages (xs ++ ys) ≡ messages xs ++ messages ys
messages-append [] ys = refl
messages-append (x ∷ xs) ys = ground (arith, messages-append xs ys)

messages-without_event :
    (its rest : List Item) → without_event its ≡ some rest → messages rest ≡ messages its
unfolding without_event
messages-without_event [] rest e = cc
messages-without_event (it ∷ its) rest e = elim (Option-cases (without_event its)) [
  | inl n ↦ ground arith
  | inr (r, s) ↦ ground (arith, messages-without_event its r s)
]

make_room-roomy : (fuel : ℕ) (o : Outbox) → length o.items < o.max → make_room fuel o ≡ o
unfolding make_room
make_room-roomy ℕ.zero o h = refl
make_room-roomy (ℕ.suc fuel) o h = ground arith

park_full :
    (s : Bytes) (p : ℕ) (o : Outbox)
    → length o.items ≡ o.max
    → 0 < length o.items
    → (park s p o).items ≡ evict o.items ++ (message s p ∷ [])
unfolding park
park_full s p o full h = ap (λ q. q ++ (message s p ∷ [])) (one_round (length o.items) h)
  where
    one_round : (fuel : ℕ) → 0 < fuel → (make_room fuel o).items ≡ evict o.items
    one_round ℕ.zero h0 = absurd (omega arith)
    one_round (ℕ.suc fuel) h0 =
        let o1 = record o { items = evict o.items; dropped = increment o.dropped } in
        unfold make_room in
        ground (arith, make_room-roomy fuel o1 (omega (arith, length-evict o.items h)))

-- A message that is parked in an outbox at its bound, where an event is parked, takes the place
-- of an event: every parked message stays, in order, in front of the new one.
pub park-keeps_messages :
    (s : Bytes) (p : ℕ) (o : Outbox)
    → length o.items ≡ o.max
    → has_events o ≡ true
    → messages (park s p o).items ≡ messages o.items ++ (message s p ∷ [])
unfolding park has_events
park-keeps_messages s p o full ev = elim (Option-cases (without_event o.items)) [
  | inl n ↦ absurd (ground arith)
  | inr (rest, e) ↦
      ap messages (park_full s p o full (omega (arith, length-without_event o.items rest e)))
      ∙ messages-append (evict o.items) (message s p ∷ [])
      ∙ ap (λ q. q ++ (message s p ∷ []))
          (unfold evict in ground (arith, messages-without_event o.items rest e))
]

-- With no event parked, the oldest message goes and the rest keeps its order.
pub park-drops_oldest :
    (s : Bytes) (p : ℕ) (o : Outbox) (x : Item) (xs : List Item)
    → o.items ≡ x ∷ xs
    → length o.items ≡ o.max
    → has_events o ≡ false
    → (park s p o).items ≡ xs ++ (message s p ∷ [])
unfolding park has_events
park-drops_oldest s p o x xs q full ev =
    park_full s p o full (ground arith)
    ∙ ap (λ r. r ++ (message s p ∷ [])) (unfold evict in ground arith)

-- An emission on a subject that still has parked messages, with subject order, is never sent to
-- the bus: it is queued last, and the caller gets no error.
pub emit-behind :
    (s : Bytes) (p : ℕ) (a : Published) (between : Outbox → Outbox) (o : Outbox)
    → o.ordered ≡ true
    → held s o ≡ true
    → ((emit s p a between o).reached ≡ false)
      × ((emit s p a between o).error ≡ false)
      × ((q : List Item) × ((emit s p a between o).outbox.items ≡ q ++ (message s p ∷ [])))
unfolding emit park
emit-behind s p a between o od h =
    (ground arith, ground arith, ((make_room (length o.items) o).items, ground arith))

-- An emission that reports success has reached the bus, or is in the queue.
pub emit-accounted :
    (s : Bytes) (p : ℕ) (a : Published) (between : Outbox → Outbox) (o : Outbox)
    → (emit s p a between o).error ≡ false
    → ((emit s p a between o).reached ≡ true)
      ⊎ (contains (emit s p a between o).outbox.items (message s p) ≡ true)
unfolding emit park
emit-accounted s p a between o e = ground (
  arith,
  contains_mid (make_room (length o.items) o).items (message s p) [],
  contains_mid (make_room (length (between o).items) (between o)).items (message s p) [],
)

-- A durable event reaches the bus, or is in the queue, or the caller gets an error and the queue is
-- full.
pub publish_event-accounted :
    (s : Bytes) (p : ℕ) (a : Published) (between : Outbox → Outbox) (o : Outbox)
    → ((publish_event s p a between o).reached ≡ true)
      ⊎ (contains (publish_event s p a between o).outbox.items (event_item s p) ≡ true)
      ⊎ (((publish_event s p a between o).error ≡ true)
          × ((publish_event s p a between o).outbox.max
              ≤ length (publish_event s p a between o).outbox.items))
unfolding publish_event
publish_event-accounted s p a between o = ground (
  arith,
  contains_mid o.items (event_item s p) [],
  contains_mid (between o).items (event_item s p) [],
)
