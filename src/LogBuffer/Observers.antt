-- ===== src/LogBuffer/Observers.antt =====
-- What a subscriber receives: its backlog, then every later line.
use process_compose.Common.{
  ℕ, ◌≡◌, refl, ap, ◌∙◌, String, true, List, [], ◌∷◌, ◌++◌, map, Dict, insert, keys, contains,
  IsDistinct, str_eq, arith, eq_iff, if◌then◌else◌, keys-insert, insert-IsDistinct,
}
use process_compose.Common.Int.{pos}
use process_compose.LogBuffer.{
  Delivery, lines, message, LogObserver, ProcessLogBuffer, fan_out, write, subscribe,
  get_logs_and_subscribe,
}
use process_compose.LogBuffer.Contents.{IsValid, contents}
use process_compose.LogBuffer.Range.{log_slice, get_log_range-eq}

-- The deliveries to one observer, in order.
abbrev pub received : String → List (String × Delivery) → List Delivery
received id [] = []
received id ((j, d) ∷ rest) =
    let later = received id rest in if str_eq j id then d ∷ later else later

-- Everything that a sequence of writes hands to the observers.
abbrev pub feed : List String → ProcessLogBuffer → List (String × Delivery)
feed [] b = []
feed (m ∷ ms) b = (write 0 m b).1 ++ feed ms (write 0 m b).0

pub received-append :
    (id : String) (xs ys : List (String × Delivery))
    → received id (xs ++ ys) ≡ received id xs ++ received id ys
received-append id [] ys = refl
received-append id ((j, d) ∷ xs) ys = ground (arith, received-append id xs ys)

received-fan_out :
    (id m : String) (os : Dict LogObserver)
    → IsDistinct (keys os)
    → received id (fan_out m os) ≡ (if contains (keys os) id then message m ∷ [] else [])
received-fan_out id m [] d = refl
received-fan_out id m ((j, o) ∷ os) d = ground (arith, eq_iff j id, received-fan_out id m os d.1)

received-write :
    (id m : String) (now : ℕ) (b : ProcessLogBuffer)
    → IsDistinct (keys b.observers)
    → received id (write now m b).1
      ≡ (if contains (keys b.observers) id then message m ∷ [] else [])
unfolding write
received-write id m now b d = received-fan_out id m b.observers d

observers-write :
    (now : ℕ) (m : String) (b : ProcessLogBuffer) → (write now m b).0.observers ≡ b.observers
unfolding write
observers-write now m b = refl

received-feed :
    (id : String) (ms : List String) (b : ProcessLogBuffer)
    → IsDistinct (keys b.observers)
    → contains (keys b.observers) id ≡ true
    → received id (feed ms b) ≡ map message ms
received-feed id [] b d h = refl
received-feed id (m ∷ ms) b d h =
    let kept = observers-write 0 m b in
    received-append id (write 0 m b).1 (feed ms (write 0 m b).0)
    ∙ rw (received-write id m 0 b d, h)
        (ap (λ (l : List Delivery). message m ∷ l)
          (received-feed id ms (write 0 m b).0 (rw kept d) (rw kept h)))

-- With no write in between, a subscriber receives the backlog it asks for, and then each later
-- line once and in order.
pub get_logs_and_subscribe-feed :
    (o : LogObserver) (b : ProcessLogBuffer) (ms : List String)
    → IsValid b
    → IsDistinct (keys b.observers)
    → let (b', first) = get_logs_and_subscribe o b in
      received o.unique_id (first ++ feed ms b')
      ≡ lines (log_slice (pos 0) o.tail_length (contents b)) ∷ map message ms
unfolding get_logs_and_subscribe subscribe
get_logs_and_subscribe-feed o b ms v d =
    let self : str_eq o.unique_id o.unique_id ≡ true = (eq_iff o.unique_id o.unique_id).1 refl in
    let listed : contains (keys (insert o.unique_id o b.observers)) o.unique_id ≡ true =
      ground (arith, keys-insert o.unique_id o.unique_id o b.observers, self) in
    rw (
      self,
      get_log_range-eq b (pos 0) o.tail_length v,
      received-feed o.unique_id ms (record b { observers = insert o.unique_id o b.observers })
          (insert-IsDistinct o.unique_id o b.observers d) listed,
    )
