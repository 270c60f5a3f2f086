-- ===== src/LogBuffer.antt =====
-- src/pclog/process_log_buffer.go: the fixed-size ring buffer behind one process's log, and the
-- observers that are fed with it. A method that mutates `*ProcessLogBuffer` returns the new record,
-- and the calls that it makes on observers, in order, as a list of deliveries. The mutexes make
-- each method one step.
pub mod Window
pub mod Contents
pub mod Range
pub mod Observers
mod Tests
use process_compose.Common.{
  ℕ, zero, suc, ◌+◌, ◌-◌, ◌%◌, String, Bool, List, [], ◌∷◌, map, Dict, insert, delete, ltb, leb,
  ◌==◌, if◌then◌else◌, get_or, set, replicate, min,
}
use process_compose.Common.Int.{ℤ, pos, negsuc, pos_part, ltb_ℤ, eqb_ℤ}

-- What an observer is handed: `SetLines(lines)` or `WriteString(message)`.
pub data Delivery : Type 0 where
  lines : List String → Delivery
  message : String → Delivery

-- `LogObserver`: its id, the number of backlog lines it asks for. Its handlers stay outside.
pub record LogObserver : Type 0 where
  pub unique_id : String
  pub tail_length : ℤ

pub record ProcessLogBuffer : Type 0 where
  pub buffer : List String
  pub size : ℕ
  pub head : ℕ
  pub count : ℕ
  pub observers : Dict LogObserver
  pub last_write_nano : ℕ

abbrev pub default_size : ℕ
default_size = 1000

-- `NewLogBuffer`: a size that is not positive means the default.
unfoldable pub new_log_buffer : ℤ → ProcessLogBuffer
new_log_buffer size =
    let n = if ltb_ℤ (pos 0) size then pos_part size else default_size in
    record {
      buffer = replicate n "";
      size = n;
      head = 0;
      count = 0;
      observers = [];
      last_write_nano = 0;
    }

abbrev fan_out : String → Dict LogObserver → List (String × Delivery)
fan_out m [] = []
fan_out m ((id, o) ∷ rest) = (id, message m) ∷ fan_out m rest

-- `Write`, at the time `now`.
unfoldable pub write : ℕ → String → ProcessLogBuffer → ProcessLogBuffer × List (String × Delivery)
write now m b =
    let b' = record b {
      last_write_nano = now;
      buffer = set b.buffer b.head m;
      head = (b.head + 1) % b.size;
      count = if ltb b.count b.size then b.count + 1 else b.count;
    } in
    (b', fan_out m b'.observers)

-- The copying loop of `GetLogRange`: `n` elements from the loop index `i` on.
pub read_from : ProcessLogBuffer → ℕ → ℕ → ℕ → List String
read_from b first i zero = []
read_from b first i (suc n) =
    get_or b.buffer ((first + i) % b.size) "" ∷ read_from b first (i + 1) n

-- `endOffset` after its two clamps, and `limit` after its own.
unfoldable pub clamp_offset : ℕ → ℤ → ℕ
clamp_offset count (negsuc n) = 0
clamp_offset count (pos n) = if ltb count n then count else n

unfoldable pub clamp_limit : ℕ → ℤ → ℕ
clamp_limit available limit =
    let n = if ltb_ℤ (pos 0) limit then pos_part limit else available in
    if ltb available n then available else n

-- `GetLogRange`. `head - count + size` is not negative where `count ≤ size`.
unfoldable pub get_log_range : ProcessLogBuffer → ℤ → ℤ → List String
get_log_range b end_offset limit =
    let available = b.count - clamp_offset b.count end_offset in
    let n = clamp_limit available limit in
    let start = (b.head + b.size - b.count) % b.size in
    let first = (start + (available - n)) % b.size in
    if b.count == 0 then [] else if available == 0 then [] else read_from b first 0 n

unfoldable pub get_log_length : ProcessLogBuffer → ℕ
get_log_length b = b.count

unfoldable pub subscribe : LogObserver → ProcessLogBuffer → ProcessLogBuffer
subscribe o b = record b { observers = insert o.unique_id o b.observers }

-- `GetLogsAndSubscribe`: the backlog goes to the observer before it is registered.
unfoldable pub get_logs_and_subscribe :
    LogObserver → ProcessLogBuffer → ProcessLogBuffer × List (String × Delivery)
get_logs_and_subscribe o b =
    (subscribe o b, (o.unique_id, lines (get_log_range b (pos 0) o.tail_length)) ∷ [])

unfoldable pub unsubscribe : LogObserver → ProcessLogBuffer → ProcessLogBuffer
unsubscribe o b = record b { observers = delete o.unique_id b.observers }

unfoldable pub close : ProcessLogBuffer → ProcessLogBuffer
close b = record b { observers = [] }

unfoldable pub truncate : ProcessLogBuffer → ProcessLogBuffer
truncate b = record b { head = 0; count = 0 }

-- What a client does: a sequence of writes and truncations.
unfoldable pub write_all : List String → ProcessLogBuffer → ProcessLogBuffer
write_all [] b = b
write_all (m ∷ ms) b = write_all ms (write 0 m b).0
