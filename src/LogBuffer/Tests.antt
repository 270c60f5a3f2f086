-- ===== src/LogBuffer/Tests.antt =====
-- Runs of the log buffer, and the theorems at concrete buffers.
use process_compose.Common.{◌≡◌, refl, [], ◌∷◌, ◌++◌, arith, take_last}
use process_compose.Common.Int.{pos, negsuc}
use process_compose.LogBuffer.{
  LogObserver, ProcessLogBuffer, lines, message, new_log_buffer, write, write_all, get_log_range,
  read_from, clamp_offset, clamp_limit, get_logs_and_subscribe,
}
use process_compose.LogBuffer.Contents.{IsValid, contents, write-IsValid, contents-write_all}
use process_compose.LogBuffer.Range.{log_slice, get_log_range-eq}
use process_compose.LogBuffer.Observers.{received, feed, get_logs_and_subscribe-feed}

abbrev three : ProcessLogBuffer
three = record {
  buffer = "d" ∷ "b" ∷ "c" ∷ [];
  size = 3;
  head = 1;
  count = 3;
  observers = [];
  last_write_nano = 7;
}

abbrev tail_of_two : LogObserver
tail_of_two = record { unique_id = "obs"; tail_length = pos 2 }

three-IsValid : IsValid three
three-IsValid = omega arith

wraps :
    contents (write_all ("a" ∷ "b" ∷ "c" ∷ "d" ∷ []) (new_log_buffer (pos 3)))
    ≡ "b" ∷ "c" ∷ "d" ∷ []
unfolding write_all write new_log_buffer
wraps = refl

default_for_zero : (new_log_buffer (negsuc 4)).size ≡ 1000
unfolding new_log_buffer
default_for_zero = refl

ranges :
    (get_log_range three (pos 1) (pos 1) ≡ "c" ∷ [])
    × (get_log_range three (negsuc 0) (pos 0) ≡ "b" ∷ "c" ∷ "d" ∷ [])
    × (get_log_range three (pos 9) (pos 2) ≡ [])
unfolding get_log_range read_from clamp_offset clamp_limit
ranges = (refl, refl, refl)

write-IsValid_example : IsValid (write 9 "e" three).0
write-IsValid_example = write-IsValid 9 "e" three-IsValid

contents-write_all_example :
    contents (write_all ("e" ∷ "f" ∷ []) three) ≡ take_last 3 ("b" ∷ "c" ∷ "d" ∷ "e" ∷ "f" ∷ [])
contents-write_all_example = contents-write_all ("e" ∷ "f" ∷ []) three-IsValid

get_log_range-eq_example :
    get_log_range three (pos 1) (pos 1) ≡ log_slice (pos 1) (pos 1) (contents three)
get_log_range-eq_example = get_log_range-eq three (pos 1) (pos 1) three-IsValid

get_logs_and_subscribe-feed_example :
    let (b', first) = get_logs_and_subscribe tail_of_two three in
    received "obs" (first ++ feed ("e" ∷ []) b') ≡ lines ("c" ∷ "d" ∷ []) ∷ message "e" ∷ []
get_logs_and_subscribe-feed_example =
    get_logs_and_subscribe-feed tail_of_two three ("e" ∷ []) three-IsValid tt
