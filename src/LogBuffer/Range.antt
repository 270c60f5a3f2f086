-- ===== src/LogBuffer/Range.antt =====
-- `GetLogRange` against its meaning on the list of stored lines.
use native.Mathlib.Nat.{mod-add-mod, mod-eq_of_lt, mod-lt, add-zero}
use mathlib.Core.Path.{ap₂}
use process_compose.Common.{
  ℕ, ◌+◌, true, false, ◌-◌, ◌%◌, ◌≤◌, ◌<◌, ◌≡◌, refl, sym, ap, ◌∙◌, String, List, [], inl, inr,
  arith, take, take_last, length, ◌==◌, if◌then◌else◌, Bool-cases,
}
use process_compose.Common.Int.{ℤ, pos, negsuc, pos_part, ltb_ℤ}
use process_compose.LogBuffer.{
  ProcessLogBuffer, clamp_offset, clamp_limit, read_from, get_log_range,
}
use process_compose.LogBuffer.Window.{
  window, read_from-window, window-mod, take-window, drop-window, length-window,
}
use process_compose.LogBuffer.Contents.{IsValid, oldest, contents}

-- Skip the newest `end_offset` lines, then take the newest `limit` of the rest, or all of the rest
-- for a limit that is not positive.
abbrev pub log_slice : ℤ → ℤ → List String → List String
log_slice end_offset limit xs =
    let front = take (length xs - pos_part end_offset) xs in
    if ltb_ℤ (pos 0) limit then take_last (pos_part limit) front else front

clamp_offset_lem : (c : ℕ) (e : ℤ) → c - clamp_offset c e ≡ c - pos_part e
unfolding clamp_offset
clamp_offset_lem c (pos n) = ground arith
clamp_offset_lem c (negsuc n) = refl

clamp_limit-le : (a : ℕ) (l : ℤ) → clamp_limit a l ≤ a
unfolding clamp_limit
clamp_limit-le a (pos n) = ground arith
clamp_limit-le a (negsuc n) = ground arith

clamp_limit_pos :
    (a : ℕ) (l : ℤ)
    → ltb_ℤ (pos 0) l ≡ true
    → (a - clamp_limit a l ≡ a - pos_part l) × (clamp_limit a l ≡ a - (a - pos_part l))
unfolding clamp_limit
clamp_limit_pos a (pos n) h = ground arith
clamp_limit_pos a (negsuc n) h = ground arith

clamp_limit_all : (a : ℕ) (l : ℤ) → ltb_ℤ (pos 0) l ≡ false → clamp_limit a l ≡ a
unfolding clamp_limit
clamp_limit_all a (pos n) h = ground arith
clamp_limit_all a (negsuc n) h = ground arith

index-mod : (o x s : ℕ) → 0 < s → ((o % s + x) % s + 0) % s ≡ (o + x) % s
index-mod o x s h = rw (add-zero) (mod-eq_of_lt (mod-lt (o % s + x) h) ∙ mod-add-mod o s x)

module _ (b : ProcessLogBuffer) (v : IsValid b) (e l : ℤ) where
  abbrev available : ℕ
  available = b.count - clamp_offset b.count e

  abbrev taken : ℕ
  taken = clamp_limit available l

  -- With nothing available the window is empty.
  empty : available ≡ 0 → window b.buffer b.size (oldest b + (available - taken)) taken ≡ []
  empty z = let none_taken : taken ≡ 0 = omega (arith, clamp_limit-le available l) in rw none_taken

  copied :
      read_from b ((oldest b % b.size + (available - taken)) % b.size) 0 taken
      ≡ window b.buffer b.size (oldest b + (available - taken)) taken
  copied =
      read_from-window b _ 0 taken
      ∙ window-mod b.buffer b.size _ _ taken
          (index-mod (oldest b) (available - taken) b.size v.positive)

  get_log_range-window :
      get_log_range b e l ≡ window b.buffer b.size (oldest b + (available - taken)) taken
  unfolding get_log_range
  get_log_range-window = elim (Bool-cases (available == 0)) [
    | inl z ↦ ground (arith, clamp_limit-le available l, empty)
    | inr some_left ↦ ground (arith, copied)
  ]

  slice-window :
      log_slice e l (contents b) ≡ window b.buffer b.size (oldest b + (available - taken)) taken
  slice-window =
      let stored = length-window b.buffer b.size (oldest b) b.count in
      let front : take (length (contents b) - pos_part e) (contents b)
          ≡ window b.buffer b.size (oldest b) available =
        rw (stored, ← clamp_offset_lem b.count e)
          (take-window b.buffer b.size (oldest b) available b.count (omega arith)) in
      rw front (elim (Bool-cases (ltb_ℤ (pos 0) l)) [
        | inl positive ↦
            let (skipped, n) = clamp_limit_pos available l positive in
            rw (positive, length-window b.buffer b.size (oldest b) available)
              (drop-window b.buffer b.size (oldest b) (available - pos_part l) available
                  (omega arith)
                ∙ ap₂ (window b.buffer b.size) (omega arith) (sym n))
        | inr all ↦
            let n = clamp_limit_all available l all in
            rw (all, n) (ap (λ (x : ℕ). window b.buffer b.size x available) (omega arith))
      ])

-- `GetLogRange` returns the lines that `endOffset` and `limit` describe, negative values included.
pub get_log_range-eq :
    (b : ProcessLogBuffer) (e l : ℤ) → IsValid b → get_log_range b e l ≡ log_slice e l (contents b)
get_log_range-eq b e l v = get_log_range-window b v e l ∙ sym (slice-window b v e l)
