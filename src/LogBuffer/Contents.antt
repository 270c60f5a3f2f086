-- ===== src/LogBuffer/Contents.antt =====
-- What the buffer holds, oldest line first, and how `write` changes it: the ring refines a queue
-- that keeps the last `size` lines.
use native.Mathlib.Nat.{mod-eq_of_lt, mod-eq-sub-mod, mod-lt, add-mod_right}
use mathlib.Core.List.{append-nil, append_assoc}
use process_compose.Common.{
  ℕ, zero, suc, ◌+◌, ◌-◌, ◌%◌, ◌≤◌, ◌<◌, ◌≡◌, ◌≢◌, refl, ap, ◌∙◌, String, List, [], ◌∷◌, ◌++◌, inl,
  inr, arith, get_or, set, length, drop, take_last, take_last-append, drop-append, get_or-set_self,
  length-set, length-append, length-replicate, false, ltb, lt→ltb, Bool-cases,
}
use process_compose.Common.Int.{ℤ, pos, negsuc}
use process_compose.LogBuffer.{ProcessLogBuffer, new_log_buffer, write, write_all}
use process_compose.LogBuffer.Window.{window, window-mod, window-add, window-set_ne, length-window}

-- The slots that the buffer counts as stored lie in the storage.
pub record IsValid (b : ProcessLogBuffer) : Type 0 where
  pub storage : length b.buffer ≡ b.size
  pub positive : 0 < b.size
  pub head_in : b.head < b.size
  pub count_in : b.count ≤ b.size

-- The unwrapped index of the oldest line.
abbrev pub oldest : ProcessLogBuffer → ℕ
oldest b = b.head + b.size - b.count

-- The stored lines, oldest first.
abbrev pub contents : ProcessLogBuffer → List String
contents b = window b.buffer b.size (oldest b) b.count

pub new_log_buffer-IsValid : (size : ℤ) → IsValid (new_log_buffer size)
unfolding new_log_buffer
new_log_buffer-IsValid (pos zero) = ground (arith, length-replicate {A = String} 1000 "")
new_log_buffer-IsValid (pos (suc n)) = ground (arith, length-replicate {A = String} (suc n) "")
new_log_buffer-IsValid (negsuc n) = ground (arith, length-replicate {A = String} 1000 "")

-- Writing to a well-formed buffer leaves it well-formed: its head and count stay in range.
pub write-IsValid :
    (now : ℕ) (m : String) {b : ProcessLogBuffer} → IsValid b → IsValid (write now m b).0
unfolding write
write-IsValid now m {b} v =
    ground (arith, length-set b.buffer b.head m, mod-lt (b.head + 1) {m = b.size})

-- An index that lies `0 < k < size` slots before `head + size` is not `head`.
before-head : (h s k : ℕ) → h < s → 0 < k → k < s → (h + s - k) % s ≢ h
before-head h s k a b c e = elim (Bool-cases (ltb (h + s - k) s)) [
  | inl small ↦ ground (arith, mod-eq_of_lt {n = h + s - k} {m = s})
  | inr big ↦
      ground
        (arith, mod-eq-sub-mod {n = h + s - k} {m = s}, mod-eq_of_lt {n = h + s - k - s} {m = s})
]

module _ (buf : List String) (s h : ℕ) (m : String) (size : length buf ≡ s) (inside : h < s) where
  at_head : (a : ℕ) → a ≡ h + s → get_or (set buf h m) (a % s) "" ≡ m
  at_head a e =
      rw (e, add-mod_right h s, mod-eq_of_lt inside) (get_or-set_self buf h m "" (omega arith))

  -- Storing at the head appends to the `c` slots before it.
  window-set_head :
      (c : ℕ)
      → c < s
      → window (set buf h m) s (h + s - c) (c + 1) ≡ window buf s (h + s - c) c ++ m ∷ []
  window-set_head c lt = rw (
    window-add (set buf h m) s (h + s - c) c 1,
    window-set_ne buf s h m (h + s - c) c (λ i hi e.
        before-head h s (c - i) inside (omega arith) (omega arith)
          (ap (λ (x : ℕ). x % s) (omega arith) ∙ e)),
    at_head (h + s - c + c) (omega arith),
  )

  -- Moving the head and counting one more line keeps the oldest one.
  oldest-mod : (c : ℕ) → c < s → ((h + 1) % s + s - (c + 1)) % s ≡ (h + s - c) % s
  oldest-mod c lt = elim (Bool-cases (ltb (h + 1) s)) [
    | inl small ↦ ground (arith, mod-eq_of_lt {n = h + 1} {m = s})
    | inr last ↦
        let e : h + 1 ≡ s = ground arith in
        ground (
          arith,
          mod-eq-sub-mod {n = h + s - c} {m = s},
          mod-eq-sub-mod {n = h + 1} {m = s},
          mod-eq_of_lt {n = h + 1 - s} {m = s},
        )
  ]

  -- In a full ring the oldest line is the one at the head, which the write replaces.
  window-set_full :
      (c : ℕ)
      → s ≡ suc c
      → window (set buf h m) s ((h + 1) % s + s - suc c) (suc c)
        ≡ drop 1 (window buf s (h + s - suc c) (suc c)) ++ m ∷ []
  window-set_full c e =
      let start : ((h + 1) % s + s - suc c) % s ≡ (h + s - c) % s =
        ap (λ (x : ℕ). x % s) (omega arith)
        ∙ (mod-eq_of_lt (mod-lt (h + 1) (omega arith)) ∙ ap (λ (x : ℕ). x % s) (omega arith)) in
      let grown = window-set_head c (omega arith) in
      window-mod (set buf h m) s _ _ (suc c) start
      ∙ (ap (window (set buf h m) s (h + s - c)) {x = suc c} (omega arith)
          ∙ (grown ∙ ap (λ (x : ℕ). window buf s x c ++ m ∷ []) (omega arith)))

module _ (now : ℕ) (m : String) {b : ProcessLogBuffer} (v : IsValid b) where
  room : b.count < b.size → contents (write now m b).0 ≡ contents b ++ m ∷ []
  unfolding write
  room h = rw (lt→ltb b.count b.size h) (
      window-mod _ b.size _ _ (b.count + 1)
        (oldest-mod b.buffer b.size b.head m v.storage v.head_in b.count h)
      ∙ window-set_head b.buffer b.size b.head m v.storage v.head_in b.count h)

  full :
      (c : ℕ)
      → b.count ≡ b.size
      → b.count ≡ suc c
      → contents (write now m b).0 ≡ drop 1 (contents b) ++ m ∷ []
  unfolding write
  full c h k =
      let stays : ltb b.count b.size ≡ false = ground arith in
      rw (stays, k) (window-set_full b.buffer b.size b.head m v.storage v.head_in c (omega arith))

  -- A write appends the line, and keeps as many of the newest lines as fit.
  pub contents-write : contents (write now m b).0 ≡ take_last b.size (contents b ++ m ∷ [])
  contents-write =
      let n = length-window b.buffer b.size (oldest b) b.count in
      let n' = length-append (contents b) (m ∷ []) in
      elim (Bool-cases (ltb b.count b.size)) [
        | inl small ↦
            let none_dropped : length (contents b ++ m ∷ []) - b.size ≡ 0 = ground (arith, n, n') in
            rw none_dropped (room (ground arith))
        | inr at_size ↦
            let one_dropped : length (contents b ++ m ∷ []) - b.size ≡ 1 =
              ground (arith, n, n', v.count_in) in
            rw (one_dropped, drop-append 1 (contents b) (m ∷ []) (ground (arith, n)))
              (full (b.count - 1) (ground arith) (ground arith))
      ]

  pub size-write : (write now m b).0.size ≡ b.size
  unfolding write
  size-write = refl

-- After any lines, the buffer holds the last ones that fit.
pub contents-write_all :
    (ms : List String) {b : ProcessLogBuffer}
    → IsValid b
    → contents (write_all ms b) ≡ take_last b.size (contents b ++ ms)
unfolding write_all write
contents-write_all [] {b} v =
    let fits : length (contents b) - b.size ≡ 0 =
      omega (arith, length-window b.buffer b.size (oldest b) b.count) in
    rw (append-nil, fits)
contents-write_all (m ∷ ms) {b} v =
    contents-write_all ms (write-IsValid 0 m v)
    ∙ rw (size-write 0 m v, contents-write 0 m v, take_last-append)
        (ap (take_last b.size) (append_assoc (contents b) (m ∷ []) ms))
