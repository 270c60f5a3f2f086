-- ===== src/LogBuffer/Window.antt =====
-- Reading consecutive slots of a ring, modulo its size.
use native.Mathlib.Nat.{mod-add-mod, add-zero, zero-add, suc-add, sub-zero}
use mathlib.Core.Path.{ap₂}
use process_compose.Common.{
  ℕ, zero, suc, ◌+◌, ◌-◌, ◌%◌, ◌≤◌, ◌<◌, ◌≡◌, ◌≢◌, refl, sym, ap, ◌∙◌, String, List, [], ◌∷◌, ◌++◌,
  arith, get_or, set, length, take, drop, get_or-set_ne,
}
use process_compose.LogBuffer.{ProcessLogBuffer, read_from}

-- The `n` slots from the unwrapped index `a` on.
abbrev pub window : List String → ℕ → ℕ → ℕ → List String
window buf size a zero = []
window buf size a (suc n) = get_or buf (a % size) "" ∷ window buf size (suc a) n

pub read_from-window :
    (b : ProcessLogBuffer) (first i n : ℕ)
    → read_from b first i n ≡ window b.buffer b.size (first + i) n
unfolding read_from
read_from-window b first i zero = refl
read_from-window b first i (suc n) = rw (read_from-window b first (i + 1) n) (
    ap (λ (k : ℕ). get_or b.buffer ((first + i) % b.size) "" ∷ window b.buffer b.size k n)
      (omega arith))

suc-mod : (a c s : ℕ) → a % s ≡ c % s → suc a % s ≡ suc c % s
suc-mod a c s h = ground (arith, mod-add-mod a s 1, mod-add-mod c s 1)

-- A window depends on its start only modulo the size.
pub window-mod :
    (buf : List String) (s a c n : ℕ) → a % s ≡ c % s → window buf s a n ≡ window buf s c n
window-mod buf s a c zero h = refl
window-mod buf s a c (suc n) h = rw (h, window-mod buf s (suc a) (suc c) n (suc-mod a c s h))

pub window-add :
    (buf : List String) (s a n k : ℕ)
    → window buf s a (n + k) ≡ window buf s a n ++ window buf s (a + n) k
window-add buf s a zero k = rw (zero-add, add-zero)
window-add buf s a (suc n) k =
    rw (suc-add, window-add buf s (suc a) n k)
      (ap (λ (x : ℕ). get_or buf (a % s) "" ∷ (window buf s (suc a) n ++ window buf s x k))
        (omega arith))

-- A write outside of a window leaves it alone.
pub window-set_ne :
    (buf : List String) (s j : ℕ) (v : String) (a n : ℕ)
    → ((i : ℕ) → i < n → (a + i) % s ≢ j)
    → window (set buf j v) s a n ≡ window buf s a n
window-set_ne buf s j v a zero h = refl
window-set_ne buf s j v a (suc n) h =
    let tail =
      window-set_ne buf s j v (suc a) n
        (λ i hi e. h (suc i) (omega arith) (ap (λ (x : ℕ). x % s) (omega arith) ∙ e)) in
    let away = λ (e : j ≡ a % s). h 0 (omega arith) (ap (λ (x : ℕ). x % s) (add-zero a) ∙ sym e) in
    rw (get_or-set_ne buf v "" away, tail)

pub length-window : (buf : List String) (s a n : ℕ) → length (window buf s a n) ≡ n
length-window buf s a zero = refl
length-window buf s a (suc n) = ap suc (length-window buf s (suc a) n)

pub take-window :
    (buf : List String) (s a k n : ℕ) → k ≤ n → take k (window buf s a n) ≡ window buf s a k
take-window buf s a zero n h = refl
take-window buf s a (suc k) zero h = absurd (omega arith)
take-window buf s a (suc k) (suc n) h = rw (take-window buf s (suc a) k n (omega arith))

pub drop-window :
    (buf : List String) (s a k n : ℕ)
    → k ≤ n
    → drop k (window buf s a n) ≡ window buf s (a + k) (n - k)
drop-window buf s a zero n h = rw (add-zero, sub-zero)
drop-window buf s a (suc k) zero h = absurd (omega arith)
drop-window buf s a (suc k) (suc n) h =
    drop-window buf s (suc a) k n (omega arith) ∙ ap₂ (window buf s) (omega arith) (omega arith)
