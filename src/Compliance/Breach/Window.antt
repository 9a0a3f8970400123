-- ===== src/Compliance/Breach/Window.antt =====
-- SlidingWindow of services/breach_consumer/consumer.py. Times are numbers, and the test
-- `t > now - window` is written with no subtraction.
use project_k_platform.Prelude.{
  ℕ, ◌+◌, ◌≤◌, ◌≡◌, refl, Bool, List, [], ◌∷◌, ◌++◌, ltb, leb, keep, length, count_if, arith,
  length-keep, keep-append, keep-keep, All, ap, sym, ◌∙◌,
}
use mathlib.Core.List.{append-nil, append_assoc}

pub record SlidingWindow : Type 0 where
  pub window_seconds : ℕ
  pub threshold : ℕ
  pub events : List ℕ

abbrev pub is_recent : ℕ → ℕ → ℕ → Bool
is_recent now window t = ltb now (t + window)

-- `add()` with no argument: the clock's time is `now`.
unfoldable pub add : ℕ → SlidingWindow → Bool × SlidingWindow
add now w =
    let events = keep (is_recent now w.window_seconds) (w.events ++ now ∷ []) in
    (leb w.threshold (length events), record w { events = events })

-- The property `count`, which prunes as well.
unfoldable pub count : ℕ → SlidingWindow → ℕ × SlidingWindow
count now w =
    let events = keep (is_recent now w.window_seconds) w.events in
    (length events, record w { events = events })

-- Pruning at a later time makes an earlier pruning unnecessary.
pub keep-keep_recent :
    (now later window : ℕ) (xs : List ℕ)
    → now ≤ later
    → keep (is_recent later window) (keep (is_recent now window) xs)
      ≡ keep (is_recent later window) xs
keep-keep_recent now later window xs h =
    keep-keep (is_recent now window) (is_recent later window) xs (λ t e. ground arith)

-- A window after the events at `times`, in order.
unfoldable pub add_all : List ℕ → SlidingWindow → SlidingWindow
unfolding add
add_all [] w = w
add_all (t ∷ ts) w = add_all ts (add t w).1

settings-add_all :
    (ts : List ℕ) (w : SlidingWindow)
    → ((add_all ts w).window_seconds ≡ w.window_seconds) × ((add_all ts w).threshold ≡ w.threshold)
unfolding add_all
settings-add_all [] w = (refl, refl)
settings-add_all (t ∷ ts) w = settings-add_all ts (add t w).1

keep-add_all :
    (now : ℕ) (ts : List ℕ) (w : SlidingWindow)
    → All (λ t. t ≤ now) ts
    → keep (is_recent now w.window_seconds) (add_all ts w).events
      ≡ keep (is_recent now w.window_seconds) (w.events ++ ts)
unfolding add_all
keep-add_all now [] w h = rw append-nil
keep-add_all now (t ∷ ts) w (h, hs) =
    let p = is_recent now w.window_seconds in
    keep-add_all now ts (add t w).1 hs
    ∙ keep-append p (keep (is_recent t w.window_seconds) (w.events ++ t ∷ [])) ts
    ∙ ap (λ xs. xs ++ keep p ts) (keep-keep_recent t now w.window_seconds (w.events ++ t ∷ []) h)
    ∙ sym (keep-append p (w.events ++ t ∷ []) ts)
    ∙ ap (keep p) (append_assoc w.events (t ∷ []) ts)

-- However often the window was pruned on the way, an event at `now` reports a breach exactly if the
-- events so far, this one included, that are less than the window old number at least the threshold.
-- The earlier times may come in any order, but none is later than `now`.
pub add-after_add_all :
    (now : ℕ) (ts : List ℕ) (w : SlidingWindow)
    → w.events ≡ []
    → All (λ t. t ≤ now) ts
    → (add now (add_all ts w)).0
      ≡ leb w.threshold (count_if (is_recent now w.window_seconds) (ts ++ now ∷ []))
unfolding add
add-after_add_all now ts w e h =
    let p = is_recent now w.window_seconds in
    let (s, t) = settings-add_all ts w in
    let same : keep p ((add_all ts w).events ++ now ∷ []) ≡ keep p (ts ++ now ∷ []) =
      keep-append p (add_all ts w).events (now ∷ [])
      ∙ ap (λ xs. xs ++ keep p (now ∷ []))
          (keep-add_all now ts w h ∙ ap (λ es. keep p (es ++ ts)) e)
      ∙ sym (keep-append p ts (now ∷ [])) in
    simp (s, t, same, length-keep)
